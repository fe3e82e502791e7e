-- ===== src/Lists/Properties.antt =====
-- C_i_getprop and C_putprop: the property list as a map.
use chicken_core_mirror.Prelude.{
  ℕ, ◌≡◌, List, [], ◌∷◌, Option, none, some, Bool, true, false, if◌then◌else◌, ◌==◌, arith, refl,
  inl, inr, Bool-cases,
}
use chicken_core_mirror.Lists.{
  Symbol, find_property, getprop, replace_property, is_empty, store_property, putprop,
}

-- A symbol with properties is kept.
abbrev pub IsKept : Symbol → Type 0
IsKept sym = if is_empty sym.plist then Unit {0} else (sym.persistent ≡ true)

-- What is found after the value of a property was replaced, or where the property is new.
abbrev Replaced : List (ℕ × ℕ) → ℕ → ℕ → Option (List (ℕ × ℕ)) → Type 0
Replaced pl prop val none = Unit {0}
Replaced pl prop val (some new) =
    ((q def : ℕ) → find_property new q def ≡ (if prop == q then val else find_property pl q def))
    × (is_empty pl ≡ false)

found_first :
    (key value prop val q : ℕ) (later : ℕ)
    → (key == prop) ≡ true
    → (if key == q then val else later)
      ≡ (if prop == q then val else (if key == q then value else later))
found_first key value prop val q later e = ground arith

found_later :
    (key value prop val q later new : ℕ)
    → (key == prop) ≡ false
    → new ≡ (if prop == q then val else later)
    → (if key == q then value else new)
      ≡ (if prop == q then val else (if key == q then value else later))
found_later key value prop val q later new e h = ground arith

replace_property_lem :
    (pl : List (ℕ × ℕ)) (prop val : ℕ) → Replaced pl prop val (replace_property pl prop val)
unfolding find_property replace_property is_empty
replace_property_lem [] prop val = tt
replace_property_lem ((key, value) ∷ pl) prop val = elim (Bool-cases (key == prop)) [
  | inl e ↦ rw e (λ q def. found_first key value prop val q (find_property pl q def) e, refl)
  | inr e ↦ rw e (later (replace_property pl prop val) (replace_property_lem pl prop val) e)
]
  where
    later :
        (o : Option (List (ℕ × ℕ)))
        → Replaced pl prop val o
        → (key == prop) ≡ false
        → Replaced
            ((key, value) ∷ pl)
            prop
            val
            (elim o [ none ↦ none | some new ↦ some ((key, value) ∷ new) ])
    later none r e = tt
    later (some new) (r, _) e = (
      λ q def.
          found_later key value prop val q (find_property pl q def) (find_property new q def) e
            (r q def),
      refl,
    )

kept_now : (e p : Bool) → (if e then Unit {0} else (p ≡ true)) → (if e then true else p) ≡ true
kept_now true p h = refl
kept_now false p h = h

kept_still : (e p : Bool) → p ≡ true → if e then Unit {0} else (p ≡ true)
kept_still true p h = tt
kept_still false p h = h

stored :
    (kept : Bool) (pl : List (ℕ × ℕ)) (prop val : ℕ) (o : Option (List (ℕ × ℕ)))
    → kept ≡ true
    → Replaced pl prop val o
    → let s = store_property kept pl prop val o in
      ((q def : ℕ)
        → find_property s.0.plist q def ≡ (if prop == q then val else find_property pl q def))
      × (s.1 ≡ val)
      × IsKept s.0
unfolding store_property find_property is_empty
stored kept pl prop val none k r = (λ q def. refl, refl, k)
stored kept pl prop val (some new) k (r, _) = (r, refl, kept_still (is_empty new) kept k)

-- On a symbol that is kept when it has properties, C_putprop of a value returns it, C_i_getprop
-- then answers it for that property and what it answered before for any other, whether the
-- property is new or its value is replaced in place, and the symbol stays kept.
pub putprop-getprop :
    (sym : Symbol) (prop val q def : ℕ)
    → IsKept sym
    → let s = putprop sym prop val in
      (getprop s.0 q def ≡ (if prop == q then val else getprop sym q def))
      × (s.1 ≡ val)
      × IsKept s.0
unfolding getprop putprop find_property
putprop-getprop sym prop val q def kept =
    let (same, returned, kept') =
      stored (if is_empty sym.plist then true else sym.persistent) sym.plist prop val
        (replace_property sym.plist prop val) (kept_now (is_empty sym.plist) sym.persistent kept)
        (replace_property_lem sym.plist prop val) in
    (same q def, returned, kept')
