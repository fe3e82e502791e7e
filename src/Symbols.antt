-- ===== src/Symbols.antt =====
-- runtime.c: symbol tables. A symbol is its place in the list of the names of all symbols (block
-- item 1 of the symbol); a table has a chain of buckets for every key. `none` is a read out of
-- bounds. Strings are lists of bytes, and char is signed.
pub mod Bytes
pub mod Chains
pub mod Intern
pub mod Twice
pub mod Persist
use chicken_core_mirror.Prelude.{
  ℕ, ◌+◌, ◌-◌, ◌*◌, ◌/◌, ◌%◌, ◌^◌, ◌<◌, List, [], ◌∷◌, ◌++◌, Option, none, some, Bool, true, false,
  ◌&&◌, ◌==◌, ltb, if◌then◌else◌, length, set, get_elem?, replicate, All, ◌>>=◌,
}
use chicken_core_mirror.Word.{word_base, add_word}
use Prim.Native.Nat.{bit_xor}

-- A bucket: the symbol, and whether the pair is strong. A weak pair lets the symbol be collected.
pub record Bucket : Type 0 where
  pub symbol : ℕ
  pub strong : Bool

-- C_SYMBOL_TABLE, with the names of the symbols that there are.
pub record Symbols : Type 0 where
  pub rand : ℕ
  pub table : List (List Bucket)
  pub names : List (List ℕ)

-- `*str` as the C_uword that is added.
abbrev pub char_word : ℕ → ℕ
char_word c = if ltb c 128 then c else (word_base - 256 + c)

-- hash_string without `ci`, which no caller asks for: the loop, and the remainder at the end.
unfoldable pub hash_loop : ℕ → List ℕ → ℕ
hash_loop key [] = key
hash_loop key (c ∷ str) =
    hash_loop
      (bit_xor key (add_word (add_word (key * 2 ^ 6 % word_base) (key / 2 ^ 2)) (char_word c))) str

unfoldable pub hash_string : List ℕ → ℕ → ℕ → ℕ
hash_string str m r = hash_loop r str % m

-- The lengths are equal, and so are the bytes.
unfoldable pub same_string : List ℕ → List ℕ → Bool
same_string [] [] = true
same_string [] (d ∷ t) = false
same_string (c ∷ s) [] = false
same_string (c ∷ s) (d ∷ t) = (c == d) && same_string s t

-- The loop of lookup over the buckets of one key; `some none` is C_SCHEME_FALSE.
unfoldable pub lookup_chain : List (List ℕ) → List Bucket → List ℕ → Option (Option ℕ)
lookup_chain names [] str = some none
lookup_chain names (b ∷ bucket) str =
    let rest = lookup_chain names bucket str in
    do s ← get_elem? names b.symbol; if same_string str s then some (some b.symbol) else rest

unfoldable pub lookup : ℕ → List ℕ → Symbols → Option (Option ℕ)
lookup key str t = do bucket ← get_elem? t.table key; lookup_chain t.names bucket str

-- add_symbol, with C_permanentp of the string: the new symbol, and the table with it.
unfoldable pub add_symbol : ℕ → List ℕ → Bool → Symbols → Option (ℕ × Symbols)
add_symbol key string permanent t = do
  b2 ← get_elem? t.table key
  let sym = length t.names
  let bucket : Bucket = record { symbol = sym; strong = permanent }
  some (
    sym,
    record { rand = t.rand; table = set t.table key (bucket ∷ b2); names = t.names ++ string ∷ [] },
  )

abbrev pub key_of : List ℕ → Symbols → ℕ
key_of str t = hash_string str (length t.table) t.rand

-- C_find_symbol
unfoldable pub find_symbol : List ℕ → Symbols → Option (Option ℕ)
find_symbol str t = lookup (key_of str t) str t

-- C_intern_in, and C_string_to_symbol after its checks: what is found, or else a new symbol.
unfoldable pub intern_in : List ℕ → Bool → Symbols → Option (ℕ × Symbols)
intern_in str permanent t = do
  found ← lookup (key_of str t) str t
  elim found [ none ↦ add_symbol (key_of str t) str permanent t | some s ↦ some (s, t) ]

-- The bucket that lookup_bucket finds, with its pair made strong or weak.
unfoldable pub mark : ℕ → Bool → List Bucket → List Bucket
mark sym strong [] = []
mark sym strong (b ∷ bucket) =
    let rest = mark sym strong bucket in
    if b.symbol == sym then record { symbol = b.symbol; strong = strong } ∷ bucket else b ∷ rest

-- C_i_persist_symbol on one table: lookup_bucket, and the pair made strong.
unfoldable pub persist_symbol : ℕ → Symbols → Option Symbols
persist_symbol sym t = do
  str ← get_elem? t.names sym
  bucket ← get_elem? t.table (key_of str t)
  some (record {
    rand = t.rand;
    table = set t.table (key_of str t) (mark sym true bucket);
    names = t.names;
  })

-- C_new_symbol_table, where there is none of that name yet and malloc has the room; `rand` is what
-- rand() answers.
unfoldable pub new_symbol_table : ℕ → ℕ → Symbols
new_symbol_table size rand = record { rand = rand; table = replicate size []; names = [] }

-- A table with a key or more, whose buckets hold symbols that there are.
abbrev pub AreSymbols : ℕ → List Bucket → Type 0
AreSymbols n bucket = All (λ (b : Bucket). b.symbol < n) bucket

abbrev pub IsTable : Symbols → Type 0
IsTable t = (0 < length t.table) × All (AreSymbols (length t.names)) t.table
