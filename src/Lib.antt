-- ===== src/Lib.antt =====
-- The runtime of CHICKEN, runtime.c and chicken.h: exact integers, from the machine word up.
--
-- The model is the 64-bit, little-endian configuration. A C_word or C_uword is a number below 2 ^
-- 64, with the wrap-around written out; Word has the macros and inline functions of chicken.h on
-- it: C_fix, C_unfix, C_fixnump, C_fitsinfixnump, C_ufitsinfixnump, C_wabs, C_ilen and the half
-- digits (C_BIGNUM_DIGIT_HI_HALF, C_BIGNUM_DIGIT_LO_HALF, C_BIGNUM_DIGIT_COMBINE).
--
-- Digits has the loops of runtime.c over the digits of a bignum, on lists of words with the least
-- significant one first: the two loops of bignum_plus_unsigned (add_digits) and of
-- bignum_minus_unsigned (subtract_digits), bignum_digits_destructive_negate, _scale_up_with_carry,
-- _scale_down, _shift_left, _shift_right, bignum_digits_multiply on half digits,
-- bignum_cmp_unsigned and bignum_remainder_unsigned_halfdigit. A read or write beyond an array is
-- none. The children say what the loops compute: Digits.Sums, Differences, Scaling, Shifts, Order,
-- Products.
--
-- Bignum has the exact integers of runtime.c as a data type, a fixnum or a sign and digits, with
-- C_bignum_simplify, C_s_a_u_i_integer_plus, C_s_a_u_i_integer_minus, C_s_a_u_i_integer_negate,
-- C_s_a_u_i_integer_abs and the comparisons C_i_integer_equalp, C_i_integer_greaterp,
-- C_i_integer_lessp, C_i_integer_greater_or_equalp and C_i_integer_less_or_equalp. IsInteger is
-- the form that every operation expects and leaves; value is the integer that an object stands
-- for. The operations call the loops of Digits.
--
-- Shift has C_s_a_i_arithmetic_shift, as a shift to the left and one to the right. Times has
-- C_a_i_fixnum_times and C_s_a_u_i_integer_times with bignum_times_bignum_unsigned and
-- bignum_times_bignum_karatsuba. The test C_stack_check1 of the C stack is a number: integer_times
-- recurs on it, each level of Karatsuba multiplication uses one up, and with none left the
-- schoolbook loop is used, as in the code. So the number is no fuel that could run out.
--
-- Overflow has the fixnum operators of runtime.c that answer #f where the result is no fixnum:
-- C_i_o_fixnum_plus, _difference, _times, _quotient, _and, _ior and _xor, on tagged words.
-- Word.Bitwise has the bits of the results of &, | and ^.
--
-- Divide has the division of a bignum by a small fixnum in integer_divrem, by
-- bignum_destructive_divide_unsigned_small on the loops of Digits, and the shorter ways to the
-- remainder alone.
--
-- Trace has the trace buffer: C_trace and C_emit_trace_info2 write a ring of the last calls, and
-- C_fetch_trace copies it into a vector. A pointer into the buffer is an index. Trace.Window has
-- the abstract view, the last infos of a log.
--
-- Symbols has one symbol table of the runtime: hash_string, lookup, add_symbol, C_intern_in,
-- C_find_symbol and C_i_persist_symbol. A symbol is its place in the list of all names, so the
-- names are the store that the chains of buckets point into.
--
-- Interrupts has the queue of pending interrupts: C_raise_interrupt, C_i_pending_interrupt,
-- handle_interrupt, C_enable_interrupts and C_disable_interrupts are the steps of a relation on
-- the state. The queue has room for MAX_PENDING_INTERRUPTS, 100.
--
-- Lists has the searches in lists without cycles: the loop of C_i_memq, C_i_memv and C_i_member
-- and that of C_i_assq, C_i_assv and C_i_assoc, which differ in the comparison.
--
-- LongDivision has the long division of bignums, bignum_destructive_divide_full and
-- bignum_destructive_divide_normalized, on the half digits that C_uhword_ref reads: the two loops
-- on the estimate recur on the estimate, which they decrement, so they need no fuel. Its children
-- follow the proof: Estimate, Subtract, Corrections (the rest of a round), Rounds, Normal (a
-- normalised divisor), Scale (the shift that normalises), Frame (the shifts and arrays around it)
-- and Full. The lengths that bignum_destructive_divide_normalized keeps in plain ints are tested
-- against 2 ^ 31 (plain_int), and an overflow is none. An array that is not initialised holds
-- ones, in divide_unsigned; divide_full_lem takes any array.
--
-- Divrem has integer_divrem, bignum_divrem and the operators quotient, remainder and modulo on
-- exact integers. The Burnikel-Ziegler division, for divisors of more than
-- C_BURNIKEL_ZIEGLER_THRESHOLD digits, is an argument: none is the branch where C_stack_check1
-- finds no room. Outcome tells the error of a division by zero from a failed assertion or an
-- access past an array.
--
-- Bitwise has the bitwise operators on exact integers: the loops over two arrays (zip_short,
-- zip_long), the negated copies of negative numbers and the negation of a negative result,
-- C_i_bit_to_bool and C_i_integer_length. bit_of is the specification, the bits of the two's
-- complement without end.
--
-- NumberText has exact integers from and to text: digits_to_integer with the two loops of
-- str_to_bignum, and to_n_nary with fixnum_to_string. A text is the list of its bytes; a char is
-- signed, so the codes from 128 on are negative. A radix is an int, below 2 ^ 31. The fuel of
-- read_chunks is the number of characters, of which every round reads one, and that of
-- write_digits is the room in the buffer, so that running out is a write before it. number is the
-- specification, the number that a text stands for.
--
-- Lists also has C_i_get_keyword, one turn of its loop at a time, since the loop does not always
-- end, and C_i_getprop and C_putprop on the property list of a symbol. keyword_in is the
-- specification of the first.
--
-- Random has random_word, the WELL512 generator on 64-bit words, and random_uniform for a number
-- of words: its loop ends only when a word is not too small, which a state of zeros never gives,
-- so that no number of words is always enough.
--
-- Not modelled: the allocation of results in the nursery or the scratch space, and the tests of
-- argument types that raise an error. What the components of PROJECT.json list as not modelled is
-- left out: among it the garbage collector, which moves raw memory, flonums, the calls of the
-- operating system, and the compiler and library in Scheme.
pub mod Prelude
pub mod Word
pub mod Digits
pub mod Bignum
pub mod Shift
pub mod Times
pub mod Overflow
pub mod Divide
pub mod LongDivision
pub mod Divrem
pub mod Bitwise
pub mod NumberText
pub mod Trace
pub mod Symbols
pub mod Interrupts
pub mod Lists
pub mod Random
pub mod Examples
