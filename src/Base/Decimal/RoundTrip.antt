-- ===== src/Base/Decimal/RoundTrip.antt =====
-- What `%d` prints, `strconv.Atoi` reads.
use Prim.Native.Nat.{ℕ, zero, suc, ◌+◌, ◌-◌, ◌*◌, ◌/◌, ◌%◌, ◌^◌, ◌≤◌, ◌<◌}
use Prim.Native.Char.{Char, code}
use Prim.Native.String.{String, [], ◌∷◌, ◌++◌ as ◌<>◌}
use mathlib.Core.Path.{◌≡◌, refl}
use mathlib.Core.Logic.{inl, inr}
use mathlib.Core.Bool.{true, false}
use native.Mathlib.Omega.{arith}
use native.Mathlib.Numerals.{add-one}
use text.Mathlib.TextLemmas.{cons-append, nil-append}
use solr_collections_operato.Base.Logic.{ltb, Bool-cases}
use solr_collections_operato.Base.Int.{ℤ, pos, negsuc, pos_part, neg_part}
use solr_collections_operato.Base.Decimal.{
  digit, digits, decimal, show_int, Scan, value, syntax_error, range_error, parse_uint, atoi,
}

code-digit : (n : ℕ) → n < 10 → code (digit n) ≡ 48 + n
unfolding digit
code-digit zero h = refl
code-digit (suc zero) h = refl
code-digit (suc (suc zero)) h = refl
code-digit (suc (suc (suc zero))) h = refl
code-digit (suc (suc (suc (suc zero)))) h = refl
code-digit (suc (suc (suc (suc (suc zero))))) h = refl
code-digit (suc (suc (suc (suc (suc (suc zero)))))) h = refl
code-digit (suc (suc (suc (suc (suc (suc (suc zero))))))) h = refl
code-digit (suc (suc (suc (suc (suc (suc (suc (suc zero)))))))) h = refl
code-digit (suc (suc (suc (suc (suc (suc (suc (suc (suc zero))))))))) h = refl
code-digit (suc (suc (suc (suc (suc (suc (suc (suc (suc (suc n)))))))))) h = absurd (omega arith)

-- The scan goes on, if the first part had a value.
abbrev scan_on : String → Scan → Scan
scan_on t (value n) = parse_uint t n
scan_on t syntax_error = syntax_error
scan_on t range_error = range_error

parse_uint-append : (s t : String) (n : ℕ) → parse_uint (s <> t) n ≡ scan_on t (parse_uint s n)
unfolding parse_uint
parse_uint-append [] t n = rw nil-append
parse_uint-append (c ∷ s) t n =
    rw cons-append (ground (arith, parse_uint-append s t (n * 10 + (code c - 48))))

parse_uint-digit :
    (d n m : ℕ) → d < 10 → n * 10 + d ≡ m → m < 2 ^ 64 → parse_uint (digit d ∷ []) n ≡ value m
unfolding parse_uint
parse_uint-digit d n m h e k = ground (arith, code-digit d h)

small_lt : (n : ℕ) → ltb n 10 ≡ true → n < 10
small_lt n h = ground arith

large_le : (n fuel : ℕ) → ltb n 10 ≡ false → n ≤ suc fuel → n / 10 ≤ fuel
large_le n fuel h k = ground arith

parse_uint-digits : (fuel n : ℕ) → n ≤ fuel → n < 2 ^ 64 → parse_uint (digits fuel n) 0 ≡ value n
unfolding digits
parse_uint-digits zero n h k = parse_uint-digit n 0 n (omega arith) (omega arith) k
parse_uint-digits (suc fuel) n h k = elim (Bool-cases (ltb n 10)) [
  | inl small ↦ rw small (parse_uint-digit n 0 n (small_lt n small) (omega arith) k)
  | inr large ↦
      rw
        (
          large,
          parse_uint-append,
          parse_uint-digits fuel (n / 10) (large_le n fuel large h) (omega arith),
        )
        (parse_uint-digit (n % 10) (n / 10) n (omega arith) (omega arith) k)
]

-- The first character is a digit.
digits-cons :
    (fuel n : ℕ) → n ≤ fuel → (d : ℕ) × (s : String) × (digits fuel n ≡ digit d ∷ s) × (d < 10)
unfolding digits
digits-cons zero n h = (n, [], refl, omega arith)
digits-cons (suc fuel) n h = elim (Bool-cases (ltb n 10)) [
  | inl small ↦ (n, [], rw small, small_lt n small)
  | inr large ↦
      let (d, s, e, lt) = digits-cons fuel (n / 10) (large_le n fuel large h) in
      (d, s <> (digit (n % 10) ∷ []), rw (large, e) (cons-append _ _ _), lt)
]

atoi_unsigned :
    (c : Char) (s : String) (n : ℕ)
    → 48 ≤ code c
    → parse_uint (c ∷ s) 0 ≡ value n
    → n < 2 ^ 63
    → atoi (c ∷ s) ≡ pos n
unfolding atoi
atoi_unsigned c s n h e k = ground arith

atoi_signed :
    (c : Char) (s : String) (n : ℕ)
    → parse_uint (c ∷ s) 0 ≡ value (suc n)
    → n < 2 ^ 63
    → atoi ("-" <> (c ∷ s)) ≡ negsuc n
unfolding atoi
atoi_signed c s n e k = rw (cons-append, nil-append) (ground arith)

-- Without a sign in front, `Atoi` scans the digits.
atoi-digits : (n : ℕ) → n < 2 ^ 63 → atoi (decimal n) ≡ pos n
unfolding decimal
atoi-digits n h =
    let (d, s, e, lt) = digits-cons n n (omega arith) in
    rw e (
      atoi_unsigned (digit d) s n (omega (arith, code-digit d lt))
        (rw e at (parse_uint-digits n n (omega arith) (omega arith))) h)

atoi-digits_signed : (n : ℕ) → n < 2 ^ 63 → atoi ("-" <> decimal (n + 1)) ≡ negsuc n
unfolding decimal
atoi-digits_signed n h =
    let (d, s, e, lt) = digits-cons (n + 1) (n + 1) (omega arith) in
    rw e (
      atoi_signed (digit d) s n
        (rw (e, add-one) at (parse_uint-digits (n + 1) (n + 1) (omega arith) (omega arith))) h)

-- Every `int` that is printed by `%d` is read back by `strconv.Atoi`.
pub atoi-show_int : (z : ℤ) → pos_part z < 2 ^ 63 → neg_part z ≤ 2 ^ 63 → atoi (show_int z) ≡ z
unfolding show_int
atoi-show_int (pos n) h k = atoi-digits n h
atoi-show_int (negsuc n) h k = atoi-digits_signed n k
