-- ===== src/Base/Int.antt =====
-- Go's signed integers: integers over the native numbers, and the wrap-around of `int32`.
use Prim.Native.Nat.{ℕ, suc, ◌+◌, ◌-◌, ◌%◌, ◌^◌, ◌≤◌, ◌<◌}
use mathlib.Core.Path.{◌≡◌}
use mathlib.Core.Bool.{Bool, true}
use native.Mathlib.Omega.{arith}
use solr_collections_operato.Base.Logic.{ltb, leb, eqb, if◌then◌else◌}

-- `negsuc n` is -(n + 1).
pub data ℤ : Type 0 where
  pos : ℕ → ℤ
  negsuc : ℕ → ℤ

abbrev pub pos_part : ℤ → ℕ
pos_part (pos n) = n
pos_part (negsuc n) = 0

abbrev pub neg_part : ℤ → ℕ
neg_part (pos n) = 0
neg_part (negsuc n) = suc n

abbrev pub sub_ℕ : ℕ → ℕ → ℤ
sub_ℕ a b = if leb b a then pos (a - b) else negsuc (b - a - 1)

infixl 65 ◌-ℤ◌ ◌+ℤ◌
unfoldable pub ◌+ℤ◌ : ℤ → ℤ → ℤ
a +ℤ b = sub_ℕ (pos_part a + pos_part b) (neg_part a + neg_part b)

unfoldable pub ◌-ℤ◌ : ℤ → ℤ → ℤ
a -ℤ b = sub_ℕ (pos_part a + neg_part b) (neg_part a + pos_part b)

abbrev pub ltb_ℤ : ℤ → ℤ → Bool
ltb_ℤ a b = ltb (pos_part a + neg_part b) (pos_part b + neg_part a)

abbrev pub eqb_ℤ : ℤ → ℤ → Bool
eqb_ℤ a b = eqb (pos_part a + neg_part b) (pos_part b + neg_part a)

pub eqb_ℤ→≡ : (a b : ℤ) → eqb_ℤ a b ≡ true → a ≡ b
eqb_ℤ→≡ a b h = ground arith

-- The values of an `int32`.
abbrev pub IsInt32 : ℤ → Type 0
IsInt32 z = (pos_part z < 2147483648) × (neg_part z ≤ 2147483648)

-- The residue of an integer modulo 2³².
abbrev residue : ℤ → ℕ
residue (pos n) = n % 2 ^ 32
residue (negsuc n) = 2 ^ 32 - 1 - n % 2 ^ 32

-- Conversion to `int32`: the value with the same residue in the range of `int32`.
unfoldable pub to_int32 : ℤ → ℤ
to_int32 z = sub_ℕ (residue z) (if ltb (residue z) (2 ^ 31) then 0 else 2 ^ 32)

-- `a - b` on `int32`.
unfoldable pub sub32 : ℤ → ℤ → ℤ
unfolding to_int32 ◌-ℤ◌
sub32 a b = to_int32 (a -ℤ b)

-- `a + b` on `int32`.
unfoldable pub add32 : ℤ → ℤ → ℤ
unfolding to_int32 ◌+ℤ◌
add32 a b = to_int32 (a +ℤ b)

pub to_int32-IsInt32 : (z : ℤ) → IsInt32 (to_int32 z)
unfolding to_int32
to_int32-IsInt32 z = ground arith

pub to_int32_of_IsInt32 : (z : ℤ) → IsInt32 z → to_int32 z ≡ z
unfolding to_int32
to_int32_of_IsInt32 z h = ground arith

-- Two `int32` values differ exactly when their wrapped difference is not zero.
pub sub32_zero : (a b : ℤ) → IsInt32 a → IsInt32 b → sub32 a b ≡ pos 0 → a ≡ b
unfolding sub32
sub32_zero a b h k e = ground arith
