-- ===== src/Base/Int.antt =====
-- Signed integers over the native numbers, under the library's names: C's `int` and `long`.
use Prim.Native.Nat.{ℕ, suc, ◌+◌, ◌-◌, ◌<◌, ◌≤◌}
use mathlib.Core.Path.{◌≡◌}
use mathlib.Core.Bool.{Bool, true, false}
use mathlib.Core.Logic.{◌↔◌}
use native.Mathlib.Omega.{arith}
use seamlessrdp.Base.{leb, ltb, if◌then◌else◌, ◌==◌, ◌&&◌, ◌^◌, ◌%◌}

-- `negsuc n` is -(n + 1).
pub data ℤ : Type 0 where
  pos : ℕ → ℤ
  negsuc : ℕ → ℤ

abbrev pub is_negative : ℤ → Bool
is_negative (pos n) = false
is_negative (negsuc n) = true

abbrev pub pos_part : ℤ → ℕ
pos_part (pos n) = n
pos_part (negsuc n) = 0

abbrev pub neg_part : ℤ → ℕ
neg_part (pos n) = 0
neg_part (negsuc n) = suc n

-- a - b, as an integer
abbrev pub sub_ℕ : ℕ → ℕ → ℤ
sub_ℕ a b = if leb b a then pos (a - b) else negsuc (b - a - 1)

infixl 65 ◌+ℤ◌ ◌-ℤ◌
unfoldable pub ◌+ℤ◌ : ℤ → ℤ → ℤ
a +ℤ b = sub_ℕ (pos_part a + pos_part b) (neg_part a + neg_part b)

unfoldable pub ◌-ℤ◌ : ℤ → ℤ → ℤ
a -ℤ b = sub_ℕ (pos_part a + neg_part b) (neg_part a + pos_part b)

-- equality of two `int`
abbrev pub eq_ℤ : ℤ → ℤ → Bool
eq_ℤ a b = pos_part a == pos_part b && neg_part a == neg_part b

-- The bits of an integer as an `unsigned` of 32 bits.
abbrev pub to_u32 : ℤ → ℕ
to_u32 a = (pos_part a + 2 ^ 32 - neg_part a % 2 ^ 32) % 2 ^ 32

-- The integer as an `int` of 32 bits. Where a C sum leaves the range the standard leaves open what
-- happens; the compilers for Windows wrap.
unfoldable pub wrap : ℤ → ℤ
wrap a = let low = to_u32 a in if ltb low (2 ^ 31) then pos low else negsuc (2 ^ 32 - 1 - low)

abbrev pub add_i32 : ℤ → ℤ → ℤ
add_i32 a b = wrap (a +ℤ b)

abbrev pub sub_i32 : ℤ → ℤ → ℤ
sub_i32 a b = wrap (a -ℤ b)

-- An `int`.
abbrev pub IsI32 : ℤ → Type 0
IsI32 a = (pos_part a < 2 ^ 31) × (neg_part a ≤ 2 ^ 31)

pub wrap_fits : (a : ℤ) → IsI32 a → wrap a ≡ a
unfolding wrap
wrap_fits (pos n) h = ground (arith, h.0)
wrap_fits (negsuc n) h = ground (arith, h.1)

-- No further from 0 than `n`.
pub record IsWithin (n : ℕ) (a : ℤ) : Type 0 where
  pub above : neg_part a ≤ n
  pub below : pos_part a ≤ n

pub IsWithin-sum : {m n : ℕ} (a b : ℤ) → IsWithin m a → IsWithin n b → IsWithin (m + n) (a +ℤ b)
unfolding ◌+ℤ◌
IsWithin-sum a b h k = record {
  above = ground (arith, h.above, h.below, k.above, k.below);
  below = ground (arith, h.above, h.below, k.above, k.below);
}

pub IsWithin-difference :
    {m n : ℕ} (a b : ℤ) → IsWithin m a → IsWithin n b → IsWithin (m + n) (a -ℤ b)
unfolding ◌-ℤ◌
IsWithin-difference a b h k = record {
  above = ground (arith, h.above, h.below, k.above, k.below);
  below = ground (arith, h.above, h.below, k.above, k.below);
}

pub wrap_within : {n : ℕ} (a : ℤ) → IsWithin n a → n < 2 ^ 31 → wrap a ≡ a
wrap_within a h small = wrap_fits a (omega (arith, h.below), omega (arith, h.above))

pub eq_ℤ-true : (a b : ℤ) → eq_ℤ a b ≡ true → a ≡ b
eq_ℤ-true a b h = ground arith

pub parts-+ℤ :
    (a b : ℤ)
    → pos_part (a +ℤ b) + (neg_part a + neg_part b) ≡ neg_part (a +ℤ b) + (pos_part a + pos_part b)
unfolding ◌+ℤ◌
parts-+ℤ a b = ground arith

pub parts--ℤ :
    (a b : ℤ)
    → pos_part (a -ℤ b) + (neg_part a + pos_part b) ≡ neg_part (a -ℤ b) + (pos_part a + neg_part b)
unfolding ◌-ℤ◌
parts--ℤ a b = ground arith

-- Integers are equal when the differences of their parts are.
pub eq_ℤ-parts : (a b : ℤ) → pos_part a + neg_part b ≡ pos_part b + neg_part a → a ≡ b
eq_ℤ-parts a b h = ground arith

pub eq_ℤ-refl : (a : ℤ) → eq_ℤ a a ≡ true
eq_ℤ-refl a = ground arith

pub eq_ℤ_iff : (a b : ℤ) → (eq_ℤ a b ≡ true) ↔ (pos_part a + neg_part b ≡ pos_part b + neg_part a)
eq_ℤ_iff a b = ground arith
