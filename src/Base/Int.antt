-- ===== src/Base/Int.antt =====
-- Signed integers over the native numbers, under the library's names.
use Prim.Native.Nat.{ℕ, suc, ◌+◌, ◌-◌, ◌%◌, ◌^◌, ◌<◌}
use mathlib.Core.Path.{◌≡◌, ap, sym, ◌∙◌}
use mathlib.Core.Bool.{Bool, true, ◌&&◌}
use native.Mathlib.Omega.{arith}
use meowith.Base.Tests.{leb, ltb, ◌==◌, if◌then◌else◌}

-- `negsuc n` is -(n + 1).
pub data ℤ : Type 0 where
  pos : ℕ → ℤ
  negsuc : ℕ → ℤ

abbrev pub pos_part : ℤ → ℕ
pos_part (pos n) = n
pos_part (negsuc n) = 0

abbrev pub neg_part : ℤ → ℕ
neg_part (pos n) = 0
neg_part (negsuc n) = suc n

-- a - b, as an integer.
abbrev pub sub_ℕ : ℕ → ℕ → ℤ
sub_ℕ a b = if leb b a then pos (a - b) else negsuc (b - a - 1)

infixl 65 ◌+ℤ◌
unfoldable pub ◌+ℤ◌ : ℤ → ℤ → ℤ
a +ℤ b = sub_ℕ (pos_part a + pos_part b) (neg_part a + neg_part b)

abbrev pub neg : ℤ → ℤ
neg a = sub_ℕ (neg_part a) (pos_part a)

abbrev pub eq_ℤ : ℤ → ℤ → Bool
eq_ℤ a b = (pos_part a == pos_part b) && (neg_part a == neg_part b)

abbrev pub ltb_ℤ : ℤ → ℤ → Bool
ltb_ℤ a b = ltb (pos_part a + neg_part b) (pos_part b + neg_part a)

pub +ℤ_comm : (a b : ℤ) → a +ℤ b ≡ b +ℤ a
unfolding ◌+ℤ◌
+ℤ_comm a b = ground arith

pub +ℤ_assoc : (a b c : ℤ) → a +ℤ b +ℤ c ≡ a +ℤ (b +ℤ c)
unfolding ◌+ℤ◌
+ℤ_assoc a b c = ground arith

pub +ℤ-neg : (n m : ℕ) → pos (n + m) +ℤ neg (pos n) ≡ pos m
unfolding ◌+ℤ◌
+ℤ-neg n m = ground arith

pub +ℤ-pos : (n m : ℕ) → pos n +ℤ pos m ≡ pos (n + m)
unfolding ◌+ℤ◌
+ℤ-pos n m = ground arith

pub eq_ℤ-eq : (a b : ℤ) → eq_ℤ a b ≡ true → a ≡ b
eq_ℤ-eq a b h = ground arith

pub eq_ℤ_refl : (a : ℤ) → eq_ℤ a a ≡ true
eq_ℤ_refl a = ground arith

-- The word of 64 bits that stands for an integer, and the `i64` of a word: `as u64`, `as i64`.
abbrev pub as_u64 : ℤ → ℕ
as_u64 (pos n) = n % 2 ^ 64
as_u64 (negsuc n) = 2 ^ 64 - 1 - n % 2 ^ 64

abbrev pub to_i64 : ℕ → ℤ
to_i64 n = if ltb n (2 ^ 63) then pos n else negsuc (2 ^ 64 - 1 - n)

abbrev pub as_i64 : ℤ → ℤ
as_i64 a = to_i64 (as_u64 a)

infixl 65 ◌+i64◌
-- The sum of two `i64`, which wraps around.
unfoldable pub ◌+i64◌ : ℤ → ℤ → ℤ
unfolding ◌+ℤ◌
a +i64 b = as_i64 (a +ℤ b)

as_u64-lt : (a : ℤ) → as_u64 a < 2 ^ 64
as_u64-lt (pos n) = omega arith
as_u64-lt (negsuc n) = omega arith

as_u64-to_i64 : (n : ℕ) → n < 2 ^ 64 → as_u64 (to_i64 n) ≡ n
as_u64-to_i64 n h = ground arith

pub as_i64_small : (n : ℕ) → n < 2 ^ 63 → as_i64 (pos n) ≡ pos n
as_i64_small n h = ground arith

as_u64-sub_ℕ : (a b : ℕ) → as_u64 (sub_ℕ a b) ≡ (a % 2 ^ 64 + (2 ^ 64 - b % 2 ^ 64)) % 2 ^ 64
as_u64-sub_ℕ a b = ground arith

as_u64-+ℤ : (a b : ℤ) → as_u64 (a +ℤ b) ≡ (as_u64 a + as_u64 b) % 2 ^ 64
unfolding ◌+ℤ◌
as_u64-+ℤ (pos a) (pos b) = as_u64-sub_ℕ (a + b) 0 ∙ omega arith
as_u64-+ℤ (pos a) (negsuc b) = as_u64-sub_ℕ (a + 0) (0 + suc b) ∙ omega arith
as_u64-+ℤ (negsuc a) (pos b) = as_u64-sub_ℕ (0 + b) (suc a + 0) ∙ omega arith
as_u64-+ℤ (negsuc a) (negsuc b) = as_u64-sub_ℕ (0 + 0) (suc a + suc b) ∙ omega arith

-- A sum does not depend on whether its first part has been wrapped.
pub +i64-as_i64 : (a b : ℤ) → as_i64 a +i64 b ≡ as_i64 (a +ℤ b)
unfolding ◌+i64◌
+i64-as_i64 a b = ap to_i64 (
    as_u64-+ℤ (as_i64 a) b
    ∙ ap (λ n. (n + as_u64 b) % 2 ^ 64) (as_u64-to_i64 (as_u64 a) (as_u64-lt a))
    ∙ sym (as_u64-+ℤ a b))
