-- ===== src/Wire/Flags.antt =====
-- Flags packed in one byte.
use meowith.Base.{
  ℕ, ◌+◌, ◌*◌, ◌/◌, ◌%◌, ◌^◌, ◌≡◌, refl, ap, ◌∙◌, Bool, true, false, not, arith, ◌==◌,
}
use meowith.Reservation.Reserve.{ReserveFlags}

pub record CommitFlags : Type 0 where
  pub reject : Bool
  pub keep_alive : Bool
  pub final : Bool

abbrev pub bit_of : Bool → ℕ
bit_of true = 1
bit_of false = 0

-- `value & 2^k != 0`, the bit that the mask keeps.
abbrev pub has_bit : ℕ → ℕ → Bool
has_bit value k = not (value / 2 ^ k % 2 == 0)

unfoldable pub reserve_flags_to_u8 : ReserveFlags → ℕ
reserve_flags_to_u8 f =
    bit_of f.auto_start + bit_of f.durable * 2 + bit_of f.temp * 4 + bit_of f.overwrite * 8

unfoldable pub reserve_flags_from_u8 : ℕ → ReserveFlags
reserve_flags_from_u8 value = record {
  auto_start = has_bit value 0;
  durable = has_bit value 1;
  temp = has_bit value 2;
  overwrite = has_bit value 3;
}

-- The `|` of bits at different places is their sum.
unfoldable pub commit_flags_to_u8 : CommitFlags → ℕ
commit_flags_to_u8 f = bit_of f.reject + bit_of f.keep_alive * 2 + bit_of f.final * 4

unfoldable pub commit_flags_from_u8 : ℕ → CommitFlags
commit_flags_from_u8 value = record {
  reject = has_bit value 0;
  keep_alive = has_bit value 1;
  final = has_bit value 2;
}

bit_of-has_bit : (value k : ℕ) → bit_of (has_bit value k) ≡ value / 2 ^ k % 2
bit_of-has_bit value k = ground arith

-- Each bit of four is where it was put.
read_bit :
    (a b c d : Bool)
    → let value = bit_of a + bit_of b * 2 + bit_of c * 4 + bit_of d * 8 in
      (has_bit value 0 ≡ a) × (has_bit value 1 ≡ b) × (has_bit value 2 ≡ c) × (has_bit value 3 ≡ d)
read_bit a b c d = ground arith

-- Reserve flags are read back as they were, and a byte that is read and written again keeps its
-- four low bits.
pub reserve_flags_lem :
    (f : ReserveFlags) (value : ℕ)
    → (reserve_flags_from_u8 (reserve_flags_to_u8 f) ≡ f)
      × (reserve_flags_to_u8 (reserve_flags_from_u8 value) ≡ value % 2 ^ 4)
unfolding reserve_flags_from_u8 reserve_flags_to_u8
reserve_flags_lem f value =
    let r = read_bit f.auto_start f.durable f.temp f.overwrite in
    (
      rw (r.0, r.1, r.2, r.3) refl,
      omega (
        arith,
        bit_of-has_bit value 0,
        bit_of-has_bit value 1,
        bit_of-has_bit value 2,
        bit_of-has_bit value 3,
      ),
    )

-- Commit flags are read back as they were.
pub commit_flags_lem : (f : CommitFlags) → commit_flags_from_u8 (commit_flags_to_u8 f) ≡ f
unfolding commit_flags_from_u8 commit_flags_to_u8
commit_flags_lem f =
    let r = read_bit f.reject f.keep_alive f.final false in
    let value = bit_of f.reject + bit_of f.keep_alive * 2 + bit_of f.final * 4 in
    rw
      (
        ap (λ n. has_bit n 0) (sum_false value) ∙ r.0,
        ap (λ n. has_bit n 1) (sum_false value) ∙ r.1,
        ap (λ n. has_bit n 2) (sum_false value) ∙ r.2,
      )
      refl
  where
    sum_false : (n : ℕ) → n ≡ n + 0 * 8
    sum_false n = omega arith
