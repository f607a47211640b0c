-- ===== src/Wire/Bytes.antt =====
-- `to_be_bytes` and `from_be_bytes` of the unsigned integers, `Uuid::as_bytes` and
-- `Uuid::from_bytes`, which write the highest byte first; and slices of byte vectors.
use meowith.Base.{
  ℕ, zero, suc, ◌+◌, ◌-◌, ◌*◌, ◌/◌, ◌%◌, ◌^◌, ◌<◌, ◌≡◌, ◌∙◌, refl, List, [], ◌∷◌, ◌++◌, arith, take,
  drop,
}

-- The lowest `k` bytes of a number.
abbrev pub be_bytes : (k n : ℕ) → List ℕ
be_bytes zero n = []
be_bytes (suc k) n = be_bytes k (n / 256) ++ n % 256 ∷ []

abbrev pub from_be : (acc : ℕ) → List ℕ → ℕ
from_be acc [] = acc
from_be acc (b ∷ bs) = from_be (acc * 256 + b) bs

-- `bytes[start..end]`.
abbrev pub slice : (start end : ℕ) → List ℕ → List ℕ
slice start end bytes = take (end - start) (drop start bytes)

from_be-snoc : (acc b : ℕ) (bs : List ℕ) → from_be acc (bs ++ b ∷ []) ≡ from_be acc bs * 256 + b
from_be-snoc acc b [] = refl
from_be-snoc acc b (c ∷ bs) = from_be-snoc (acc * 256 + c) b bs

-- A number that fits its bytes is read back.
pub from_be-be_bytes : (k n : ℕ) → n < 256 ^ k → from_be 0 (be_bytes k n) ≡ n
from_be-be_bytes zero n h = omega arith
from_be-be_bytes (suc k) n h =
    from_be-snoc 0 (n % 256) (be_bytes k (n / 256))
    ∙ omega (arith, from_be-be_bytes k (n / 256) (omega arith))
