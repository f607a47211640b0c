-- ===== src/Permission/Words.antt =====
-- The operations `&`, `|` and `<<` of Rust on words of some width.
use meowith.Base.{
  ℕ, zero, suc, ◌+◌, ◌*◌, ◌/◌, ◌%◌, ◌^◌, ◌<◌, ◌≡◌, refl, Bool, true, false, not, ◌&&◌, ◌||◌, ◌==◌,
  if◌then◌else◌, ap, ◌∙◌, arith,
}
use meowith.Wire.Flags.{bit_of}

abbrev pub odd : ℕ → Bool
odd n = n % 2 == 1

-- `a & b` on words of a width.
unfoldable pub and_word : ℕ → ℕ → ℕ → ℕ
and_word zero a b = 0
and_word (suc w) a b = bit_of (odd a && odd b) + 2 * and_word w (a / 2) (b / 2)

-- `a | b` on words of a width.
unfoldable pub or_word : ℕ → ℕ → ℕ → ℕ
or_word zero a b = 0
or_word (suc w) a b = bit_of (odd a || odd b) + 2 * or_word w (a / 2) (b / 2)

-- The bit at a place, counted from the lowest one.
unfoldable pub bit_at : ℕ → ℕ → Bool
bit_at a zero = odd a
bit_at a (suc k) = bit_at (a / 2) k

half : (p : Bool) (n : ℕ) → (bit_of p + 2 * n) / 2 ≡ n
half p n = ground arith

pow-suc : (k : ℕ) → 2 ^ suc k ≡ 2 * 2 ^ k
pow-suc k = omega arith

half_pow : (k : ℕ) → 2 ^ suc k / 2 ≡ 2 ^ k
half_pow k = omega (arith, pow-suc k)

pub or_word-bound : (w a b : ℕ) → or_word w a b < 2 ^ w
unfolding or_word
or_word-bound zero a b = omega arith
or_word-bound (suc w) a b = ground (arith, or_word-bound w (a / 2) (b / 2), pow-suc w)

pub bit_at-or_word : (w k a b : ℕ) → k < w → bit_at (or_word w a b) k ≡ (bit_at a k || bit_at b k)
unfolding or_word bit_at
bit_at-or_word zero k a b h = absurd (omega arith)
bit_at-or_word (suc w) zero a b h = ground arith
bit_at-or_word (suc w) (suc k) a b h =
    ap (λ n. bit_at n k) (half (odd a || odd b) (or_word w (a / 2) (b / 2)))
    ∙ bit_at-or_word w k (a / 2) (b / 2) (omega arith)

pub bit_at-zero : (k : ℕ) → bit_at 0 k ≡ false
unfolding bit_at
bit_at-zero zero = refl
bit_at-zero (suc k) = bit_at-zero k

-- The word with one bit has it, and no other.
pub bit_at-pow : (j k : ℕ) → bit_at (2 ^ j) k ≡ (j == k)
unfolding bit_at
bit_at-pow zero zero = refl
bit_at-pow zero (suc k) = bit_at-zero k ∙ ground arith
bit_at-pow (suc j) zero = ground (arith, pow-suc j)
bit_at-pow (suc j) (suc k) = ap (λ n. bit_at n k) (half_pow j) ∙ bit_at-pow j k ∙ ground arith

pow-positive : (k : ℕ) → 0 < 2 ^ k
pow-positive zero = omega arith
pow-positive (suc k) = omega (arith, pow-positive k, pow-suc k)

pub pow-bound : (k w : ℕ) → k < w → 2 ^ k < 2 ^ w
pow-bound k zero h = absurd (omega arith)
pow-bound zero (suc w) h = omega (arith, pow-positive w, pow-suc w)
pow-bound (suc k) (suc w) h = omega (arith, pow-bound k w (omega arith), pow-suc k, pow-suc w)

and_word-zero : (w a : ℕ) → and_word w a 0 ≡ 0
unfolding and_word
and_word-zero zero a = refl
and_word-zero (suc w) a = ground (arith, and_word-zero w (a / 2))

-- `&` with the word of one bit, which is not zero if the bit is there.
pub and_word-pow : (w a j : ℕ) → j < w → and_word w a (2 ^ j) ≡ (if bit_at a j then 2 ^ j else 0)
unfolding and_word bit_at
and_word-pow zero a j h = absurd (omega arith)
and_word-pow (suc w) a zero h = ground (arith, and_word-zero w (a / 2))
and_word-pow (suc w) a (suc j) h =
    ground (
      arith,
      ap (and_word w (a / 2)) (half_pow j),
      and_word-pow w (a / 2) j (omega arith),
      pow-suc j,
    )

-- `(a & b) == b`.
unfoldable pub covers : ℕ → ℕ → ℕ → Bool
covers w a b = and_word w a b == b

covers-suc :
    (w a b : ℕ) → covers (suc w) a b ≡ (not (odd b && not (odd a)) && covers w (a / 2) (b / 2))
unfolding covers and_word
covers-suc w a b = ground arith

or_word-odd : (w b c : ℕ) → odd (or_word (suc w) b c) ≡ (odd b || odd c)
unfolding or_word
or_word-odd w b c = ground arith

covers-none : (a b c : ℕ) → b < 2 ^ 0 → c < 2 ^ 0 → covers 0 a 0 ≡ (covers 0 a b && covers 0 a c)
unfolding covers and_word
covers-none a b c h h' = ground arith

spread :
    (a b c p q : Bool)
    → (not ((b || c) && not a) && (p && q)) ≡ ((not (b && not a) && p) && (not (c && not a) && q))
spread a b c p q = ground arith

-- A word covers an `|` exactly when it covers both its sides.
pub covers-or_word :
    (w a b c : ℕ)
    → b < 2 ^ w
    → c < 2 ^ w
    → covers w a (or_word w b c) ≡ (covers w a b && covers w a c)
unfolding or_word
covers-or_word zero a b c h h' = covers-none a b c h h'
covers-or_word (suc w) a b c h h' =
    rw
      (
        covers-suc w a (or_word (suc w) b c),
        covers-suc w a b,
        covers-suc w a c,
        or_word-odd w b c,
        half (odd b || odd c) (or_word w (b / 2) (c / 2)),
        covers-or_word w (a / 2) (b / 2) (c / 2) (omega (arith, pow-suc w))
            (omega (arith, pow-suc w)),
      )
      (spread (odd a) (odd b) (odd c) (covers w (a / 2) (b / 2)) (covers w (a / 2) (c / 2)))

-- A word covers one bit exactly when it has it.
pub covers-pow : (w a j : ℕ) → j < w → covers w a (2 ^ j) ≡ bit_at a j
unfolding covers
covers-pow w a j h = ground (arith, and_word-pow w a j h, pow-positive j)

-- `a & bit != 0`, when the bit is there.
pub and_word-pow_test : (w a j : ℕ) → j < w → not (and_word w a (2 ^ j) == 0) ≡ bit_at a j
and_word-pow_test w a j h = ground (arith, and_word-pow w a j h, pow-positive j)

pub covers-zero : (w a : ℕ) → covers w a 0 ≡ true
unfolding covers
covers-zero w a = ground (arith, and_word-zero w a)
