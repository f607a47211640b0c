-- ===== src/Permission/Lists.antt =====
-- Lists of permissions and the words of 64 bits that stand for them
-- (commons/src/permission/check.rs).
use meowith.Base.{
  ℕ, ◌-◌, ◌^◌, ◌<◌, ◌≤◌, ◌≡◌, refl, Bool, true, false, not, ◌&&◌, ◌||◌, ◌==◌, if◌then◌else◌, List,
  [], ◌∷◌, arith, ap, ◌∙◌,
}
use meowith.Permission.Words.{
  and_word, or_word, bit_at, covers, covers-or_word, covers-pow, covers-zero, and_word-pow_test,
  bit_at-or_word, bit_at-pow, bit_at-zero, or_word-bound, pow-bound,
}

-- What the list conversions ask of a type of permissions: its numbers, and all its values.
pub record PermissionListEntry {ℓ} (T : Type ℓ) : Type ℓ where
  pub number : T → ℕ
  pub iter : List T

module _ {ℓ} {T : Type ℓ} (entry : PermissionListEntry T) where
  -- `1u64 << (number - 1)`, a word of 64 bits for the numbers that there are.
  unfoldable pub bit : T → ℕ
  bit perm = 2 ^ (entry.number perm - 1)

  -- The derived `==`, which compares the numbers.
  abbrev pub contains : T → List T → Bool
  contains p [] = false
  contains p (perm ∷ perms) = (entry.number perm == entry.number p) || contains p perms

  abbrev pub gather : ℕ → List T → ℕ
  gather val [] = val
  gather val (perm ∷ perms) = gather (or_word 64 val (bit perm)) perms

  unfoldable pub to_u64 : List T → ℕ
  to_u64 perms = gather 0 perms

  abbrev pub select : ℕ → List T → List T
  select value [] = []
  select value (perm ∷ perms) =
      let rest = select value perms in
      if not (and_word 64 value (bit perm) == 0) then perm ∷ rest else rest

  unfoldable pub from_u64 : ℕ → List T
  from_u64 value = select value entry.iter

  -- Every permission of a list is in another one.
  abbrev pub all_in : List T → List T → Bool
  all_in held [] = true
  all_in held (q ∷ qs) = contains q held && all_in held qs

unfoldable pub check_permission : ℕ → ℕ → Bool
check_permission allowance requested = and_word 64 allowance requested == requested

-- What the conversions rely on: every number is the place of a bit, and `iter` gives every value.
pub record IsEntry {ℓ} {T : Type ℓ} (entry : PermissionListEntry T) : Type ℓ where
  pub place : (p : T) → (1 ≤ entry.number p) × (entry.number p ≤ 64)
  pub complete : (p : T) → contains entry p entry.iter ≡ true

module _ {ℓ} {T : Type ℓ} (entry : PermissionListEntry T) (laws : IsEntry entry) where
  abbrev place_of : T → ℕ
  place_of p = entry.number p - 1

  -- A word has the bits of all of a list of permissions.
  abbrev has_all : ℕ → List T → Bool
  has_all a [] = true
  has_all a (q ∷ qs) = bit_at a (place_of q) && has_all a qs

  bit-bound : (p : T) → bit entry p < 2 ^ 64
  unfolding bit
  bit-bound p = pow-bound (place_of p) 64 (omega (arith, laws.place p))

  covers-bit : (a : ℕ) (q : T) → covers 64 a (bit entry q) ≡ bit_at a (place_of q)
  unfolding bit
  covers-bit a q = covers-pow 64 a (place_of q) (omega (arith, laws.place q))

  covers-gather :
      (a val : ℕ) (qs : List T)
      → val < 2 ^ 64
      → covers 64 a (gather entry val qs) ≡ (covers 64 a val && has_all a qs)
  covers-gather a val [] h = ground arith
  covers-gather a val (q ∷ qs) h =
      rw
        (
          covers-gather a (or_word 64 val (bit entry q)) qs (or_word-bound 64 val (bit entry q)),
          covers-or_word 64 a val (bit entry q) h (bit-bound q),
          covers-bit a q,
        )
        (ground arith)

  bit_at-bit : (p q : T) → bit_at (bit entry q) (place_of p) ≡ (entry.number q == entry.number p)
  unfolding bit
  bit_at-bit p q = bit_at-pow (place_of q) (place_of p) ∙ ground (arith, laws.place p, laws.place q)

  bit_at-gather :
      (p : T) (val : ℕ) (qs : List T)
      → bit_at (gather entry val qs) (place_of p) ≡ (bit_at val (place_of p) || contains entry p qs)
  bit_at-gather p val [] = ground arith
  bit_at-gather p val (q ∷ qs) =
      rw
        (
          bit_at-gather p (or_word 64 val (bit entry q)) qs,
          bit_at-or_word 64 (place_of p) val (bit entry q) (omega (arith, laws.place p)),
          bit_at-bit p q,
        )
        (ground arith)

  same_place :
      (p q : T) (value : ℕ)
      → entry.number q ≡ entry.number p
      → bit_at value (place_of q) ≡ bit_at value (place_of p)
  same_place p q value h = ap (λ n. bit_at value (n - 1)) h

  contains-select :
      (p : T) (value : ℕ) (qs : List T)
      → contains entry p (select entry value qs)
        ≡ (bit_at value (place_of p) && contains entry p qs)
  unfolding bit
  contains-select p value [] = ground arith
  contains-select p value (q ∷ qs) = ground (
    arith,
    contains-select p value qs,
    and_word-pow_test 64 value (place_of q) (omega (arith, laws.place q)),
    same_place p q value,
  )

  bit_at-to_u64 :
      (p : T) (ps : List T) → bit_at (to_u64 entry ps) (place_of p) ≡ contains entry p ps
  unfolding to_u64
  bit_at-to_u64 p ps =
      bit_at-gather p 0 ps ∙ ap (λ b. b || contains entry p ps) (bit_at-zero (place_of p))

  contains-from_u64 :
      (p : T) (value : ℕ) → contains entry p (from_u64 entry value) ≡ bit_at value (place_of p)
  unfolding from_u64
  contains-from_u64 p value = ground (arith, contains-select p value entry.iter, laws.complete p)

  has_all-from : (a : ℕ) (qs : List T) → has_all a qs ≡ all_in entry (from_u64 entry a) qs
  has_all-from a [] = refl
  has_all-from a (q ∷ qs) = rw (contains-from_u64 q a, has_all-from a qs) refl

  -- The list that a word of a list is read as has the same permissions.
  pub from_u64-to_u64 :
      (ps : List T) (p : T)
      → contains entry p (from_u64 entry (to_u64 entry ps)) ≡ contains entry p ps
  from_u64-to_u64 ps p = contains-from_u64 p (to_u64 entry ps) ∙ bit_at-to_u64 p ps

  -- A request for a list of permissions is allowed by a word exactly when the list that the word is
  -- read as has all of them.
  pub check_permission-to_u64 :
      (allowance : ℕ) (qs : List T)
      → check_permission allowance (to_u64 entry qs) ≡ all_in entry (from_u64 entry allowance) qs
  unfolding check_permission to_u64 covers
  check_permission-to_u64 allowance qs =
      covers-gather allowance 0 qs (omega arith)
      ∙ ap (λ b. b && has_all allowance qs) (covers-zero 64 allowance)
      ∙ has_all-from allowance qs
