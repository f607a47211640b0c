-- ===== src/Base/Dict.antt =====
-- Maps from ids to values as association lists. A real `HashMap` iterates in an order of its
-- own; every statement is over all lists, so over every order.
use Prim.Native.Nat.{ℕ, ◌+◌, ◌≤◌}
use mathlib.Core.Path.{◌≡◌, refl}
use mathlib.Core.Logic.{◌≢◌}
use mathlib.Core.Bool.{Bool, true, false}
use mathlib.Core.Option.{Option, none, some}
use mathlib.Core.List.{List, [], ◌∷◌}
use native.Mathlib.Omega.{arith}
use meowith.Base.Tests.{◌==◌, if◌then◌else◌}

abbrev pub Dict {ℓ} : Type ℓ → Type ℓ
Dict V = List (ℕ × V)

module _ {ℓ} {V : Type ℓ} where
  unfoldable pub lookup : ℕ → Dict V → Option V
  lookup k [] = none
  lookup k ((other, v) ∷ m) = if other == k then some v else lookup k m

  unfoldable pub insert : ℕ → V → Dict V → Dict V
  insert k v [] = (k, v) ∷ []
  insert k v ((other, w) ∷ m) = if other == k then (k, v) ∷ m else (other, w) ∷ insert k v m

  unfoldable pub remove : ℕ → Dict V → Dict V
  remove k [] = []
  remove k ((j, w) ∷ m) = let rest = remove k m in if j == k then rest else (j, w) ∷ rest

  abbrev pub contains_key : ℕ → Dict V → Bool
  contains_key k m = elim (lookup k m) [ none ↦ false | some _ ↦ true ]

  abbrev pub keys : Dict V → List ℕ
  keys [] = []
  keys ((k, _) ∷ m) = k ∷ keys m

  -- The sum of a measure over the values.
  unfoldable pub total : (V → ℕ) → Dict V → ℕ
  total f [] = 0
  total f ((_, v) ∷ m) = f v + total f m

  abbrev pub NodupKeys : Dict V → Type ℓ
  NodupKeys [] = Unit
  NodupKeys ((k, _) ∷ m) = (lookup k m ≡ none) × NodupKeys m

  pub lookup-insert :
      (k j : ℕ) (v : V) (m : Dict V)
      → lookup j (insert k v m) ≡ (if k == j then some v else lookup j m)
  unfolding lookup insert
  lookup-insert k j v [] = refl
  lookup-insert k j v ((other, old) ∷ m) = ground (arith, lookup-insert k j v m)

  pub lookup-remove :
      (k j : ℕ) (m : Dict V) → lookup j (remove k m) ≡ (if k == j then none else lookup j m)
  unfolding lookup remove
  lookup-remove k j [] = ground arith
  lookup-remove k j ((i, w) ∷ m) = ground (arith, lookup-remove k j m)

  pub insert-NodupKeys : (k : ℕ) (v : V) (m : Dict V) → NodupKeys m → NodupKeys (insert k v m)
  unfolding lookup insert
  insert-NodupKeys k v [] h = (refl, tt)
  insert-NodupKeys k v ((j, w) ∷ m) h =
      ground (arith, lookup-insert k j v m, insert-NodupKeys k v m h.1)

  pub remove-NodupKeys : (k : ℕ) (m : Dict V) → NodupKeys m → NodupKeys (remove k m)
  unfolding lookup remove
  remove-NodupKeys k [] h = tt
  remove-NodupKeys k ((j, w) ∷ m) h = ground (arith, lookup-remove k j m, remove-NodupKeys k m h.1)

  pub remove-absent : (k : ℕ) (m : Dict V) → lookup k m ≡ none → remove k m ≡ m
  unfolding lookup remove
  remove-absent k [] h = refl
  remove-absent k ((j, w) ∷ m) h = ground (arith, remove-absent k m)

  -- A new key adds its value's measure.
  pub total-insert_new :
      (f : V → ℕ) (k : ℕ) (v : V) (m : Dict V)
      → lookup k m ≡ none
      → total f (insert k v m) ≡ total f m + f v
  unfolding lookup insert total
  total-insert_new f k v [] h = omega arith
  total-insert_new f k v ((j, w) ∷ m) h = ground (arith, total-insert_new f k v m)

  -- A value replaced by one of the same measure changes nothing.
  pub total-insert_same :
      (f : V → ℕ) (k : ℕ) (v w : V) (m : Dict V)
      → lookup k m ≡ some w
      → f v ≡ f w
      → total f (insert k v m) ≡ total f m
  unfolding lookup insert total
  total-insert_same f k v w [] h e = cc
  total-insert_same f k v w ((j, u) ∷ m) h e = ground (arith, total-insert_same f k v w m)

  pub total-remove :
      (f : V → ℕ) (k : ℕ) (v : V) (m : Dict V)
      → NodupKeys m
      → lookup k m ≡ some v
      → total f (remove k m) + f v ≡ total f m
  unfolding lookup remove total
  total-remove f k v [] u h = cc
  total-remove f k v ((j, w) ∷ m) u h = ground (arith, total-remove f k v m u.1, remove-absent k m)

  pub remove-insert_new :
      (k : ℕ) (v : V) (m : Dict V) → lookup k m ≡ none → remove k (insert k v m) ≡ m
  unfolding lookup insert remove
  remove-insert_new k v [] h = ground arith
  remove-insert_new k v ((j, w) ∷ m) h = ground (arith, remove-insert_new k v m)

  -- One value's measure is part of the sum, and so are those of two values under two keys.
  pub total-ge : (f : V → ℕ) (k : ℕ) (v : V) (m : Dict V) → lookup k m ≡ some v → f v ≤ total f m
  unfolding lookup total
  total-ge f k v [] h = cc
  total-ge f k v ((j, w) ∷ m) h = ground (arith, total-ge f k v m)

  pub total-ge_two :
      (f : V → ℕ) (i j : ℕ) (v w : V) (m : Dict V)
      → i ≢ j
      → lookup i m ≡ some v
      → lookup j m ≡ some w
      → f v + f w ≤ total f m
  unfolding lookup total
  total-ge_two f i j v w [] d h e = cc
  total-ge_two f i j v w ((k, u) ∷ m) d h e =
      ground (arith, total-ge_two f i j v w m d, total-ge f i v m, total-ge f j w m)
