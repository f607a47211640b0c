-- ===== src/Bucket/Attempts.antt =====
-- How many attempts an update of the counters of a bucket takes (`update_bucket_space`).
use meowith.Base.{
  ℕ, zero, suc, ◌<◌, ◌≤◌, ◌≡◌, refl, ◌∙◌, true, false, List, [], ◌∷◌, length, arith, Bool-cases,
  inl, inr, if◌then◌else◌,
}
use meowith.Base.Int.{ℤ, eq_ℤ_refl}
use meowith.Base.Result.{Result, ok}
use meowith.Reservation.Reserve.{NodeClientError}
use meowith.Bucket.State.{World, Bucket, outcome_lem}
use meowith.Bucket.Tables.{
  Counters, counters, add, same, try_update, update_loop, update_bucket_space, set_counters,
  next_rival,
}

abbrev Succeeds : World × Result NodeClientError (Unit {0}) → Type 0
Succeeds r = (w' : World) × (r ≡ (w', ok tt))

-- What a try answers when nothing fails.
pub try_update_lem :
    (expected delta : Counters) (w : World)
    → (next_rival w.rivals w).faults ≡ []
    → let w' = next_rival w.rivals w in
      try_update expected delta w ≡ (
        (if same (counters w'.bucket) expected
            then record w' { bucket = set_counters (add expected delta) w'.bucket }
            else w'),
        ok (same (counters w'.bucket) expected, counters w'.bucket),
      )
unfolding try_update
try_update_lem expected delta w h = rw (outcome_lem (next_rival w.rivals w) h) refl

next_rival-faults : (rs : List Counters) (w : World) → (next_rival rs w).faults ≡ w.faults
next_rival-faults [] w = refl
next_rival-faults (r ∷ rs) w = refl

update_loop-once :
    (attempts : ℕ) (expected delta : Counters) (w : World)
    → w.faults ≡ []
    → (same (counters (next_rival w.rivals w).bucket) expected ≡ false
        → Succeeds (
            update_loop attempts
              (counters (next_rival w.rivals w).bucket)
              delta
              (next_rival w.rivals w)))
    → Succeeds (update_loop (suc attempts) expected delta w)
unfolding update_loop
update_loop-once attempts expected delta w h again =
    rw (try_update_lem expected delta w (next_rival-faults w.rivals w ∙ h))
      (elim (Bool-cases (same (counters (next_rival w.rivals w).bucket) expected)) [
        | inl yes_same ↦ rw yes_same (_, refl)
        | inr not_same ↦ rw not_same (again not_same)
      ])

pub same_refl : (c : Counters) → same c c ≡ true
same_refl c = rw (eq_ℤ_refl c.0, eq_ℤ_refl c.1) refl

next_rival-length :
    (rs : List Counters) (w : World) → w.rivals ≡ rs → length (next_rival rs w).rivals ≤ length rs
next_rival-length [] w h = rw h (omega arith)
next_rival-length (r ∷ rs) w h = omega arith

-- One that knows the counters, once no more than `attempts` changes are to come.
update_loop_known :
    (rs : List Counters) (attempts : ℕ) (expected delta : Counters) (w : World)
    → w.rivals ≡ rs
    → w.faults ≡ []
    → expected ≡ counters w.bucket
    → length rs < attempts
    → Succeeds (update_loop attempts expected delta w)
update_loop_known rs zero expected delta w hr h e lt = absurd (omega arith)
update_loop_known [] (suc attempts) expected delta w hr h e lt =
    update_loop-once attempts expected delta w h
      (rw (hr, e) (λ differ. cc (same_refl (counters w.bucket), differ)))
update_loop_known (r ∷ rs) (suc attempts) expected delta w hr h e lt =
    update_loop-once attempts expected delta w h (
      rw hr (λ _.
        update_loop_known rs attempts (counters (next_rival (r ∷ rs) w).bucket) delta
          (next_rival (r ∷ rs) w) refl h refl (omega arith)))

-- An update of the counters succeeds if no statement fails and fewer than 2,047 changes of other
-- tasks come in between.
pub update_bucket_space_ends :
    (b : Bucket) (file_count_delta space_taken_delta : ℤ) (w : World)
    → w.faults ≡ []
    → length w.rivals < 2047
    → (w' : World) × (update_bucket_space b file_count_delta space_taken_delta w ≡ (w', ok tt))
unfolding update_bucket_space
update_bucket_space_ends b file_count_delta space_taken_delta w h lt =
    update_loop-once 2047 (counters b) (file_count_delta, space_taken_delta) w h
      (λ _.
        update_loop_known (next_rival w.rivals w).rivals 2047
          (counters (next_rival w.rivals w).bucket) (file_count_delta, space_taken_delta)
          (next_rival w.rivals w) refl (next_rival-faults w.rivals w ∙ h) refl
          (omega (arith, next_rival-length w.rivals w refl)))
