-- ===== src/Bucket/Counters.antt =====
-- The counters of a bucket under updates by other tasks (`update_bucket_space`).
use mathlib.Core.List.{append_assoc}
use meowith.Base.{
  ℕ, zero, suc, ◌≡◌, refl, ap, ◌∙◌, sym, Bool, true, false, List, [], ◌∷◌, ◌++◌, arith,
  if◌then◌else◌, ◌⊎◌, inl, inr,
}
use meowith.Base.Int.{ℤ, eq_ℤ-eq}
use meowith.Base.Result.{Result, ok, err}
use meowith.Reservation.Reserve.{NodeClientError}
use meowith.Bucket.State.{
  World, Bucket, Fault, works, refused, timed_out, outcome, next_fault, settle, return, bind,
}
use meowith.Bucket.Tables.{
  Counters, counters, add, same, try_update, update_loop, update_bucket_space, set_counters,
  next_rival, query_attempts,
}

-- The counters after changes of other tasks.
abbrev pub changed : Counters → List Counters → Counters
changed c [] = c
changed c (r ∷ rs) = changed (add c r) rs

-- That nothing but changes of other tasks to the counters, and faults, lie between two worlds.
pub record Changes (w w' : World) : Type 0 where
  pub used : List Counters
  pub in_order : w.rivals ≡ used ++ w'.rivals
  pub counted : counters w'.bucket ≡ changed (counters w.bucket) used
  pub quota_kept : w'.bucket.quota ≡ w.bucket.quota
  pub files_kept : w'.files ≡ w.files
  pub directories_kept : w'.directories ≡ w.directories
  pub deleted_kept : w'.deleted ≡ w.deleted

-- That a change was added once, to the counters as other tasks have left them.
abbrev pub Once : Counters → World → World → Type 0
Once delta w w' =
    (between : World) × Changes w between
    × (w' ≡ record between {
      bucket = set_counters (add (counters between.bucket) delta) between.bucket;
    })

-- An update that succeeds adds its change once; one that fails adds it once or not at all.
abbrev pub Applied : Counters → World → World × Result NodeClientError (Unit {0}) → Type 0
Applied delta w (w', ok _) = Once delta w w'
Applied delta w (w', err _) = Changes w w' ⊎ Once delta w w'

-- What one try has done.
abbrev Tried : Counters → World → World × Result NodeClientError (Bool × Counters) → Type 0
Tried delta w (w', ok (true, now)) = Applied delta w (w', ok tt)
Tried delta w (w', ok (false, now)) = Changes w w'
Tried delta w (w', err _) = Changes w w' ⊎ Once delta w w'

changed_append :
    (c : Counters) (rs ss : List Counters) → changed c (rs ++ ss) ≡ changed (changed c rs) ss
changed_append c [] ss = refl
changed_append c (r ∷ rs) ss = changed_append (add c r) rs ss

Changes-trans : (w w' w'' : World) → Changes w w' → Changes w' w'' → Changes w w''
Changes-trans w w' w'' a b = record {
  used = a.used ++ b.used;
  in_order =
      a.in_order ∙ ap (λ r. a.used ++ r) b.in_order ∙ sym (append_assoc a.used b.used w''.rivals);
  counted =
      b.counted
      ∙ ap (λ c. changed c b.used) a.counted
      ∙ sym (changed_append (counters w.bucket) a.used b.used);
  quota_kept = b.quota_kept ∙ a.quota_kept;
  files_kept = b.files_kept ∙ a.files_kept;
  directories_kept = b.directories_kept ∙ a.directories_kept;
  deleted_kept = b.deleted_kept ∙ a.deleted_kept;
}

Changes-refl : (w : World) → Changes w w
Changes-refl w = record {
  used = [];
  in_order = refl;
  counted = refl;
  quota_kept = refl;
  files_kept = refl;
  directories_kept = refl;
  deleted_kept = refl;
}

fault-Changes : (faults : List Fault) (w : World) → Changes w (record w { faults = faults })
fault-Changes faults w = record {
  used = [];
  in_order = refl;
  counted = refl;
  quota_kept = refl;
  files_kept = refl;
  directories_kept = refl;
  deleted_kept = refl;
}

next_rival-Changes : (rs : List Counters) (w : World) → w.rivals ≡ rs → Changes w (next_rival rs w)
next_rival-Changes [] w h = Changes-refl w
next_rival-Changes (r ∷ rs) w h = record {
  used = r ∷ [];
  in_order = h;
  counted = refl;
  quota_kept = refl;
  files_kept = refl;
  directories_kept = refl;
  deleted_kept = refl;
}

pub same-eq : (c d : Counters) → same c d ≡ true → c ≡ d
same-eq c d h = λ i. (eq_ℤ-eq c.0 d.0 (ground arith) i, eq_ℤ-eq c.1 d.1 (ground arith) i)

-- What a try leaves when its statement takes effect.
abbrev write_if : Bool → (expected delta : Counters) → World → World
write_if b expected delta w =
    if b then record w { bucket = set_counters (add expected delta) w.bucket } else w

written :
    (b : Bool) (expected delta : Counters) (w w' : World)
    → Changes w w'
    → same (counters w'.bucket) expected ≡ b
    → Tried delta w (write_if b expected delta w', ok (b, counters w'.bucket))
written true expected delta w w' c h = (
  w',
  c,
  ap (λ e. record w' { bucket = set_counters (add e delta) w'.bucket }) (sym (same-eq _ _ h)),
)
written false expected delta w w' c h = c

written_unanswered :
    (b : Bool) (expected delta : Counters) (w w' : World)
    → Changes w w'
    → same (counters w'.bucket) expected ≡ b
    → Changes w (write_if b expected delta w') ⊎ Once delta w (write_if b expected delta w')
written_unanswered true expected delta w w' c h = inr (written true expected delta w w' c h)
written_unanswered false expected delta w w' c h = inl c

popped :
    (faults : List Fault) (w w' : World) → Changes w w' → Changes w (record w' { faults = faults })
popped faults w w' c =
    Changes-trans w w' (record w' { faults = faults }) c (fault-Changes faults w')

after_fault :
    (faults : List Fault) (expected delta : Counters) (w w' : World)
    → Changes w w'
    → let b = same (counters w'.bucket) expected in
      Tried delta w (
        bind
          (bind (next_fault faults w') (settle (write_if b expected delta)))
          (λ _. return (b, counters w'.bucket)))
after_fault [] expected delta w w' c =
    written (same (counters w'.bucket) expected) expected delta w w' c refl
after_fault (works ∷ faults) expected delta w w' c =
    written (same (counters w'.bucket) expected) expected delta w (record w' { faults = faults })
      (popped faults w w' c) refl
after_fault (refused ∷ faults) expected delta w w' c = inl (popped faults w w' c)
after_fault (timed_out ∷ faults) expected delta w w' c =
    written_unanswered (same (counters w'.bucket) expected) expected delta w
      (record w' { faults = faults }) (popped faults w w' c) refl

try_update-Tried :
    (expected delta : Counters) (w : World) → Tried delta w (try_update expected delta w)
unfolding try_update outcome
try_update-Tried expected delta w =
    let w' = next_rival w.rivals w in
    after_fault w'.faults expected delta w w' (next_rival-Changes w.rivals w refl)

Applied-after :
    (delta : Counters) (w w' : World) (r : World × Result NodeClientError (Unit {0}))
    → Changes w w'
    → Applied delta w' r
    → Applied delta w r
Applied-after delta w w' (w'', ok _) c (between, d, e) =
    (between, Changes-trans w w' between c d, e)
Applied-after delta w w' (w'', err _) c (inl d) = inl (Changes-trans w w' w'' c d)
Applied-after delta w w' (w'', err _) c (inr (between, d, e)) =
    inr (between, Changes-trans w w' between c d, e)

-- The rest of the loop after one try.
after_try :
    (attempts : ℕ) (delta : Counters) (w : World)
    (r : World × Result NodeClientError (Bool × Counters))
    → Tried delta w r
    → ((expected : Counters) (w : World) → Applied delta w (update_loop attempts expected delta w))
    → Applied delta w (
        bind r (λ answer. elim answer.0 [
          | true ↦ (λ w. (w, ok tt))
          | false ↦ update_loop attempts answer.1 delta
        ]))
after_try attempts delta w (w', ok (true, now)) t again = t
after_try attempts delta w (w', ok (false, now)) t again =
    Applied-after delta w w' (update_loop attempts now delta w') t (again now w')
after_try attempts delta w (w', err e) t again = t

update_loop-Applied :
    (attempts : ℕ) (expected delta : Counters) (w : World)
    → Applied delta w (update_loop attempts expected delta w)
unfolding update_loop
update_loop-Applied zero expected delta w = inl (Changes-refl w)
update_loop-Applied (suc attempts) expected delta w =
    after_try attempts delta w (try_update expected delta w) (try_update-Tried expected delta w)
      (λ expected w. update_loop-Applied attempts expected delta w)

-- An update of the counters adds its change exactly once, to what other tasks have made of them, if
-- it succeeds, and at most once if it fails, whatever statements fail, with their effect or without
-- it, and however old the counters are that it starts from.
pub update_bucket_space-Applied :
    (b : Bucket) (file_count_delta space_taken_delta : ℤ) (w : World)
    → Applied
        (file_count_delta, space_taken_delta)
        w
        (update_bucket_space b file_count_delta space_taken_delta w)
unfolding update_bucket_space
update_bucket_space-Applied b file_count_delta space_taken_delta w =
    update_loop-Applied query_attempts (counters b) (file_count_delta, space_taken_delta) w
