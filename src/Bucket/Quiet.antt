-- ===== src/Bucket/Quiet.antt =====
-- What the statements on the rows of a bucket do when none fails and no other task is at work.
use meowith.Base.{ℕ, suc, ◌≡◌, refl, ap, ◌∙◌, sym, Bool, true, false, if◌then◌else◌, List, [], ◌++◌}
use meowith.Base.Int.{ℤ, pos, negsuc, neg}
use meowith.Base.Result.{ok}
use meowith.Bucket.State.{
  File, Bucket, World, outcome, outcome_lem, works, execute, execute_lem, return, erase_file,
  put_file, bind,
}
use meowith.Bucket.Tables.{
  Counters, counters, set_counters, add, same, try_update, update_loop, update_bucket_space,
  next_rival, delete_file, insert_file,
}
use meowith.Bucket.Counters.{same-eq}
use meowith.Bucket.Attempts.{try_update_lem, same_refl}
use meowith.Bucket.Files.{Reachable, reached, do_delete_file}

pub record Quiet (w : World) : Type 0 where
  pub no_fault : w.faults ≡ []
  pub no_rival : w.rivals ≡ []

abbrev pub counted : Counters → World → World
counted delta w = record w { bucket = set_counters (add (counters w.bucket) delta) w.bucket }

quiet_try :
    (expected delta : Counters) (w : World)
    → Quiet w
    → try_update expected delta w ≡ (
      (if same (counters w.bucket) expected
          then record w { bucket = set_counters (add expected delta) w.bucket }
          else w),
      ok (same (counters w.bucket) expected, counters w.bucket),
    )
quiet_try expected delta w q =
    let still : next_rival w.rivals w ≡ w = ap (λ rs. next_rival rs w) q.no_rival in
    try_update_lem expected delta w (ap (λ (v : World). v.faults) still ∙ q.no_fault)
    ∙ ap
        (λ (v : World). (
          (if same (counters v.bucket) expected
              then record v { bucket = set_counters (add expected delta) v.bucket }
              else v),
          ok (same (counters v.bucket) expected, counters v.bucket),
        ))
        still

quiet_known :
    (attempts : ℕ) (delta : Counters) (w : World)
    → Quiet w
    → update_loop (suc attempts) (counters w.bucket) delta w ≡ (counted delta w, ok tt)
unfolding update_loop
quiet_known attempts delta w q =
    rw (quiet_try (counters w.bucket) delta w q, same_refl (counters w.bucket)) refl

-- The loop after its first try.
quiet_rest :
    (b : Bool) (attempts : ℕ) (expected delta : Counters) (w : World)
    → Quiet w
    → same (counters w.bucket) expected ≡ b
    → bind {A = Bool × Counters} {B = Unit {0}}
        (
          (if b then record w { bucket = set_counters (add expected delta) w.bucket } else w),
          ok (b, counters w.bucket),
        )
        (λ answer. elim answer.0 [
          | true ↦ return tt
          | false ↦ update_loop (suc attempts) answer.1 delta
        ])
      ≡ (counted delta w, ok tt)
quiet_rest true attempts expected delta w q h =
    ap (λ e. (record w { bucket = set_counters (add e delta) w.bucket }, ok tt))
      (sym (same-eq _ _ h))
quiet_rest false attempts expected delta w q h = quiet_known attempts delta w q

quiet_update :
    (attempts : ℕ) (expected delta : Counters) (w : World)
    → Quiet w
    → update_loop (suc (suc attempts)) expected delta w ≡ (counted delta w, ok tt)
unfolding update_loop
quiet_update attempts expected delta w q =
    rw (quiet_try expected delta w q)
      (quiet_rest (same (counters w.bucket) expected) attempts expected delta w q refl)

pub quiet_outcome : (w : World) → Quiet w → outcome w ≡ (w, ok works)
quiet_outcome w q = outcome_lem w q.no_fault

pub quiet_execute : (w : World) → Quiet w → execute w ≡ (w, ok tt)
quiet_execute w q = execute_lem w q.no_fault

pub quiet_space :
    (b : Bucket) (c s : ℤ) (w : World)
    → Quiet w
    → update_bucket_space b c s w ≡ (counted (c, s) w, ok tt)
unfolding update_bucket_space
quiet_space b c s w q = quiet_update 2046 (counters b) (c, s) w q

-- The rows and the counters after a file is erased.
abbrev pub without : File → World → World
without f w =
    counted (negsuc 0, neg (pos f.size))
      (record w { files = erase_file f.directory f.name w.files })

abbrev pub with_file : File → World → World
with_file f w = counted (pos 1, pos f.size) (record w { files = put_file f w.files })

files-Quiet : (fs : List File) (w : World) → Quiet w → Quiet (record w { files = fs })
files-Quiet fs w q = record { no_fault = q.no_fault; no_rival = q.no_rival }

pub quiet_delete_file :
    (f : File) (b : Bucket) (w : World) → Quiet w → delete_file f b w ≡ (without f w, ok tt)
unfolding delete_file
quiet_delete_file f b w q =
    rw
      (
        quiet_outcome w q,
        quiet_space b (negsuc 0) (neg (pos f.size))
            (record w { files = erase_file f.directory f.name w.files })
            (files-Quiet (erase_file f.directory f.name w.files) w q),
      )
      refl

pub quiet_insert_file :
    (f : File) (b : Bucket) (w : World) → Quiet w → insert_file f b w ≡ (with_file f w, ok tt)
unfolding insert_file
quiet_insert_file f b w q =
    rw
      (
        quiet_outcome w q,
        quiet_space b (pos 1) (pos f.size) (record w { files = put_file f w.files })
            (files-Quiet (put_file f w.files) w q),
      )
      refl

-- The world after a file is deleted with its chunks.
abbrev pub deleted_file : Reachable → File → World → World
deleted_file reachable f w =
    without f (record w { deleted = w.deleted ++ reached reachable f.chunk_ids })

pub quiet_do_delete_file :
    (reachable : Reachable) (f : File) (b : Bucket) (w : World)
    → Quiet w
    → do_delete_file reachable f b w ≡ (deleted_file reachable f w, ok tt)
unfolding do_delete_file
quiet_do_delete_file reachable f b w q =
    quiet_delete_file f b (record w { deleted = w.deleted ++ reached reachable f.chunk_ids })
      (record { no_fault = q.no_fault; no_rival = q.no_rival })
