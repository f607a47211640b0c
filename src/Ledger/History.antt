-- ===== src/Ledger/History.antt =====
-- Histories of calls on one ledger: tasks interleave in any order, one locked call at a time.
use meowith.Base.{ℕ, ◌≡◌, Bool, none, some, List, [], ◌∷◌, arith}
use meowith.Base.Dict.{lookup}
use meowith.Base.Result.{ok}
use meowith.Ledger.State.{Env, Ledger}
use meowith.Ledger.Ops.{
  pause, resume, shutdown, try_reserve, refresh_reservation, cancel_reservation,
  release_reservation, commit_chunk, commit_alive, delete_chunk,
}
use meowith.Ledger.Sweep.{clean_broken_chunks, clean_uncommitted}
use meowith.Ledger.Balance.{Accounted}
use meowith.Ledger.Accounting.{
  try_reserve-Accounted, refresh_reservation-Accounted, cancel_reservation-Accounted,
  release_reservation-Accounted, commit_chunk-Accounted, commit_alive-Accounted,
  delete_chunk-Accounted,
}
use meowith.Ledger.Housekeeping.{clean_broken_chunks-Swept, clean_uncommitted-Accounted}

pub data Call : Type 0 where
  pauses resumes shuts_down : Call
  reserves : (size bucket_id file_id : ℕ) (durable : Bool) (id now : ℕ) → Call
  refreshes : (id now : ℕ) → Call
  cancels : (id : ℕ) → Call
  releases : (id size_actual now : ℕ) → Call
  commits : (id : ℕ) → Call
  keeps_alive : (id now : ℕ) → Call
  deletes : (id : ℕ) → Call
  sweeps_broken sweeps_uncommitted : (now : ℕ) → Call

module _ {E : Env} where
  unfoldable pub step : Ledger E → Call → Ledger E
  step l pauses = pause l
  step l resumes = resume l
  step l shuts_down = shutdown l
  step l (reserves size bucket_id file_id durable id now) =
      (try_reserve size bucket_id file_id durable id now l).0
  step l (refreshes id now) = (refresh_reservation id now l).0
  step l (cancels id) = (cancel_reservation id l).0
  step l (releases id size_actual now) = (release_reservation id size_actual now l).0
  step l (commits id) = (commit_chunk id l).0
  step l (keeps_alive id now) = (commit_alive id now l).0
  step l (deletes id) = (delete_chunk id l).0
  step l (sweeps_broken now) = (clean_broken_chunks now l).0
  step l (sweeps_uncommitted now) = (clean_uncommitted now l).0

  unfoldable pub run : Ledger E → List Call → Ledger E
  run l [] = l
  run l (c ∷ cs) = run (step l c) cs

  -- A fresh uuid is in no map, and a sweep of broken reservations removes each of their files.
  abbrev pub Permitted : Ledger E → Call → Type 0
  Permitted l (reserves size bucket_id file_id durable id now) =
      (lookup id l.reservation_map ≡ none) × (lookup id l.chunk_set ≡ none)
  Permitted l (sweeps_broken now) = (clean_broken_chunks now l).1 ≡ some (ok tt)
  Permitted l _ = Unit

  abbrev pub AllPermitted : Ledger E → List Call → Type 0
  AllPermitted l [] = Unit
  AllPermitted l (c ∷ cs) = Permitted l c × AllPermitted (step l c) cs

  clean_broken_chunks-Accounted :
      (now : ℕ) (l : Ledger E)
      → Accounted l
      → (clean_broken_chunks now l).1 ≡ some (ok tt)
      → Accounted (clean_broken_chunks now l).0
  clean_broken_chunks-Accounted now l h e = ground (arith, clean_broken_chunks-Swept now l h)

  pub step-Accounted :
      (l : Ledger E) (c : Call) → Accounted l → Permitted l c → Accounted (step l c)
  unfolding step pause resume shutdown
  step-Accounted l pauses h p = h
  step-Accounted l resumes h p = h
  step-Accounted l shuts_down h p = h
  step-Accounted l (reserves size bucket_id file_id durable id now) h p =
      try_reserve-Accounted l h size bucket_id file_id durable id now p.0 p.1
  step-Accounted l (refreshes id now) h p = refresh_reservation-Accounted l h id now
  step-Accounted l (cancels id) h p = cancel_reservation-Accounted l h id
  step-Accounted l (releases id n now) h p = release_reservation-Accounted l h id n now
  step-Accounted l (commits id) h p = commit_chunk-Accounted l h id
  step-Accounted l (keeps_alive id now) h p = commit_alive-Accounted l h id now
  step-Accounted l (deletes id) h p = delete_chunk-Accounted l h id
  step-Accounted l (sweeps_broken now) h p = clean_broken_chunks-Accounted now l h p
  step-Accounted l (sweeps_uncommitted now) h p = clean_uncommitted-Accounted now l h

  -- After any history of calls in which new ids are fresh and no removal of a file fails in the
  -- sweep of broken reservations, the three counters of a ledger that was balanced at the start
  -- are the sums over its maps, each map has an id once, and no id is both reserved and stored.
  pub run-Accounted :
      (l : Ledger E) (cs : List Call) → Accounted l → AllPermitted l cs → Accounted (run l cs)
  unfolding run
  run-Accounted l [] h p = h
  run-Accounted l (c ∷ cs) h p = run-Accounted (step l c) cs (step-Accounted l c h p.0) p.1
