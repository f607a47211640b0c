-- ===== src/Handler/Happenings.antt =====
-- Every message, and an interrupt, keep the counters of the ledger.
use meowith.Base.{ℕ, ◌≡◌, Bool, true, false, Option, none, some}
use meowith.Base.Dict.{lookup}
use meowith.Base.Result.{Result, ok, err}
use meowith.Ledger.State.{Env, MeowithIoResult}
use meowith.Ledger.Ops.{
  try_reserve, pause_reservation, cancel_reservation, release_reservation, delete_chunk,
}
use meowith.Ledger.Balance.{Accounted}
use meowith.Ledger.Accounting.{
  try_reserve-Accounted, refresh_reservation-Accounted, cancel_reservation-Accounted,
  release_reservation-Accounted, commit_chunk-Accounted, commit_alive-Accounted,
  delete_chunk-Accounted,
}
use meowith.Locking.Table.{Semaphore, LockKind, FileLockError}
use meowith.Reservation.Reserve.{ReserveFlags}
use meowith.Wire.Flags.{CommitFlags}
use meowith.Handler.State.{Target, ReservationDetails, Io, World, Op, on_ledger, ◌>>=◌, go_on}
use meowith.Handler.Streams.{end_stream}
use meowith.Handler.Requests.{
  pause_if, start_if, reserved, handle_reserve, lock_attempted, lock_existing, handle_lock_req,
  handle_receive_ack, handle_reserve_cancel, handle_delete_chunk, commit_ledger, handle_commit,
  handle_query, ignore_errors, stop_receiving, release_transferred, handle_interrupt,
}
use meowith.Handler.Keeps.{Balances, on_ledger-Keeps, same-Keeps}
use meowith.Handler.Parts.{keeping, end_stream-Keeps}

module _ {E : Env} {M : Semaphore} {max_readers : ℕ} (io : Io E) (now : ℕ) where
  abbrev Fine : {A : Type 0} → Op E M max_readers A → Type 0
  Fine op = Balances op

  pause_if-Keeps : (temp : Bool) (id : ℕ) → Fine (pause_if io now temp id)
  unfolding pause_if pause_reservation
  pause_if-Keeps false id = search keeping
  pause_if-Keeps true id = search (keeping, paused-Keeps)
    where
      paused-Keeps : Fine (on_ledger (pause_reservation id now))
      paused-Keeps = on_ledger-Keeps _ λ l h. refresh_reservation-Accounted l h id now

  start_if-Keeps : (auto_start : Bool) (id : ℕ) → Fine (start_if io now auto_start id)
  unfolding start_if
  start_if-Keeps false id = search keeping
  start_if-Keeps true id = search keeping

  reserved-Keeps :
      (size : ℕ) (flags : ReserveFlags) (r : MeowithIoResult ℕ)
      → Fine (reserved io now size flags r)
  unfolding reserved
  reserved-Keeps size flags (ok id) = search (keeping, start_if-Keeps, pause_if-Keeps) depth 20
  reserved-Keeps size flags (err e) = search keeping depth 20

  pub handle_reserve-Accounted :
      (id size bucket_id file_id : ℕ) (flags : ReserveFlags) (w : World E M max_readers)
      → lookup id w.ledger.reservation_map ≡ none
      → lookup id w.ledger.chunk_set ≡ none
      → Accounted w.ledger
      → Accounted (handle_reserve io now id size bucket_id file_id flags w).0.ledger
  unfolding handle_reserve ◌>>=◌ go_on on_ledger
  handle_reserve-Accounted id size bucket_id file_id flags w fresh_r fresh_c h =
      let (l, r) = try_reserve size bucket_id file_id flags.durable id now w.ledger in
      (reserved-Keeps size flags r).keeps (record w { ledger = l })
        (try_reserve-Accounted w.ledger h size bucket_id file_id flags.durable id now fresh_r
          fresh_c)

  lock_attempted-Keeps :
      (chunk_id : ℕ) (kind : LockKind) (r : Result FileLockError ℕ)
      → Fine (lock_attempted io now chunk_id kind r)
  unfolding lock_attempted
  lock_attempted-Keeps chunk_id kind (ok id) = search keeping
  lock_attempted-Keeps chunk_id kind (err e) = search keeping

  lock_existing-Keeps :
      (exists : Bool) (chunk_id : ℕ) (kind : LockKind)
      → Fine (lock_existing io now exists chunk_id kind)
  unfolding lock_existing
  lock_existing-Keeps false chunk_id kind = search keeping
  lock_existing-Keeps true chunk_id kind = search (keeping, lock_attempted-Keeps)

  pub handle_lock_req-Keeps :
      (chunk_id : ℕ) (kind : LockKind) → Fine (handle_lock_req io now chunk_id kind)
  unfolding handle_lock_req
  handle_lock_req-Keeps chunk_id kind = search (keeping, lock_existing-Keeps)

  pub handle_receive_ack-Keeps : (chunk_id : ℕ) → Fine (handle_receive_ack io now chunk_id)
  unfolding handle_receive_ack
  handle_receive_ack-Keeps chunk_id = search keeping

  pub handle_reserve_cancel-Keeps : (chunk_id : ℕ) → Fine (handle_reserve_cancel io now chunk_id)
  unfolding handle_reserve_cancel
  handle_reserve_cancel-Keeps chunk_id = search (keeping, cancelled-Keeps)
    where
      cancelled-Keeps : Fine (on_ledger (cancel_reservation chunk_id))
      cancelled-Keeps = on_ledger-Keeps _ λ l h. cancel_reservation-Accounted l h chunk_id

  deleted-Keeps : (chunk_id : ℕ) → Fine (on_ledger (delete_chunk chunk_id))
  deleted-Keeps chunk_id = on_ledger-Keeps _ λ l h. delete_chunk-Accounted l h chunk_id

  pub handle_delete_chunk-Keeps : (chunk_id : ℕ) → Fine (handle_delete_chunk io now chunk_id)
  unfolding handle_delete_chunk
  handle_delete_chunk-Keeps chunk_id = search (keeping, deleted-Keeps)

  commit_ledger-Keeps :
      (final keep_alive reject : Bool) (chunk_id : ℕ)
      → Fine (commit_ledger io now final keep_alive reject chunk_id)
  unfolding commit_ledger
  commit_ledger-Keeps true keep_alive reject chunk_id =
      on_ledger-Keeps _ λ l h. commit_chunk-Accounted l h chunk_id
  commit_ledger-Keeps false true reject chunk_id =
      on_ledger-Keeps _ λ l h. commit_alive-Accounted l h chunk_id now
  commit_ledger-Keeps false false true chunk_id = deleted-Keeps chunk_id
  commit_ledger-Keeps false false false chunk_id = search keeping

  pub handle_commit-Keeps :
      (chunk_id : ℕ) (flags : CommitFlags) → Fine (handle_commit io now chunk_id flags)
  unfolding handle_commit
  handle_commit-Keeps chunk_id flags = search (keeping, commit_ledger-Keeps)

  pub handle_query-Keeps : (chunk_id : ℕ) → Fine (handle_query io now chunk_id)
  unfolding handle_query
  handle_query-Keeps chunk_id = search keeping

  stopped-Keeps : (t : Target) → Fine (ignore_errors io now (end_stream io true t))
  unfolding ignore_errors
  stopped-Keeps t = same-Keeps λ w h. (end_stream-Keeps io true t).keeps w h

  stop_receiving-Keeps : (t : Option Target) → Fine (stop_receiving io now t)
  unfolding stop_receiving
  stop_receiving-Keeps none = search keeping
  stop_receiving-Keeps (some t) = search (keeping, stopped-Keeps)

  release_transferred-Keeps : (d : Option ReservationDetails) → Fine (release_transferred io now d)
  unfolding release_transferred
  release_transferred-Keeps none = search keeping
  release_transferred-Keeps (some d) = search (keeping, released-Keeps)
    where
      released-Keeps : (size : ℕ) → Fine (on_ledger (release_reservation d.id size now))
      released-Keeps size = on_ledger-Keeps _ λ l h. release_reservation-Accounted l h d.id size now

  pub handle_interrupt-Keeps : Fine (handle_interrupt io now)
  unfolding handle_interrupt
  handle_interrupt-Keeps =
      search (keeping, stop_receiving-Keeps, release_transferred-Keeps) depth 30
