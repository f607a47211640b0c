-- ===== src/Handler/Requests.antt =====
-- The other handlers of channel_handler.rs: reservations, locks, commits, queries and interrupts.
-- `now` is the time of the call, and `id` what `Uuid::new_v4` returns in it.
use meowith.Base.{ℕ, Bool, true, false, Option, none, some, if◌then◌else◌}
use meowith.Base.Result.{Result, ok, err}
use meowith.Ledger.State.{Env, MeowithIoResult, FragmentMeta}
use meowith.Ledger.Ops.{
  get_available_space, fragment_exists, existing_or_reserved_fragment_meta, try_reserve,
  pause_reservation, cancel_reservation, release_reservation, commit_chunk, commit_alive,
  delete_chunk,
}
use meowith.Locking.Table.{Semaphore, FileLockError, LockKind}
use meowith.Transfer.Upload.{MdsftpResult, connection_error, internal, reservation_error}
use meowith.Reservation.Reserve.{ReserveFlags}
use meowith.Wire.Flags.{CommitFlags}
use meowith.Wire.Message.{
  ChunkErrorKind, Sent, respond_reserve_ok, respond_reserve_err, respond_lock_err,
  respond_commit_ok, respond_query,
}
use meowith.Handler.State.{
  Target, ReservationDetails, Io, Op, pure, raise, ◌>>=◌, ◌>>◌, gets, modify, emit, on_ledger,
  or_error, ack_passed, upload_cancelled, input, output,
}
use meowith.Handler.Streams.{
  respond, close, attempt, set_guard, start_receiving, start_uploading, end_stream,
}

abbrev pub query_answer : Option FragmentMeta → Sent
query_answer (some meta) = respond_query meta.disk_content_size true
query_answer none = respond_query 0 false

module _ {E : Env} {M : Semaphore} {max_readers : ℕ} (io : Io E) (now : ℕ) where
  -- A temporary reservation is paused, and the channel is closed.
  unfoldable pub pause_if : (temp : Bool) (id : ℕ) → Op E M max_readers (Unit {0})
  unfolding pause_reservation
  pause_if false id = pure tt
  pause_if true id = do
    paused ← on_ledger (pause_reservation id now)
    close io (close_result paused)
    where
      close_result : MeowithIoResult (Unit {0}) → MdsftpResult (Unit {0})
      close_result (ok _) = ok tt
      close_result (err _) = err internal

  unfoldable pub start_if : (auto_start : Bool) (id : ℕ) → Op E M max_readers (Unit {0})
  unfolding start_receiving
  start_if false id = pure tt
  start_if true id = start_receiving io id false

  unfoldable pub reserved :
      (desired_size : ℕ) → ReserveFlags → MeowithIoResult ℕ → Op E M max_readers (Unit {0})
  unfolding start_if pause_if get_available_space
  reserved desired_size flags (ok id) = do
    modify (λ h. record h {
      reservation_details = some (record { id = id; size = desired_size; durable = flags.durable });
    })
    start_if flags.auto_start id
    chunk_buffer ← gets (λ w. w.handler.chunk_buffer)
    respond io (respond_reserve_ok id chunk_buffer)
    pause_if flags.temp id
  reserved desired_size flags (err _) = do
    available ← gets (λ w. get_available_space w.ledger)
    respond io (respond_reserve_err available)
    close io (ok tt)

  -- The ledger takes the two ids in the order in which they are passed.
  unfoldable pub handle_reserve :
      (id desired_size associated_bucket_id associated_file_id : ℕ)
      → ReserveFlags
      → Op E M max_readers (Unit {0})
  unfolding try_reserve reserved
  handle_reserve id desired_size associated_bucket_id associated_file_id flags = do
    result ←
        on_ledger
          (try_reserve desired_size associated_bucket_id associated_file_id flags.durable id now)
    reserved desired_size flags result

  -- A lock that is granted is kept, and not answered.
  unfoldable pub lock_attempted :
      (chunk_id : ℕ) → LockKind → Result FileLockError ℕ → Op E M max_readers (Unit {0})
  unfolding set_guard
  lock_attempted chunk_id kind (ok id) = set_guard io kind id
  lock_attempted chunk_id kind (err _) =
      respond io (respond_lock_err chunk_id kind ChunkErrorKind.not_available)

  unfoldable pub lock_existing :
      (exists : Bool) (chunk_id : ℕ) → LockKind → Op E M max_readers (Unit {0})
  unfolding attempt lock_attempted
  lock_existing false chunk_id kind = do
    respond io (respond_lock_err chunk_id kind ChunkErrorKind.not_found)
    close io (ok tt)
  lock_existing true chunk_id kind = do
    guard ← attempt io kind chunk_id
    lock_attempted chunk_id kind guard

  unfoldable pub handle_lock_req : (chunk_id : ℕ) → LockKind → Op E M max_readers (Unit {0})
  unfolding fragment_exists lock_existing
  handle_lock_req chunk_id kind = do
    exists ← gets (λ w. fragment_exists chunk_id w.ledger)
    lock_existing exists chunk_id kind

  unfoldable pub handle_receive_ack : (chunk_id : ℕ) → Op E M max_readers (Unit {0})
  handle_receive_ack chunk_id = do
    uploading ← gets (λ w. w.handler.recv_ack_sender)
    if uploading then emit (ack_passed chunk_id) else raise connection_error

  unfoldable pub handle_reserve_cancel : (chunk_id : ℕ) → Op E M max_readers (Unit {0})
  unfolding cancel_reservation
  handle_reserve_cancel chunk_id = do _ ← on_ledger (cancel_reservation chunk_id); close io (ok tt)

  unfoldable pub handle_delete_chunk : (chunk_id : ℕ) → Op E M max_readers (Unit {0})
  unfolding delete_chunk
  handle_delete_chunk chunk_id = do _ ← on_ledger (delete_chunk chunk_id); close io (ok tt)

  -- What a commit does to the ledger; an error is logged.
  unfoldable pub commit_ledger :
      (final keep_alive reject : Bool) (chunk_id : ℕ)
      → Op E M max_readers (MeowithIoResult (Unit {0}))
  unfolding commit_chunk commit_alive delete_chunk
  commit_ledger true keep_alive reject chunk_id = on_ledger (commit_chunk chunk_id)
  commit_ledger false true reject chunk_id = on_ledger (commit_alive chunk_id now)
  commit_ledger false false true chunk_id = on_ledger (delete_chunk chunk_id)
  commit_ledger false false false chunk_id = pure (ok tt)

  unfoldable pub handle_commit : (chunk_id : ℕ) → CommitFlags → Op E M max_readers (Unit {0})
  unfolding commit_ledger
  handle_commit chunk_id flags = do
    _ ← commit_ledger flags.final flags.keep_alive flags.reject chunk_id
    respond io respond_commit_ok
    close io (ok tt)

  unfoldable pub handle_query : (chunk_id : ℕ) → Op E M max_readers (Unit {0})
  unfolding existing_or_reserved_fragment_meta
  handle_query chunk_id = do
    meta ← gets (λ w. existing_or_reserved_fragment_meta chunk_id w.ledger)
    respond io (query_answer meta)
    close io (ok tt)

  -- Errors of the stream that is shut down are ignored.
  unfoldable pub ignore_errors : Op E M max_readers (Unit {0}) → Op E M max_readers (Unit {0})
  ignore_errors op w = ((op w).0, ok tt)

  unfoldable pub stop_receiving : Option Target → Op E M max_readers (Unit {0})
  unfolding end_stream
  stop_receiving none = pure tt
  stop_receiving (some target) = do
    ignore_errors (end_stream io true target)
    modify (λ h. record h { receive_file_stream = none })

  unfoldable pub release_transferred : Option ReservationDetails → Op E M max_readers (Unit {0})
  unfolding release_reservation
  release_transferred none = pure tt
  release_transferred (some d) = do
    transferred ← gets (λ w. w.handler.data_transferred)
    released ← on_ledger (release_reservation d.id transferred now)
    or_error reservation_error released

  unfoldable pub handle_interrupt : Op E M max_readers (Unit {0})
  unfolding stop_receiving release_transferred
  handle_interrupt = do
    cancels ← gets (λ w. w.handler.upload_cancel)
    if cancels then emit upload_cancelled else pure tt
    target ← gets (λ w. w.handler.receive_file_stream)
    stop_receiving target
    modify (λ h. record h { upload_file_stream = none })
    details ← gets (λ w. w.handler.reservation_details)
    release_transferred details

  unfoldable pub delegate_upload : (size chunk_buffer : ℕ) → Op E M max_readers (Unit {0})
  unfolding start_uploading
  delegate_upload size chunk_buffer = do
    modify (λ h. record h { upload_file_stream = some input })
    start_uploading io size chunk_buffer none

  unfoldable pub delegate_download : (auto_close : Bool) → Op E M max_readers (Unit {0})
  delegate_download auto_close =
      modify (λ h. record h { receive_file_stream = some output; auto_close = auto_close })
