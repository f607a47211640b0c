-- ===== src/Handler/Transfers.antt =====
-- The handlers of channel_handler.rs for transfers: file chunks, retrieve and put. `now` is the time of the call, and
-- `id` what `Uuid::new_v4` returns in it.
use meowith.Base.{ℕ, Bool, true, false, Option, none, some, List, length, ◌==◌, if◌then◌else◌}
use meowith.Base.Result.{ok, err}
use meowith.Ledger.State.{
  Env, MeowithIoError, MeowithIoResult, Reservation, FragmentMeta, committed, fetch_add, fetch_sub,
}
use meowith.Ledger.Ops.{existing_fragment_meta, resume_reservation, release_reservation}
use meowith.Locking.Table.{Semaphore, read}
use meowith.Transfer.Upload.{
  MdsftpResult, ChunkRange, connection_error, internal, reservation_error, remote_error,
  no_such_chunk_id,
}
use meowith.Wire.Message.{
  ChunkErrorKind, PutFlags, respond_receive_ack, respond_put_ok, respond_put_err,
}
use meowith.Handler.State.{
  Target, fragment_file, ReservationDetails, Io, World, Op, pure, raise, ◌>>=◌, ◌>>◌, gets, modify,
  on_ledger, or_error,
}
use meowith.Handler.Streams.{
  respond, close, attempt, locked_or, start_receiving, start_uploading, write_all, end_stream,
}

-- What is left of a reservation, as the subtraction of two words.
abbrev pub remaining : Reservation → ℕ
remaining r = fetch_sub r.file_space r.completed

module _ {E : Env} {M : Semaphore} {max_readers : ℕ} (io : Io E) (now : ℕ) where
  -- An error of a stream closes the handler with it, and is internal to the channel.
  unfoldable pub close_failed :
      World E M max_readers × MdsftpResult (Unit {0})
      → World E M max_readers × MdsftpResult (Unit {0})
  close_failed (w, ok _) = (w, ok tt)
  close_failed (w, err e) = (close io (err e) >> raise internal) w

  unfoldable pub or_close : Op E M max_readers (Unit {0}) → Op E M max_readers (Unit {0})
  or_close op w = close_failed (op w)

  unfoldable pub release_details : Option ReservationDetails → Op E M max_readers (Unit {0})
  unfolding release_reservation
  release_details none = pure tt
  release_details (some d) = do
    released ← on_ledger (release_reservation d.id d.size now)
    or_error reservation_error released

  unfoldable pub after_write : Target → (id : ℕ) (is_last : Bool) → Op E M max_readers (Unit {0})
  unfolding end_stream release_details
  after_write target id false = respond io (respond_receive_ack id)
  after_write target id true = do
    auto_close ← gets (λ w. w.handler.auto_close)
    or_close (end_stream io auto_close target)
    modify (λ h. record h { receive_file_stream = none })
    details ← gets (λ w. w.handler.reservation_details)
    release_details details
    respond io (respond_receive_ack id)
    close io (ok tt)

  unfoldable pub receive_chunk :
      Option Target → (chunk : List ℕ) (id : ℕ) (is_last : Bool) → Op E M max_readers (Unit {0})
  unfolding write_all after_write
  receive_chunk none chunk id is_last = raise connection_error
  receive_chunk (some target) chunk id is_last = do
    or_close (write_all io target chunk)
    modify (λ h. record h { data_transferred = fetch_add h.data_transferred (length chunk) })
    after_write target id is_last

  unfoldable pub handle_file_chunk :
      (chunk : List ℕ) (id : ℕ) (is_last : Bool) → Op E M max_readers (Unit {0})
  unfolding receive_chunk
  handle_file_chunk chunk id is_last = do
    target ← gets (λ w. w.handler.receive_file_stream)
    receive_chunk target chunk id is_last

  unfoldable pub retrieve_fragment :
      Option FragmentMeta
      → (id chunk_buffer : ℕ) (range : Option ChunkRange) → Op E M max_readers (Unit {0})
  unfolding attempt locked_or start_uploading
  retrieve_fragment none id chunk_buffer range = raise no_such_chunk_id
  retrieve_fragment (some meta) id chunk_buffer range = do
    guard ← attempt io read id
    locked_or io reservation_error read guard
    opened ← gets (λ w. io.open_read (committed id) w.ledger.files)
    if opened then pure tt else raise remote_error
    modify (λ h. record h { upload_local_file_stream = some (fragment_file id) })
    start_uploading io meta.disk_content_size chunk_buffer range

  unfoldable pub handle_retrieve :
      (id chunk_buffer : ℕ) (range : Option ChunkRange) → Op E M max_readers (Unit {0})
  unfolding existing_fragment_meta retrieve_fragment
  handle_retrieve id chunk_buffer range = do
    meta ← gets (λ w. existing_fragment_meta id w.ledger)
    retrieve_fragment meta id chunk_buffer range

  unfoldable pub refuse_put : ChunkErrorKind → Op E M max_readers (Unit {0})
  refuse_put kind = do respond io (respond_put_err kind); close io (ok tt)

  unfoldable pub accept_put :
      PutFlags → (chunk_id : ℕ) → Reservation → Op E M max_readers (Unit {0})
  unfolding start_receiving
  accept_put flags chunk_id r = do
    modify (λ h. record h {
      reservation_details =
          some (record { id = chunk_id; size = r.file_space; durable = r.durable });
    })
    start_receiving io chunk_id flags.append
    chunk_buffer ← gets (λ w. w.handler.chunk_buffer)
    respond io (respond_put_ok chunk_buffer)

  unfoldable pub put_resumed :
      PutFlags
      → (chunk_id content_size : ℕ) → MeowithIoResult Reservation
      → Op E M max_readers (Unit {0})
  unfolding accept_put
  put_resumed flags chunk_id content_size (err MeowithIoError.not_found) =
      refuse_put ChunkErrorKind.not_found
  put_resumed flags chunk_id content_size (err _) = refuse_put ChunkErrorKind.not_available
  put_resumed flags chunk_id content_size (ok r) =
      if content_size == remaining r
      then accept_put flags chunk_id r
      else refuse_put ChunkErrorKind.not_available

  unfoldable pub handle_put : PutFlags → (chunk_id content_size : ℕ) → Op E M max_readers (Unit {0})
  unfolding resume_reservation put_resumed
  handle_put flags chunk_id content_size = do
    reservation ← on_ledger (resume_reservation chunk_id now)
    put_resumed flags chunk_id content_size reservation
