-- ===== src/Handler/Streams.antt =====
-- Locks, streams and answers of a handler: `start_receiving`, `start_uploading`, and the file
-- streams of node/src/io/fragment_ledger.rs.
use meowith.Base.{
  ℕ, suc, Bool, true, false, Option, none, some, List, ◌++◌, length, take, leb, if◌then◌else◌,
}
use meowith.Base.Result.{Result, ok, err}
use meowith.Ledger.State.{Env, get_path}
use meowith.Locking.Table.{
  Semaphore, FileLockTable, FileLockError, LockKind, read, write, try_lock, begin_drop, end_drop,
}
use meowith.Transfer.Upload.{
  MdsftpResult, MdsftpError, ChunkRange, reservation_error, remote_error, ssl_error,
}
use meowith.Wire.Message.{Sent}
use meowith.Handler.State.{
  Target, fragment, output, Source, MeowithMdsftpChannelPacketHandler, sent, handler_closed,
  upload_started, Io, Op, pure, raise, ◌>>=◌, ◌>>◌, gets, modify, emit,
}

-- The first stream that there is; without one the spawned upload closes with an error.
abbrev pub source_of : MeowithMdsftpChannelPacketHandler → Option Source
source_of h = first_source h.upload_file_stream h.upload_local_file_stream
  where
    first_source : Option Source → Option Source → Option Source
    first_source (some s) _ = some s
    first_source none other = other

module _ {E : Env} {M : Semaphore} {max_readers : ℕ} (io : Io E) where
  unfoldable pub respond_with : Option MdsftpError → Sent → Op E M max_readers (Unit {0})
  respond_with (some e) s = raise e
  respond_with none s = emit (sent s)

  unfoldable pub respond : Sent → Op E M max_readers (Unit {0})
  respond s = respond_with (io.send s) s

  unfoldable pub close : MdsftpResult (Unit {0}) → Op E M max_readers (Unit {0})
  close result = emit (handler_closed result)

  -- A guard that a handler replaces is dropped.
  abbrev pub drop_guard : Option ℕ → FileLockTable M max_readers → FileLockTable M max_readers
  drop_guard none t = t
  drop_guard (some id) t = end_drop M max_readers id (begin_drop M max_readers id t)

  -- `try_read` and `try_write`, under the next name for a guard.
  unfoldable pub attempt : LockKind → ℕ → Op E M max_readers (Result FileLockError ℕ)
  attempt kind key w =
      let (t, r) = try_lock M max_readers w.next_guard key kind w.locks in
      (record w { locks = t; next_guard = suc w.next_guard }, ok r)

  unfoldable pub set_guard : LockKind → ℕ → Op E M max_readers (Unit {0})
  set_guard read id w = (
    record w {
      locks = drop_guard w.handler.read_guard w.locks;
      handler = record w.handler { read_guard = some id };
    },
    ok tt,
  )
  set_guard write id w = (
    record w {
      locks = drop_guard w.handler.write_guard w.locks;
      handler = record w.handler { write_guard = some id };
    },
    ok tt,
  )

  unfoldable pub locked_or :
      MdsftpError → LockKind → Result FileLockError ℕ → Op E M max_readers (Unit {0})
  unfolding set_guard
  locked_or e kind (ok id) = set_guard kind id
  locked_or e kind (err _) = raise e

  -- A change of the files, or the error.
  unfoldable pub with_files : MdsftpError → Option E.Files → Op E M max_readers (Unit {0})
  with_files e none w = (w, err e)
  with_files e (some files) w = (record w { ledger = record w.ledger { files = files } }, ok tt)

  unfoldable pub on_files : MdsftpError → (E.Files → Option E.Files) → Op E M max_readers (Unit {0})
  on_files e f w = with_files e (f w.ledger.files) w

  -- `fragment_append_stream` and `fragment_write_stream`.
  unfoldable pub open_stream : (append : Bool) (chunk_id : ℕ) → Op E M max_readers (Unit {0})
  open_stream true chunk_id = on_files remote_error (io.open_append (get_path chunk_id true))
  open_stream false chunk_id = on_files remote_error (io.open_write (get_path chunk_id true))

  unfoldable pub start_receiving : (id : ℕ) (append : Bool) → Op E M max_readers (Unit {0})
  unfolding attempt locked_or open_stream
  start_receiving id append = do
    guard ← attempt write id
    locked_or reservation_error write guard
    open_stream append id
    modify (λ h. record h { receive_file_stream = some (fragment id) })

  unfoldable pub start_uploading :
      (size chunk_buffer : ℕ) (range : Option ChunkRange) → Op E M max_readers (Unit {0})
  start_uploading size chunk_buffer range = do
    source ← gets (λ w. source_of w.handler)
    modify (λ h. record h { recv_ack_sender = true; upload_cancel = true })
    emit (upload_started source size chunk_buffer range)

  -- The stream of a target: writing, and its shutdown or flush.
  unfoldable pub write_all : Target → List ℕ → Op E M max_readers (Unit {0})
  write_all (fragment id) bytes w = on_files ssl_error (io.write_all (get_path id true) bytes) w
  write_all output bytes w = (
    record w { received = w.received ++ take (io.output_takes bytes) bytes },
    if leb (length bytes) (io.output_takes bytes) then ok tt else err ssl_error,
  )

  unfoldable pub end_stream : (auto_close : Bool) → Target → Op E M max_readers (Unit {0})
  end_stream true (fragment id) = on_files ssl_error (io.shutdown (get_path id true))
  end_stream false (fragment id) = on_files ssl_error (io.flush (get_path id true))
  end_stream _ output = if io.output_ends then pure tt else raise ssl_error
