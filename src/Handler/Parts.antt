-- ===== src/Handler/Parts.antt =====
-- The steps that the operations of a handler are made of keep the counters of the ledger.
use meowith.Base.{ℕ, Bool, true, false, Option, none, some, List}
use meowith.Base.Result.{Result, ok, err}
use meowith.Ledger.State.{Env, get_path}
use meowith.Locking.Table.{Semaphore, LockKind, FileLockError, read, write}
use meowith.Transfer.Upload.{MdsftpResult, MdsftpError, ChunkRange, ssl_error}
use meowith.Wire.Message.{Sent}
use meowith.Handler.State.{
  MeowithMdsftpChannelPacketHandler, Target, fragment, output, Io, Op, Effect, raise, modify, emit,
}
use meowith.Handler.Streams.{
  respond_with, respond, with_files, close, attempt, set_guard, locked_or, on_files, open_stream,
  start_receiving, start_uploading, write_all, end_stream,
}
use meowith.Handler.Keeps.{
  Balances, pure-Keeps, raise-Keeps, gets-Keeps, bind-Keeps, then-Keeps, or_error-Keeps,
  on_ledger-Keeps, if-Keeps, same-Keeps,
}

module _ {E : Env} {M : Semaphore} {max_readers : ℕ} (io : Io E) where
  abbrev pub Kept : {A : Type 0} → Op E M max_readers A → Type 0
  Kept op = Balances op

  pub respond_with-Keeps : (o : Option MdsftpError) (s : Sent) → Kept (respond_with io o s)
  unfolding respond_with raise emit
  respond_with-Keeps (some e) s = same-Keeps λ w h. h
  respond_with-Keeps none s = same-Keeps λ w h. h

  pub respond-Keeps : (s : Sent) → Kept (respond io s)
  unfolding respond
  respond-Keeps s = respond_with-Keeps (io.send s) s

  pub with_files-Keeps : (e : MdsftpError) (o : Option E.Files) → Kept (with_files io e o)
  unfolding with_files
  with_files-Keeps e none = same-Keeps λ w h. h
  with_files-Keeps e (some files) = same-Keeps λ w h. h

  pub on_files-Keeps : (e : MdsftpError) (f : E.Files → Option E.Files) → Kept (on_files io e f)
  unfolding on_files
  on_files-Keeps e f = same-Keeps λ w h. (with_files-Keeps e (f w.ledger.files)).keeps w h

  pub attempt-Keeps : (kind : LockKind) (key : ℕ) → Kept (attempt io kind key)
  unfolding attempt
  attempt-Keeps kind key = same-Keeps λ w h. h

  pub set_guard-Keeps : (kind : LockKind) (id : ℕ) → Kept (set_guard io kind id)
  unfolding set_guard
  set_guard-Keeps read id = same-Keeps λ w h. h
  set_guard-Keeps write id = same-Keeps λ w h. h

  pub locked_or-Keeps :
      (e : MdsftpError) (kind : LockKind) (r : Result FileLockError ℕ)
      → Kept (locked_or io e kind r)
  unfolding locked_or raise
  locked_or-Keeps e kind (ok id) = set_guard-Keeps kind id
  locked_or-Keeps e kind (err _) = same-Keeps λ w h. h

  pub modify-Keeps :
      (f : MeowithMdsftpChannelPacketHandler → MeowithMdsftpChannelPacketHandler) → Kept (modify f)
  unfolding modify
  modify-Keeps f = same-Keeps λ w h. h

  pub emit-Keeps : (e : Effect) → Kept (emit e)
  unfolding emit
  emit-Keeps e = same-Keeps λ w h. h

  pub open_stream-Keeps : (append : Bool) (id : ℕ) → Kept (open_stream io append id)
  unfolding open_stream
  open_stream-Keeps true id = on_files-Keeps _ _
  open_stream-Keeps false id = on_files-Keeps _ _

  pub start_receiving-Keeps : (id : ℕ) (append : Bool) → Kept (start_receiving io id append)
  unfolding start_receiving
  start_receiving-Keeps id append = bind-Keeps (attempt-Keeps write id) (λ guard.
      then-Keeps (locked_or-Keeps _ write guard)
        (then-Keeps (open_stream-Keeps append id) (modify-Keeps _)))

  pub close-Keeps : (result : MdsftpResult (Unit {0})) → Kept (close io result)
  unfolding close emit
  close-Keeps result = same-Keeps λ w h. h

  pub end_stream-Keeps :
      (auto_close : Bool) (target : Target) → Kept (end_stream io auto_close target)
  unfolding end_stream
  end_stream-Keeps true (fragment id) = on_files-Keeps _ _
  end_stream-Keeps false (fragment id) = on_files-Keeps _ _
  end_stream-Keeps true output = if-Keeps io.output_ends (pure-Keeps tt) (raise-Keeps _)
  end_stream-Keeps false output = if-Keeps io.output_ends (pure-Keeps tt) (raise-Keeps _)

  pub write_all-Keeps : (target : Target) (bytes : List ℕ) → Kept (write_all io target bytes)
  unfolding write_all
  write_all-Keeps (fragment id) bytes =
      same-Keeps λ w h. (on_files-Keeps ssl_error (io.write_all (get_path id true) bytes)).keeps w h
  write_all-Keeps output bytes = same-Keeps λ w h. h

  pub start_uploading-Keeps :
      (size chunk_buffer : ℕ) (range : Option ChunkRange)
      → Kept (start_uploading io size chunk_buffer range)
  unfolding start_uploading
  start_uploading-Keeps size chunk_buffer range =
      search (bind-Keeps, then-Keeps, gets-Keeps, modify-Keeps, emit-Keeps)

pub ruleset keeping = (
  bind-Keeps, then-Keeps, if-Keeps, or_error-Keeps, respond-Keeps, close-Keeps, pure-Keeps,
  raise-Keeps, gets-Keeps, modify-Keeps, emit-Keeps, attempt-Keeps, locked_or-Keeps,
  set_guard-Keeps, start_receiving-Keeps, start_uploading-Keeps, end_stream-Keeps, write_all-Keeps,
)
