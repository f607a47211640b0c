-- ===== src/Handler/Holding.antt =====
-- Steps of a handler that leave alone what an interrupt goes by.
use meowith.Base.{ℕ, ◌≡◌, Bool, true, false, Option, none, some, List}
use meowith.Base.Dict.{lookup}
use meowith.Base.Result.{Result, ok, err}
use meowith.Ledger.State.{Env, Reservation, get_path}
use meowith.Locking.Table.{Semaphore, LockKind, FileLockError, read, write}
use meowith.Transfer.Upload.{MdsftpError, ssl_error}
use meowith.Wire.Message.{Sent}
use meowith.Handler.State.{
  Target, fragment, output, ReservationDetails, Io, World, Op, raise, modify, emit,
}
use meowith.Handler.Streams.{
  respond_with, respond, attempt, set_guard, locked_or, with_files, on_files, open_stream,
  start_receiving, write_all, end_stream,
}
use meowith.Handler.Keeps.{
  Keeps, bind-Keeps, then-Keeps, if-Keeps, pure-Keeps, same-Keeps, raise-Keeps,
}

module _ {E : Env} {M : Semaphore} {max_readers : ℕ} where
  -- What an interrupt goes by: the reservation that the handler has, the bytes that the channel
  -- received, and what the ledger has of it.
  pub record Holds (d : ReservationDetails) (r : Reservation) (n : ℕ) (w : World E M max_readers)
      : Type 0 where
    pub details : w.handler.reservation_details ≡ some d
    pub transferred : w.handler.data_transferred ≡ n
    pub reserved : lookup d.id w.ledger.reservation_map ≡ some r

module _ {E : Env} {M : Semaphore} {max_readers : ℕ} (io : Io E) (d : ReservationDetails)
    (r : Reservation) (n : ℕ) where
  abbrev pub Leaves : {A : Type 0} → Op E M max_readers A → Type 0
  Leaves op = Keeps (Holds d r n) op

  pub with_files-Leaves : (e : MdsftpError) (o : Option E.Files) → Leaves (with_files io e o)
  unfolding with_files
  with_files-Leaves e none = same-Keeps λ w h. h
  with_files-Leaves e (some files) =
      same-Keeps
        λ w h. record { details = h.details; transferred = h.transferred; reserved = h.reserved }

  pub on_files-Leaves : (e : MdsftpError) (f : E.Files → Option E.Files) → Leaves (on_files io e f)
  unfolding on_files
  on_files-Leaves e f = same-Keeps λ w h. (with_files-Leaves e (f w.ledger.files)).keeps w h

  pub respond_with-Leaves : (o : Option MdsftpError) (s : Sent) → Leaves (respond_with io o s)
  unfolding respond_with raise emit
  respond_with-Leaves none s =
      same-Keeps
        λ w h. record { details = h.details; transferred = h.transferred; reserved = h.reserved }
  respond_with-Leaves (some e) s = same-Keeps λ w h. h

  pub respond-Leaves : (s : Sent) → Leaves (respond io s)
  unfolding respond
  respond-Leaves s = respond_with-Leaves (io.send s) s

  pub attempt-Leaves : (kind : LockKind) (key : ℕ) → Leaves (attempt io kind key)
  unfolding attempt
  attempt-Leaves kind key =
      same-Keeps
        λ w h. record { details = h.details; transferred = h.transferred; reserved = h.reserved }

  pub set_guard-Leaves : (kind : LockKind) (id : ℕ) → Leaves (set_guard io kind id)
  unfolding set_guard
  set_guard-Leaves read id =
      same-Keeps
        λ w h. record { details = h.details; transferred = h.transferred; reserved = h.reserved }
  set_guard-Leaves write id =
      same-Keeps
        λ w h. record { details = h.details; transferred = h.transferred; reserved = h.reserved }

  pub locked_or-Leaves :
      (e : MdsftpError) (kind : LockKind) (g : Result FileLockError ℕ)
      → Leaves (locked_or io e kind g)
  unfolding locked_or
  locked_or-Leaves e kind (ok id) = set_guard-Leaves kind id
  locked_or-Leaves e kind (err _) = raise-Keeps e

  pub open_stream-Leaves : (append : Bool) (id : ℕ) → Leaves (open_stream io append id)
  unfolding open_stream
  open_stream-Leaves true id = on_files-Leaves _ _
  open_stream-Leaves false id = on_files-Leaves _ _

  pub stream-Leaves :
      (t : Option Target) → Leaves (modify (λ h. record h { receive_file_stream = t }))
  unfolding modify
  stream-Leaves t =
      same-Keeps
        λ w h. record { details = h.details; transferred = h.transferred; reserved = h.reserved }

  pub start_receiving-Leaves : (id : ℕ) (append : Bool) → Leaves (start_receiving io id append)
  unfolding start_receiving
  start_receiving-Leaves id append = bind-Keeps (attempt-Leaves write id) (λ guard.
      then-Keeps (locked_or-Leaves _ write guard)
        (then-Keeps (open_stream-Leaves append id) (stream-Leaves _)))

  pub write_all-Leaves : (t : Target) (bytes : List ℕ) → Leaves (write_all io t bytes)
  unfolding write_all
  write_all-Leaves (fragment id) bytes =
      same-Keeps
        λ w h. (on_files-Leaves ssl_error (io.write_all (get_path id true) bytes)).keeps w h
  write_all-Leaves output bytes =
      same-Keeps
        λ w h. record { details = h.details; transferred = h.transferred; reserved = h.reserved }

  pub end_stream-Leaves : (auto_close : Bool) (t : Target) → Leaves (end_stream io auto_close t)
  unfolding end_stream
  end_stream-Leaves true (fragment id) = on_files-Leaves _ _
  end_stream-Leaves false (fragment id) = on_files-Leaves _ _
  end_stream-Leaves true output = if-Keeps io.output_ends (pure-Keeps tt) (raise-Keeps _)
  end_stream-Leaves false output = if-Keeps io.output_ends (pure-Keeps tt) (raise-Keeps _)
