-- ===== src/Handler/Balance.antt =====
-- File chunks, and retrieve and put messages, keep the counters of the ledger.
use meowith.Base.{ℕ, Bool, true, false, Option, none, some, List}
use meowith.Base.Result.{ok, err}
use meowith.Ledger.State.{Env, MeowithIoError, MeowithIoResult, Reservation, FragmentMeta}
use meowith.Ledger.Ops.{resume_reservation, release_reservation}
use meowith.Ledger.Balance.{Accounted}
use meowith.Ledger.Accounting.{refresh_reservation-Accounted, release_reservation-Accounted}
use meowith.Locking.Table.{Semaphore}
use meowith.Transfer.Upload.{MdsftpResult, ChunkRange}
use meowith.Wire.Message.{ChunkErrorKind, PutFlags}
use meowith.Handler.State.{
  Target, ReservationDetails, Io, World, Op, on_ledger, ◌>>=◌, ◌>>◌, go_on, emit, raise,
}
use meowith.Handler.Streams.{close}
use meowith.Handler.Transfers.{
  close_failed, or_close, release_details, after_write, receive_chunk, handle_file_chunk,
  retrieve_fragment, handle_retrieve, refuse_put, accept_put, put_resumed, handle_put,
}
use meowith.Handler.Keeps.{Balances, on_ledger-Keeps, same-Keeps}
use meowith.Handler.Parts.{keeping}

module _ {E : Env} {M : Semaphore} {max_readers : ℕ} (io : Io E) (now : ℕ) where
  abbrev pub Fine : {A : Type 0} → Op E M max_readers A → Type 0
  Fine op = Balances op

  close_failed-Accounted :
      (r : World E M max_readers × MdsftpResult (Unit {0}))
      → Accounted r.0.ledger
      → Accounted (close_failed io now r).0.ledger
  unfolding close_failed ◌>>◌ ◌>>=◌ go_on close emit raise
  close_failed-Accounted (w, ok _) h = h
  close_failed-Accounted (w, err e) h = h

  or_close-Keeps : {op : Op E M max_readers (Unit {0})} → Balances op → Fine (or_close io now op)
  unfolding or_close
  or_close-Keeps {op = op} k = same-Keeps λ w h. close_failed-Accounted (op w) (k.keeps w h)

  released-Keeps : (id size : ℕ) → Fine (on_ledger (release_reservation id size now))
  released-Keeps id size = on_ledger-Keeps _ λ l h. release_reservation-Accounted l h id size now

  release_details-Keeps : (d : Option ReservationDetails) → Fine (release_details io now d)
  unfolding release_details
  release_details-Keeps none = search keeping
  release_details-Keeps (some d) = search (keeping, released-Keeps)

  after_write-Keeps :
      (t : Target) (id : ℕ) (is_last : Bool) → Fine (after_write io now t id is_last)
  unfolding after_write
  after_write-Keeps t id false = search keeping
  after_write-Keeps t id true = search (keeping, or_close-Keeps, release_details-Keeps) depth 20

  receive_chunk-Keeps :
      (t : Option Target) (chunk : List ℕ) (id : ℕ) (is_last : Bool)
      → Fine (receive_chunk io now t chunk id is_last)
  unfolding receive_chunk
  receive_chunk-Keeps none chunk id is_last = search keeping
  receive_chunk-Keeps (some t) chunk id is_last =
      search (keeping, or_close-Keeps, after_write-Keeps) depth 20

  pub handle_file_chunk-Keeps :
      (chunk : List ℕ) (id : ℕ) (is_last : Bool) → Fine (handle_file_chunk io now chunk id is_last)
  unfolding handle_file_chunk
  handle_file_chunk-Keeps chunk id is_last = search (keeping, receive_chunk-Keeps)

  retrieve_fragment-Keeps :
      (meta : Option FragmentMeta) (id chunk_buffer : ℕ) (range : Option ChunkRange)
      → Fine (retrieve_fragment io now meta id chunk_buffer range)
  unfolding retrieve_fragment
  retrieve_fragment-Keeps none id chunk_buffer range = search keeping
  retrieve_fragment-Keeps (some meta) id chunk_buffer range = search (keeping) depth 20

  pub handle_retrieve-Keeps :
      (id chunk_buffer : ℕ) (range : Option ChunkRange)
      → Fine (handle_retrieve io now id chunk_buffer range)
  unfolding handle_retrieve
  handle_retrieve-Keeps id chunk_buffer range = search (keeping, retrieve_fragment-Keeps)

  refuse_put-Keeps : (kind : ChunkErrorKind) → Fine (refuse_put io now kind)
  unfolding refuse_put
  refuse_put-Keeps kind = search keeping

  accept_put-Keeps :
      (flags : PutFlags) (chunk_id : ℕ) (r : Reservation)
      → Fine (accept_put io now flags chunk_id r)
  unfolding accept_put
  accept_put-Keeps flags chunk_id r = search (keeping) depth 20

  put_resumed-Keeps :
      (flags : PutFlags) (chunk_id content_size : ℕ) (r : MeowithIoResult Reservation)
      → Fine (put_resumed io now flags chunk_id content_size r)
  unfolding put_resumed
  put_resumed-Keeps flags chunk_id content_size (ok r) =
      search (keeping, accept_put-Keeps, refuse_put-Keeps)
  put_resumed-Keeps flags chunk_id content_size (err MeowithIoError.not_found) = refuse_put-Keeps _
  put_resumed-Keeps flags chunk_id content_size (err _) = refuse_put-Keeps _

  resumed-Keeps : (id : ℕ) → Fine (on_ledger (resume_reservation id now))
  unfolding resume_reservation
  resumed-Keeps id = on_ledger-Keeps _ λ l h. refresh_reservation-Accounted l h id now

  pub handle_put-Keeps :
      (flags : PutFlags) (chunk_id content_size : ℕ)
      → Fine (handle_put io now flags chunk_id content_size)
  unfolding handle_put
  handle_put-Keeps flags chunk_id content_size = search (keeping, resumed-Keeps, put_resumed-Keeps)
