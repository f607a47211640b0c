-- ===== src/Handler/Resumed.antt =====
-- A put that resumes a reservation, and the chunks that follow it.
use meowith.Base.{
  ℕ, ◌≡◌, refl, subst, sym, ap, Bool, true, false, Option, none, some, List, arith, length, ◌==◌,
}
use meowith.Base.Dict.{lookup, insert, lookup-insert}
use meowith.Base.Result.{ok, err}
use meowith.Ledger.State.{Env, Ledger, MeowithIoResult, Reservation, fetch_add}
use meowith.Ledger.Ops.{resume_reservation, refresh_reservation}
use meowith.Locking.Table.{Semaphore}
use meowith.Transfer.Upload.{MdsftpResult}
use meowith.Wire.Message.{PutFlags, respond_receive_ack, respond_put_ok}
use meowith.Handler.State.{
  Target, ReservationDetails, Io, World, Op, raise, ◌>>=◌, ◌>>◌, go_on, gets, modify, emit,
  on_ledger,
}
use meowith.Handler.Streams.{respond, close, start_receiving, write_all}
use meowith.Handler.Transfers.{
  close_failed, or_close, after_write, receive_chunk, accept_put, put_resumed, handle_put,
  remaining,
}
use meowith.Handler.Keeps.{bind-Keeps, then-Keeps, gets-Keeps}
use meowith.Handler.Holding.{
  Holds, Leaves, respond-Leaves, start_receiving-Leaves, write_all-Leaves,
}

abbrev pub details_of : ℕ → Reservation → ReservationDetails
details_of id r = record { id = id; size = r.file_space; durable = r.durable }

-- A reservation that a put has resumed.
abbrev pub resumed : ℕ → Reservation → Reservation
resumed now r = record r { last_update = now }

refresh_reservation_found :
    {E : Env} (id now : ℕ) (r : Reservation) (l : Ledger E)
    → lookup id l.reservation_map ≡ some r
    → refresh_reservation id now l ≡ (
      record l { reservation_map = insert id (resumed now r) l.reservation_map },
      ok (resumed now r),
    )
unfolding refresh_reservation
refresh_reservation_found id now r l e = rw (e, refresh_reservation) refl

module _ {E : Env} {M : Semaphore} {max_readers : ℕ} (io : Io E) (now : ℕ) where
  rest-Leaves :
      (d : ReservationDetails) (r : Reservation) (n id : ℕ) (append : Bool)
      → Leaves {M = M} {max_readers = max_readers} io d r n (
          start_receiving io id append
          >> (gets (λ w. w.handler.chunk_buffer) >>= λ b. respond io (respond_put_ok b)))
  rest-Leaves d r n id append =
      then-Keeps (start_receiving-Leaves io d r n id append)
        (bind-Keeps (gets-Keeps _) (λ b. respond-Leaves io d r n (respond_put_ok b)))

  accept_put-Holds :
      (flags : PutFlags) (id : ℕ) (r r' : Reservation) (n : ℕ) (w : World E M max_readers)
      → w.handler.data_transferred ≡ n
      → lookup id w.ledger.reservation_map ≡ some r'
      → Holds (details_of id r) r' n (accept_put io now flags id r w).0
  unfolding accept_put ◌>>◌ ◌>>=◌ go_on modify
  accept_put-Holds flags id r r' n w t l =
      (rest-Leaves (details_of id r) r' n id flags.append).keeps _
        (record { details = refl; transferred = t; reserved = l })

  put_resumed-Holds :
      (flags : PutFlags) (id size : ℕ) (r : Reservation) (n : ℕ) (w : World E M max_readers)
      → size ≡ remaining r
      → w.handler.data_transferred ≡ n
      → lookup id w.ledger.reservation_map ≡ some r
      → Holds (details_of id r) r n (put_resumed io now flags id size (ok r) w).0
  unfolding put_resumed
  put_resumed-Holds flags id size r n w e t l =
      let same : (size == remaining r) ≡ true = ground arith in
      rw same (accept_put-Holds flags id r r n w t l)

  pub handle_put-Holds :
      (flags : PutFlags) (id size : ℕ) (r : Reservation) (n : ℕ) (w : World E M max_readers)
      → size ≡ remaining r
      → w.handler.data_transferred ≡ n
      → lookup id w.ledger.reservation_map ≡ some r
      → Holds (details_of id r) (resumed now r) n (handle_put io now flags id size w).0
  unfolding handle_put ◌>>=◌ go_on on_ledger resume_reservation
  handle_put-Holds flags id size r n w e t l =
      subst
        (λ (x : Ledger E × MeowithIoResult Reservation).
          Holds (details_of id r) (resumed now r) n
            (put_resumed io now flags id size x.1 (record w { ledger = x.0 })).0)
        (sym (refresh_reservation_found id now r w.ledger l))
        (put_resumed-Holds flags id size (resumed now r) n _ e t
          (ground (arith, lookup-insert id id (resumed now r) w.ledger.reservation_map)))

  -- A chunk that is not the last one, and is received.
  written-Holds :
      (d : ReservationDetails) (r : Reservation) (n id : ℕ) (chunk : List ℕ)
      (x : World E M max_readers × MdsftpResult (Unit {0}))
      → Holds d r n x.0
      → let k : Op E M max_readers (Unit {0}) =
          modify (λ h. record h { data_transferred = fetch_add h.data_transferred (length chunk) })
          >> respond io (respond_receive_ack id) in
        (go_on (λ _. k) (close_failed io now x)).1 ≡ ok tt
        → Holds d r (fetch_add n (length chunk)) (go_on (λ _. k) (close_failed io now x)).0
  unfolding close_failed ◌>>◌ ◌>>=◌ go_on modify close emit raise
  written-Holds d r n id chunk (w, ok _) h e =
      (respond-Leaves io d r (fetch_add n (length chunk)) (respond_receive_ack id)).keeps _
        (record {
          details = h.details;
          transferred = ap (λ m. fetch_add m (length chunk)) h.transferred;
          reserved = h.reserved;
        })
  written-Holds d r n id chunk (w, err _) h e = absurd (ground arith)

  pub receive_chunk-Holds :
      (d : ReservationDetails) (r : Reservation) (n id : ℕ) (chunk : List ℕ) (t : Option Target)
      (w : World E M max_readers)
      → Holds d r n w
      → (receive_chunk io now t chunk id false w).1 ≡ ok tt
      → Holds d r (fetch_add n (length chunk)) (receive_chunk io now t chunk id false w).0
  unfolding receive_chunk after_write or_close ◌>>◌ ◌>>=◌ raise
  receive_chunk-Holds d r n id chunk none w h e = absurd (ground arith)
  receive_chunk-Holds d r n id chunk (some t) w h e =
      written-Holds d r n id chunk (write_all io t chunk w)
        ((write_all-Leaves io d r n t chunk).keeps w h) e
