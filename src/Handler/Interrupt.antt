-- ===== src/Handler/Interrupt.antt =====
-- What an interrupt records of a durable upload.
use meowith.Base.{ℕ, ◌≡◌, ◌≢◌, refl, ap, ◌∙◌, Bool, true, false, Option, none, some, if◌then◌else◌}
use meowith.Base.Dict.{lookup}
use meowith.Base.Result.{ok, err}
use meowith.Ledger.State.{Env, Ledger, MeowithIoResult, Reservation, FragmentMeta}
use meowith.Ledger.Ops.{release_reservation, existing_or_reserved_fragment_meta}
use meowith.Ledger.Space.{release_reservation_short}
use meowith.Locking.Table.{Semaphore}
use meowith.Transfer.Upload.{MdsftpResult, MdsftpError}
use meowith.Handler.State.{
  Target, ReservationDetails, Io, World, Op, pure, upload_cancelled, ◌>>=◌, ◌>>◌, go_on, gets,
  modify, emit, on_ledger, or_error,
}
use meowith.Handler.Streams.{end_stream}
use meowith.Handler.Keeps.{then-Keeps, same-Keeps, pure-Keeps}
use meowith.Handler.Requests.{ignore_errors, stop_receiving, release_transferred, handle_interrupt}
use meowith.Handler.Holding.{Holds, Leaves, stream-Leaves, end_stream-Leaves}

release_short :
    {E : Env} (id n now : ℕ) (r : Reservation) (l : Ledger E)
    → lookup id l.reservation_map ≡ some r
    → r.durable ≡ true
    → n ≢ r.file_space
    → existing_or_reserved_fragment_meta id (release_reservation id n now l).0
      ≡ some (record { disk_content_size = n; disk_physical_size = 0 })
release_short id n now r l e durable ne =
    let kept = (release_reservation_short l id n now r e ne).1 in (rw durable at kept).0

module _ {E : Env} {M : Semaphore} {max_readers : ℕ} (io : Io E) (now : ℕ) where
  go_on_ok :
      {A B : Type 0} (f : A → Op E M max_readers B) (x : World E M max_readers × MdsftpResult A)
      (a : A)
      → x.1 ≡ ok a
      → go_on f x ≡ f a x.0
  unfolding go_on
  go_on_ok f (w, r) a e = ap (λ o. go_on f (w, o)) e

  stop_receiving_ok :
      (t : Option Target) (w : World E M max_readers) → (stop_receiving io now t w).1 ≡ ok tt
  unfolding stop_receiving ignore_errors ◌>>◌ ◌>>=◌ go_on modify pure
  stop_receiving_ok none w = refl
  stop_receiving_ok (some t) w = refl

  stopped-Leaves :
      (d : ReservationDetails) (r : Reservation) (n : ℕ) (t : Target)
      → Leaves {M = M} {max_readers = max_readers} io d r n
          (ignore_errors io now (end_stream io true t))
  unfolding ignore_errors
  stopped-Leaves d r n t = same-Keeps λ w h. (end_stream-Leaves io d r n true t).keeps w h

  stop_receiving-Leaves :
      (d : ReservationDetails) (r : Reservation) (n : ℕ) (t : Option Target)
      → Leaves {M = M} {max_readers = max_readers} io d r n (stop_receiving io now t)
  unfolding stop_receiving
  stop_receiving-Leaves d r n none = pure-Keeps tt
  stop_receiving-Leaves d r n (some t) =
      then-Keeps (stopped-Leaves d r n t) (stream-Leaves io d r n none)

  cancel_ok :
      (b : Bool) (w : World E M max_readers)
      → ((if b then emit upload_cancelled else pure tt) w).1 ≡ ok tt
  unfolding emit pure
  cancel_ok true w = refl
  cancel_ok false w = refl

  cancel-Leaves :
      (d : ReservationDetails) (r : Reservation) (n : ℕ) (b : Bool)
      → Leaves {M = M} {max_readers = max_readers} io d r n
          (if b then emit upload_cancelled else pure tt)
  unfolding emit pure
  cancel-Leaves d r n true =
      same-Keeps
        λ w h. record { details = h.details; transferred = h.transferred; reserved = h.reserved }
  cancel-Leaves d r n false = same-Keeps λ w h. h

  or_error_same :
      (e : MdsftpError) (x : MeowithIoResult (Unit {0})) (w : World E M max_readers)
      → (or_error e x w).0 ≡ w
  unfolding or_error
  or_error_same e (ok _) w = refl
  or_error_same e (err _) w = refl

  release_transferred_given :
      (d : ReservationDetails) (w : World E M max_readers)
      → (release_transferred io now (some d) w).0.ledger
        ≡ (release_reservation d.id w.handler.data_transferred now w.ledger).0
  unfolding release_transferred ◌>>=◌ go_on gets on_ledger
  release_transferred_given d w = ap (λ v. v.ledger) (or_error_same _ _ _)

  release_transferred-Holds :
      (d : ReservationDetails) (r : Reservation) (n : ℕ) (w : World E M max_readers)
      → Holds d r n w
      → r.durable ≡ true
      → n ≢ r.file_space
      → existing_or_reserved_fragment_meta d.id
          (release_transferred io now w.handler.reservation_details w).0.ledger
        ≡ some (record { disk_content_size = n; disk_physical_size = 0 })
  release_transferred-Holds d r n w h durable ne =
      ap (λ o. existing_or_reserved_fragment_meta d.id (release_transferred io now o w).0.ledger)
        h.details
      ∙ ap (existing_or_reserved_fragment_meta d.id) (release_transferred_given d w)
      ∙ ap
          (λ m. existing_or_reserved_fragment_meta d.id (release_reservation d.id m now w.ledger).0)
          h.transferred
      ∙ release_short d.id n now r w.ledger h.reserved durable ne

  then_ok :
      (m k : Op E M max_readers (Unit {0})) (w : World E M max_readers)
      → (m w).1 ≡ ok tt
      → (m >> k) w ≡ k (m w).0
  unfolding ◌>>◌ ◌>>=◌
  then_ok m k w e = go_on_ok (λ _. k) (m w) tt e

  -- What an interrupt does after the upload, and after the stream.
  abbrev after_stream : Op E M max_readers (Unit {0})
  after_stream =
      modify (λ h. record h { upload_file_stream = none })
      >> (gets (λ w. w.handler.reservation_details) >>= λ d. release_transferred io now d)

  abbrev after_upload : Op E M max_readers (Unit {0})
  after_upload =
      gets (λ w. w.handler.receive_file_stream) >>= λ t. stop_receiving io now t >> after_stream

  abbrev pub meta_after : ℕ → World E M max_readers × MdsftpResult (Unit {0}) → Option FragmentMeta
  meta_after id x = existing_or_reserved_fragment_meta id x.0.ledger

  after_stream-Holds :
      (d : ReservationDetails) (r : Reservation) (n : ℕ) (w : World E M max_readers)
      → Holds d r n w
      → r.durable ≡ true
      → n ≢ r.file_space
      → meta_after d.id (after_stream w)
        ≡ some (record { disk_content_size = n; disk_physical_size = 0 })
  unfolding ◌>>◌ ◌>>=◌ go_on gets modify
  after_stream-Holds d r n w h durable ne =
      release_transferred-Holds d r n _
        (record { details = h.details; transferred = h.transferred; reserved = h.reserved }) durable
        ne

  pub handle_interrupt-Holds :
      (d : ReservationDetails) (r : Reservation) (n : ℕ) (w : World E M max_readers)
      → Holds d r n w
      → r.durable ≡ true
      → n ≢ r.file_space
      → meta_after d.id (handle_interrupt io now w)
        ≡ some (record { disk_content_size = n; disk_physical_size = 0 })
  unfolding handle_interrupt ◌>>◌ ◌>>=◌ go_on gets
  handle_interrupt-Holds d r n w h durable ne =
      let cancel : Op E M max_readers (Unit {0}) =
        if w.handler.upload_cancel then emit upload_cancelled else pure tt in
      let w1 = (cancel w).0 in
      let t = w1.handler.receive_file_stream in
      ap (meta_after d.id) (then_ok cancel after_upload w (cancel_ok w.handler.upload_cancel w))
      ∙ ap (meta_after d.id)
          (then_ok (stop_receiving io now t) after_stream w1 (stop_receiving_ok t w1))
      ∙ after_stream-Holds d r n _
          ((stop_receiving-Leaves d r n t).keeps w1
            ((cancel-Leaves d r n w.handler.upload_cancel).keeps w h))
          durable ne
