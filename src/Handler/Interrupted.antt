-- ===== src/Handler/Interrupted.antt =====
-- An upload to this node that is resumed and interrupted again.
use meowith.Base.{ℕ, ◌+◌, ◌≡◌, ◌≢◌, refl, true, false, some, List, [], ◌∷◌, arith, length}
use meowith.Base.Dict.{lookup}
use meowith.Base.Result.{ok, err}
use meowith.Ledger.State.{Env, Reservation, fetch_add}
use meowith.Ledger.Ops.{existing_or_reserved_fragment_meta}
use meowith.Locking.Table.{Semaphore}
use meowith.Transfer.Upload.{MdsftpResult}
use meowith.Wire.Message.{PutFlags}
use meowith.Handler.State.{ReservationDetails, Io, World, Op, pure, ◌>>=◌, ◌>>◌, go_on, gets}
use meowith.Handler.Transfers.{handle_file_chunk, handle_put, remaining}
use meowith.Handler.Requests.{handle_interrupt}
use meowith.Handler.Holding.{Holds}
use meowith.Handler.Resumed.{details_of, resumed, handle_put-Holds, receive_chunk-Holds}
use meowith.Handler.Interrupt.{handle_interrupt-Holds}

-- The bytes of the chunks after `n`, as a word counts them.
abbrev pub counted : ℕ → List (List ℕ) → ℕ
counted n [] = n
counted n (c ∷ cs) = counted (fetch_add n (length c)) cs

module _ {E : Env} {M : Semaphore} {max_readers : ℕ} (io : Io E) (now : ℕ) where
  -- The chunks of an upload but the last one, in order.
  unfoldable pub receive_chunks : (id : ℕ) → List (List ℕ) → Op E M max_readers (Unit {0})
  unfolding handle_file_chunk
  receive_chunks id [] = pure tt
  receive_chunks id (c ∷ cs) = handle_file_chunk io now c id false >> receive_chunks (id + 1) cs

  thens-Holds :
      (d : ReservationDetails) (r : Reservation) (n id : ℕ) (cs : List (List ℕ))
      (x : World E M max_readers × MdsftpResult (Unit {0}))
      → ((w : World E M max_readers)
          → Holds d r n w
          → (receive_chunks id cs w).1 ≡ ok tt
          → Holds d r (counted n cs) (receive_chunks id cs w).0)
      → (x.1 ≡ ok tt → Holds d r n x.0)
      → (go_on (λ _. receive_chunks id cs) x).1 ≡ ok tt
      → Holds d r (counted n cs) (go_on (λ _. receive_chunks id cs) x).0
  unfolding go_on
  thens-Holds d r n id cs (w, ok _) k h e = k w (h refl) e
  thens-Holds d r n id cs (w, err _) k h e = absurd (ground arith)

  receive_chunks-Holds :
      (d : ReservationDetails) (r : Reservation) (n id : ℕ) (cs : List (List ℕ))
      (w : World E M max_readers)
      → Holds d r n w
      → (receive_chunks id cs w).1 ≡ ok tt
      → Holds d r (counted n cs) (receive_chunks id cs w).0
  unfolding receive_chunks handle_file_chunk ◌>>◌ ◌>>=◌ go_on gets pure
  receive_chunks-Holds d r n id [] w h e = h
  receive_chunks-Holds d r n id (c ∷ cs) w h e =
      thens-Holds d r (fetch_add n (length c)) (id + 1) cs (handle_file_chunk io now c id false w)
        (λ v. receive_chunks-Holds d r (fetch_add n (length c)) (id + 1) cs v)
        (λ f. receive_chunk-Holds io now d r n id c w.handler.receive_file_stream w h f) e

  -- An upload is resumed on a channel that nothing was received on before, by a put of the size
  -- that is left of a durable reservation; chunks but the last one are received; and the channel
  -- is interrupted. The node then answers that the chunk has as many bytes as this channel
  -- received, however many the reservation had before, unless these are as many as it has space
  -- for.
  pub interrupt_forgets :
      (flags : PutFlags) (id size : ℕ) (cs : List (List ℕ)) (r : Reservation)
      (w : World E M max_readers)
      → lookup id w.ledger.reservation_map ≡ some r
      → r.durable ≡ true
      → size ≡ remaining r
      → w.handler.data_transferred ≡ 0
      → let resumed_world = (handle_put io now flags id size w).0 in
        (receive_chunks 0 cs resumed_world).1 ≡ ok tt
        → counted 0 cs ≢ r.file_space
        → existing_or_reserved_fragment_meta id
            (handle_interrupt io now
              (receive_chunks 0 cs (handle_put io now flags id size w).0).0).0.ledger
          ≡ some (record { disk_content_size = counted 0 cs; disk_physical_size = 0 })
  interrupt_forgets flags id size cs r w l durable e t received ne =
      let d = details_of id r in
      handle_interrupt-Holds io now d (resumed now r) (counted 0 cs) _
        (receive_chunks-Holds d (resumed now r) 0 0 cs _
          (handle_put-Holds io now flags id size r 0 w e t l) received)
        durable ne
