-- ===== src/Handler/Invariant.antt =====
-- The ledger of a node stays balanced, whatever the other nodes send.
use meowith.Base.{ℕ, ◌≡◌, none, List, [], ◌∷◌}
use meowith.Base.Dict.{lookup}
use meowith.Ledger.State.{Env}
use meowith.Ledger.Balance.{Accounted}
use meowith.Locking.Table.{Semaphore}
use meowith.Wire.Message.{
  Message, file_chunk, retrieve, put, reserve, lock_req, recv_ack, reserve_cancel, query,
}
use meowith.Handler.State.{Io, World, pure}
use meowith.Handler.Messages.{
  Happening, arrives, is_interrupted, handle_message, happen, happen_all,
}
use meowith.Handler.Balance.{handle_file_chunk-Keeps, handle_retrieve-Keeps, handle_put-Keeps}
use meowith.Handler.Happenings.{
  handle_reserve-Accounted, handle_lock_req-Keeps, handle_receive_ack-Keeps,
  handle_reserve_cancel-Keeps, handle_delete_chunk-Keeps, handle_commit-Keeps, handle_query-Keeps,
  handle_interrupt-Keeps,
}

module _ {E : Env} {M : Semaphore} {max_readers : ℕ} (io : Io E) where
  -- The uuid that a reservation gets is in no map.
  abbrev pub FreshFor : Happening → World E M max_readers → Type 0
  FreshFor (arrives id now (reserve _ _ _ _)) w =
      (lookup id w.ledger.reservation_map ≡ none) × (lookup id w.ledger.chunk_set ≡ none)
  FreshFor _ w = Unit

  abbrev pub AllFresh : List Happening → World E M max_readers → Type 0
  AllFresh [] w = Unit
  AllFresh (h ∷ hs) w = FreshFor h w × AllFresh hs (happen io h w)

  happen-Accounted :
      (e : Happening) (w : World E M max_readers)
      → FreshFor e w
      → Accounted w.ledger
      → Accounted (happen io e w).ledger
  unfolding happen handle_message pure
  happen-Accounted (is_interrupted now) w f h = (handle_interrupt-Keeps io now).keeps w h
  happen-Accounted (arrives id now (file_chunk is_last chunk_id content)) w f h =
      (handle_file_chunk-Keeps io now content chunk_id is_last).keeps w h
  happen-Accounted (arrives id now (retrieve chunk_id chunk_buffer range)) w f h =
      (handle_retrieve-Keeps io now chunk_id chunk_buffer range).keeps w h
  happen-Accounted (arrives id now (put flags chunk_id size)) w f h =
      (handle_put-Keeps io now flags chunk_id size).keeps w h
  happen-Accounted (arrives id now (reserve size bucket_id file_id flags)) w f h =
      handle_reserve-Accounted io now id size bucket_id file_id flags w f.0 f.1 h
  happen-Accounted (arrives id now (lock_req kind chunk_id)) w f h =
      (handle_lock_req-Keeps io now chunk_id kind).keeps w h
  happen-Accounted (arrives id now (recv_ack chunk_id)) w f h =
      (handle_receive_ack-Keeps io now chunk_id).keeps w h
  happen-Accounted (arrives id now (reserve_cancel chunk_id)) w f h =
      (handle_reserve_cancel-Keeps io now chunk_id).keeps w h
  happen-Accounted (arrives id now (Message.delete_chunk chunk_id)) w f h =
      (handle_delete_chunk-Keeps io now chunk_id).keeps w h
  happen-Accounted (arrives id now (Message.commit flags chunk_id)) w f h =
      (handle_commit-Keeps io now chunk_id flags).keeps w h
  happen-Accounted (arrives id now (query chunk_id)) w f h =
      (handle_query-Keeps io now chunk_id).keeps w h
  happen-Accounted (arrives id now _) w f h = h

  -- Whatever messages come to a channel, in any state of its handler, and whenever it is
  -- interrupted, and whichever calls of the file system and the connection fail in between: the
  -- counters of a ledger that was balanced at the start are the sums over its maps, if the uuids
  -- of new reservations are fresh.
  happen_all-Accounted :
      (hs : List Happening) (w : World E M max_readers)
      → AllFresh hs w
      → Accounted w.ledger
      → Accounted (happen_all io hs w).ledger
  unfolding happen_all
  happen_all-Accounted [] w f h = h
  happen_all-Accounted (e ∷ hs) w f h =
      happen_all-Accounted hs (happen io e w) f.1 (happen-Accounted e w f.0 h)
