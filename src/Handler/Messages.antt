-- ===== src/Handler/Messages.antt =====
-- The handler that a message goes to: the second half of `handle_packet` of
-- protocol/src/mdsftp/channel.rs.
use meowith.Base.{ℕ, List, [], ◌∷◌}
use meowith.Ledger.State.{Env}
use meowith.Locking.Table.{Semaphore}
use meowith.Wire.Message.{
  Message, file_chunk, retrieve, put, reserve, lock_req, recv_ack, reserve_cancel, query,
}
use meowith.Handler.State.{Io, World, Op, pure}
use meowith.Handler.Transfers.{handle_file_chunk, handle_retrieve, handle_put}
use meowith.Handler.Requests.{
  handle_reserve, handle_lock_req, handle_receive_ack, handle_reserve_cancel, handle_delete_chunk,
  handle_commit, handle_query, handle_interrupt,
}

-- What happens to a channel: a message comes, and `id` is the next new uuid, or it is interrupted.
pub data Happening : Type 0 where
  arrives : (id now : ℕ) → Message → Happening
  is_interrupted : (now : ℕ) → Happening

module _ {E : Env} {M : Semaphore} {max_readers : ℕ} (io : Io E) where
  unfoldable pub handle_message : (id now : ℕ) → Message → Op E M max_readers (Unit {0})
  unfolding handle_file_chunk handle_retrieve handle_put handle_reserve handle_lock_req
      handle_receive_ack handle_reserve_cancel handle_delete_chunk handle_commit handle_query
  handle_message id now (file_chunk is_last chunk_id content) =
      handle_file_chunk io now content chunk_id is_last
  handle_message id now (retrieve chunk_id chunk_buffer range) =
      handle_retrieve io now chunk_id chunk_buffer range
  handle_message id now (put flags chunk_id size) = handle_put io now flags chunk_id size
  handle_message id now (reserve size bucket_id file_id flags) =
      handle_reserve io now id size bucket_id file_id flags
  handle_message id now (lock_req kind chunk_id) = handle_lock_req io now chunk_id kind
  handle_message id now (recv_ack chunk_id) = handle_receive_ack io now chunk_id
  handle_message id now (reserve_cancel chunk_id) = handle_reserve_cancel io now chunk_id
  handle_message id now (Message.delete_chunk chunk_id) = handle_delete_chunk io now chunk_id
  handle_message id now (Message.commit flags chunk_id) = handle_commit io now chunk_id flags
  handle_message id now (query chunk_id) = handle_query io now chunk_id
  handle_message id now _ = pure tt

  unfoldable pub happen : Happening → World E M max_readers → World E M max_readers
  unfolding handle_message handle_interrupt
  happen (arrives id now m) w = (handle_message id now m w).0
  happen (is_interrupted now) w = (handle_interrupt io now w).0

  unfoldable pub happen_all : List Happening → World E M max_readers → World E M max_readers
  unfolding happen
  happen_all [] w = w
  happen_all (h ∷ hs) w = happen_all hs (happen h w)
