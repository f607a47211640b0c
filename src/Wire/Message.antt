-- ===== src/Wire/Message.antt =====
-- The payload of each packet: what the sender methods of protocol/src/mdsftp/channel.rs write, and
-- what `handle_packet` reads. The reader has checked the length of a payload before.
use meowith.Base.{
  ℕ, ◌+◌, ◌%◌, ◌^◌, Bool, Option, none, some, List, [], ◌∷◌, ◌++◌, ◌==◌, drop, if◌then◌else◌,
}
use meowith.Base.Result.{ok, ◌>>=◌}
use meowith.Locking.Table.{LockKind}
use meowith.Transfer.Upload.{ChunkRange, MdsftpResult, new_range}
use meowith.Reservation.Reserve.{ReserveFlags}
use meowith.Wire.PacketType.{MdsftpPacketType}
use meowith.Wire.Flags.{
  CommitFlags, bit_of, has_bit, reserve_flags_to_u8, reserve_flags_from_u8, commit_flags_to_u8,
  commit_flags_from_u8,
}
use meowith.Wire.Bytes.{be_bytes, from_be, slice}

pub data ChunkErrorKind : Type 0 where
  not_available not_found : ChunkErrorKind

abbrev pub chunk_error_to_u8 : ChunkErrorKind → ℕ
chunk_error_to_u8 ChunkErrorKind.not_available = 0
chunk_error_to_u8 ChunkErrorKind.not_found = 2

-- The bit of value two.
abbrev pub chunk_error_from_u8 : ℕ → ChunkErrorKind
chunk_error_from_u8 value =
    if has_bit value 1 then ChunkErrorKind.not_found else ChunkErrorKind.not_available

abbrev pub lock_kind_to_u8 : LockKind → ℕ
lock_kind_to_u8 LockKind.read = 0
lock_kind_to_u8 LockKind.write = 1

abbrev pub lock_kind_from_u8 : ℕ → LockKind
lock_kind_from_u8 value = if has_bit value 0 then LockKind.write else LockKind.read

pub record PutFlags : Type 0 where
  pub append : Bool

abbrev pub put_flags_to_u8 : PutFlags → ℕ
put_flags_to_u8 f = bit_of f.append

abbrev pub put_flags_from_u8 : ℕ → PutFlags
put_flags_from_u8 value = record { append = has_bit value 0 }

-- A call of a sender method.
pub data Sent : Type 0 where
  request_lock : (kind : LockKind) (chunk_id : ℕ) → Sent
  try_reserve : (desired file_id bucket_id : ℕ) → ReserveFlags → Sent
  cancel_reserve : (chunk_id : ℕ) → Sent
  respond_lock_ok : (chunk_id : ℕ) (kind : LockKind) → Sent
  respond_lock_err : (chunk_id : ℕ) (kind : LockKind) (error_kind : ChunkErrorKind) → Sent
  respond_reserve_ok : (chunk_id chunk_buffer : ℕ) → Sent
  respond_reserve_err : (available_space : ℕ) → Sent
  respond_receive_ack : (chunk_id : ℕ) → Sent
  respond_put_ok : (chunk_buffer : ℕ) → Sent
  query_chunk : (chunk_id : ℕ) → Sent
  respond_query : (size : ℕ) (exists : Bool) → Sent
  respond_put_err : ChunkErrorKind → Sent
  retrieve_req : (chunk_id chunk_buffer : ℕ) (range : Option ChunkRange) → Sent
  delete_chunk : (chunk_id : ℕ) → Sent
  commit : CommitFlags → (chunk_id : ℕ) → Sent
  respond_commit_err : ChunkErrorKind → Sent
  respond_commit_ok : Sent
  request_put : PutFlags → (chunk_id size : ℕ) → Sent
  send_chunk : (is_last : Bool) (id : ℕ) (content : List ℕ) → Sent

-- What the receiver takes out of a packet.
pub data Message : Type 0 where
  lock_req : (kind : LockKind) (chunk_id : ℕ) → Message
  reserve : (size bucket_id file_id : ℕ) → ReserveFlags → Message
  reserve_cancel : (chunk_id : ℕ) → Message
  lock_acquire : (kind : LockKind) (chunk_id : ℕ) → Message
  lock_err : ChunkErrorKind → Message
  reserve_ok : (chunk_id chunk_buffer : ℕ) → Message
  reserve_err : (max_space : ℕ) → Message
  recv_ack : (chunk_id : ℕ) → Message
  put_ok : (chunk_buffer : ℕ) → Message
  query : (chunk_id : ℕ) → Message
  query_response : (size : Option ℕ) → Message
  put_err : ChunkErrorKind → Message
  retrieve : (chunk_id chunk_buffer : ℕ) (range : Option ChunkRange) → Message
  delete_chunk : (chunk_id : ℕ) → Message
  commit : CommitFlags → (chunk_id : ℕ) → Message
  commit_err : ChunkErrorKind → Message
  commit_ok : Message
  put : PutFlags → (chunk_id size : ℕ) → Message
  file_chunk : (is_last : Bool) (id : ℕ) (content : List ℕ) → Message
  -- A channel packet, which no channel is given.
  other : Message

unfoldable pub packet_type : Sent → MdsftpPacketType
packet_type (request_lock _ _) = MdsftpPacketType.lock_req
packet_type (try_reserve _ _ _ _) = MdsftpPacketType.reserve
packet_type (cancel_reserve _) = MdsftpPacketType.reserve_cancel
packet_type (respond_lock_ok _ _) = MdsftpPacketType.lock_acquire
packet_type (respond_lock_err _ _ _) = MdsftpPacketType.lock_err
packet_type (respond_reserve_ok _ _) = MdsftpPacketType.reserve_ok
packet_type (respond_reserve_err _) = MdsftpPacketType.reserve_err
packet_type (respond_receive_ack _) = MdsftpPacketType.recv_ack
packet_type (respond_put_ok _) = MdsftpPacketType.put_ok
packet_type (query_chunk _) = MdsftpPacketType.query
packet_type (respond_query _ _) = MdsftpPacketType.query_response
packet_type (respond_put_err _) = MdsftpPacketType.put_err
packet_type (retrieve_req _ _ _) = MdsftpPacketType.retrieve
packet_type (Sent.delete_chunk _) = MdsftpPacketType.delete_chunk
packet_type (Sent.commit _ _) = MdsftpPacketType.commit
packet_type (respond_commit_err _) = MdsftpPacketType.commit_err
packet_type respond_commit_ok = MdsftpPacketType.commit_ok
packet_type (request_put _ _ _) = MdsftpPacketType.put
packet_type (send_chunk _ _ _) = MdsftpPacketType.file_chunk

abbrev pub range_bytes : Option ChunkRange → List ℕ
range_bytes none = be_bytes 8 0 ++ be_bytes 8 0
range_bytes (some r) = be_bytes 8 r.start ++ be_bytes 8 r.end

-- The bits of a lock error are of different places, so their `|` is their sum.
unfoldable pub payload : Sent → List ℕ
unfolding reserve_flags_to_u8 commit_flags_to_u8
payload (request_lock kind chunk_id) = lock_kind_to_u8 kind ∷ be_bytes 16 chunk_id
payload (try_reserve desired file_id bucket_id flags) =
    reserve_flags_to_u8 flags ∷ be_bytes 8 desired ++ be_bytes 16 file_id ++ be_bytes 16 bucket_id
payload (cancel_reserve chunk_id) = be_bytes 16 chunk_id
payload (respond_lock_ok chunk_id kind) = lock_kind_to_u8 kind ∷ be_bytes 16 chunk_id
payload (respond_lock_err chunk_id kind error_kind) =
    (lock_kind_to_u8 kind + chunk_error_to_u8 error_kind) ∷ be_bytes 16 chunk_id
payload (respond_reserve_ok chunk_id chunk_buffer) = be_bytes 16 chunk_id ++ be_bytes 2 chunk_buffer
payload (respond_reserve_err available_space) = be_bytes 8 available_space
payload (respond_receive_ack chunk_id) = be_bytes 4 chunk_id
payload (respond_put_ok chunk_buffer) = be_bytes 2 chunk_buffer
payload (query_chunk chunk_id) = be_bytes 16 chunk_id
payload (respond_query size exists) = bit_of exists ∷ be_bytes 8 size
payload (respond_put_err error_kind) = chunk_error_to_u8 error_kind ∷ []
payload (retrieve_req chunk_id chunk_buffer range) =
    be_bytes 16 chunk_id ++ be_bytes 2 chunk_buffer ++ range_bytes range
payload (Sent.delete_chunk chunk_id) = be_bytes 16 chunk_id
payload (Sent.commit flags chunk_id) = commit_flags_to_u8 flags ∷ be_bytes 16 chunk_id
payload (respond_commit_err error_kind) = chunk_error_to_u8 error_kind ∷ []
payload respond_commit_ok = []
payload (request_put flags chunk_id size) =
    put_flags_to_u8 flags ∷ be_bytes 16 chunk_id ++ be_bytes 8 size
payload (send_chunk is_last id content) = bit_of is_last ∷ be_bytes 4 id ++ content

-- `payload[i]`, which is within the payload, and the number of the bytes from `start` up to `end`.
abbrev pub first : List ℕ → ℕ
first [] = 0
first (b ∷ _) = b

abbrev pub byte : ℕ → List ℕ → ℕ
byte i bytes = first (drop i bytes)

abbrev pub number : (start end : ℕ) → List ℕ → ℕ
number start end bytes = from_be 0 (slice start end bytes)

-- The range of a retrieve packet; both ends zero stand for none.
abbrev pub read_range : (start end : ℕ) → MdsftpResult (Option ChunkRange)
read_range start end =
    if (start + end) % 2 ^ 64 == 0 then ok none else (new_range start end >>= λ r. ok (some r))

unfoldable pub read_payload : MdsftpPacketType → List ℕ → MdsftpResult Message
unfolding reserve_flags_from_u8 commit_flags_from_u8
read_payload MdsftpPacketType.reserve_ok p = ok (reserve_ok (number 0 16 p) (number 16 18 p))
read_payload MdsftpPacketType.reserve_err p = ok (reserve_err (from_be 0 p))
read_payload MdsftpPacketType.lock_acquire p =
    ok (lock_acquire (lock_kind_from_u8 (byte 0 p)) (number 1 17 p))
read_payload MdsftpPacketType.lock_err p = ok (lock_err (chunk_error_from_u8 (byte 0 p)))
read_payload MdsftpPacketType.put_err p = ok (put_err (chunk_error_from_u8 (byte 0 p)))
read_payload MdsftpPacketType.put_ok p = ok (put_ok (number 0 2 p))
read_payload MdsftpPacketType.commit_err p = ok (commit_err (chunk_error_from_u8 (byte 0 p)))
read_payload MdsftpPacketType.commit_ok p = ok commit_ok
read_payload MdsftpPacketType.query_response p =
    ok (query_response (if byte 0 p == 1 then some (number 1 9 p) else none))
read_payload MdsftpPacketType.file_chunk p =
    ok (file_chunk (byte 0 p == 1) (number 1 5 p) (drop 5 p))
read_payload MdsftpPacketType.retrieve p = read_range (number 18 26 p) (number 26 34 p) >>= λ range.
    ok (retrieve (number 0 16 p) (number 16 18 p) range)
read_payload MdsftpPacketType.put p =
    ok (put (put_flags_from_u8 (byte 0 p)) (number 1 17 p) (number 17 25 p))
read_payload MdsftpPacketType.reserve p =
    ok (reserve (number 1 9 p) (number 25 41 p) (number 9 25 p) (reserve_flags_from_u8 (byte 0 p)))
read_payload MdsftpPacketType.reserve_cancel p = ok (reserve_cancel (number 0 16 p))
read_payload MdsftpPacketType.lock_req p =
    ok (lock_req (lock_kind_from_u8 (byte 0 p)) (number 1 17 p))
read_payload MdsftpPacketType.recv_ack p = ok (recv_ack (number 0 4 p))
read_payload MdsftpPacketType.delete_chunk p = ok (Message.delete_chunk (number 0 16 p))
read_payload MdsftpPacketType.commit p =
    ok (Message.commit (commit_flags_from_u8 (byte 0 p)) (number 1 17 p))
read_payload MdsftpPacketType.query p = ok (query (number 0 16 p))
read_payload _ p = ok other
