-- ===== src/Wire/Payload.antt =====
-- A payload that is written is read back, and has the length that the reader checks.
use meowith.Base.{
  ℕ, ◌+◌, ◌^◌, ◌<◌, ◌≡◌, refl, ap, ◌∙◌, true, false, Option, none, some, arith, length,
  if◌then◌else◌,
}
use meowith.Base.Result.{ok, ◌>>=◌}
use meowith.Locking.Table.{LockKind}
use meowith.Transfer.Upload.{ChunkRange, new_range}
use meowith.Wire.Flags.{reserve_flags_lem, commit_flags_lem}
use meowith.Wire.Bytes.{be_bytes, from_be, from_be-be_bytes}
use meowith.Wire.Message.{
  ChunkErrorKind, PutFlags, Sent, Message, packet_type, payload, read_payload, read_range,
  request_lock, try_reserve, cancel_reserve, respond_lock_ok, respond_lock_err, respond_reserve_ok,
  respond_reserve_err, respond_receive_ack, respond_put_ok, query_chunk, respond_query,
  respond_put_err, retrieve_req, respond_commit_err, respond_commit_ok, request_put, send_chunk,
  lock_req, reserve, reserve_cancel, lock_acquire, lock_err, reserve_ok, reserve_err, recv_ack,
  put_ok, query, query_response, put_err, retrieve, commit_err, commit_ok, put, file_chunk,
  chunk_error_to_u8, chunk_error_from_u8, lock_kind_to_u8, lock_kind_from_u8, put_flags_to_u8,
  put_flags_from_u8,
}

-- What the receiver of a call is to see. The error of a lock comes without its chunk, and a query
-- of a chunk that does not exist without a size.
abbrev pub delivered : Sent → Message
delivered (request_lock kind chunk_id) = lock_req kind chunk_id
delivered (try_reserve desired file_id bucket_id flags) = reserve desired bucket_id file_id flags
delivered (cancel_reserve chunk_id) = reserve_cancel chunk_id
delivered (respond_lock_ok chunk_id kind) = lock_acquire kind chunk_id
delivered (respond_lock_err chunk_id kind error_kind) = lock_err error_kind
delivered (respond_reserve_ok chunk_id chunk_buffer) = reserve_ok chunk_id chunk_buffer
delivered (respond_reserve_err available_space) = reserve_err available_space
delivered (respond_receive_ack chunk_id) = recv_ack chunk_id
delivered (respond_put_ok chunk_buffer) = put_ok chunk_buffer
delivered (query_chunk chunk_id) = query chunk_id
delivered (respond_query size exists) = query_response (if exists then some size else none)
delivered (respond_put_err error_kind) = put_err error_kind
delivered (retrieve_req chunk_id chunk_buffer range) = retrieve chunk_id chunk_buffer range
delivered (Sent.delete_chunk chunk_id) = Message.delete_chunk chunk_id
delivered (Sent.commit flags chunk_id) = Message.commit flags chunk_id
delivered (respond_commit_err error_kind) = commit_err error_kind
delivered respond_commit_ok = commit_ok
delivered (request_put flags chunk_id size) = put flags chunk_id size
delivered (send_chunk is_last id content) = file_chunk is_last id content

abbrev pub IsUuid : ℕ → Type 0
IsUuid n = n < 256 ^ 16

abbrev pub IsU64 : ℕ → Type 0
IsU64 n = n < 256 ^ 8

abbrev pub IsU16 : ℕ → Type 0
IsU16 n = n < 256 ^ 2

-- A range is one that `ChunkRange::new` makes, whose ends do not wrap around when added.
abbrev pub IsRange : Option ChunkRange → Type 0
IsRange none = Unit
IsRange (some r) = (r.start < r.end) × (r.start + r.end < 256 ^ 8)

-- What a packet carries without a loss: each argument fits its type; besides, a range is not empty
-- and the sum of its ends is below 2^64, since the receiver takes a sum of zero for no range; and a
-- file chunk has less than 2^31 bytes, which the reader would refuse.
abbrev pub IsCarried : Sent → Type 0
IsCarried (request_lock _ chunk_id) = IsUuid chunk_id
IsCarried (try_reserve desired file_id bucket_id _) =
    IsU64 desired × IsUuid file_id × IsUuid bucket_id
IsCarried (cancel_reserve chunk_id) = IsUuid chunk_id
IsCarried (respond_lock_ok chunk_id _) = IsUuid chunk_id
IsCarried (respond_lock_err chunk_id _ _) = IsUuid chunk_id
IsCarried (respond_reserve_ok chunk_id chunk_buffer) = IsUuid chunk_id × IsU16 chunk_buffer
IsCarried (respond_reserve_err available_space) = IsU64 available_space
IsCarried (respond_receive_ack chunk_id) = chunk_id < 256 ^ 4
IsCarried (respond_put_ok chunk_buffer) = IsU16 chunk_buffer
IsCarried (query_chunk chunk_id) = IsUuid chunk_id
IsCarried (respond_query size _) = IsU64 size
IsCarried (respond_put_err _) = Unit
IsCarried (retrieve_req chunk_id chunk_buffer range) =
    IsUuid chunk_id × IsU16 chunk_buffer × IsRange range
IsCarried (Sent.delete_chunk chunk_id) = IsUuid chunk_id
IsCarried (Sent.commit _ chunk_id) = IsUuid chunk_id
IsCarried (respond_commit_err _) = Unit
IsCarried respond_commit_ok = Unit
IsCarried (request_put _ chunk_id size) = IsUuid chunk_id × IsU64 size
IsCarried (send_chunk _ id content) = (id < 256 ^ 4) × (length content < 2 ^ 31)

uuid : (n : ℕ) → IsUuid n → from_be 0 (be_bytes 16 n) ≡ n
uuid n h = from_be-be_bytes 16 n h

u64 : (n : ℕ) → IsU64 n → from_be 0 (be_bytes 8 n) ≡ n
u64 n h = from_be-be_bytes 8 n h

u16 : (n : ℕ) → IsU16 n → from_be 0 (be_bytes 2 n) ≡ n
u16 n h = from_be-be_bytes 2 n h

lock_kind_lem : (kind : LockKind) → lock_kind_from_u8 (lock_kind_to_u8 kind) ≡ kind
lock_kind_lem LockKind.read = refl
lock_kind_lem LockKind.write = refl

chunk_error_lem : (kind : ChunkErrorKind) → chunk_error_from_u8 (chunk_error_to_u8 kind) ≡ kind
chunk_error_lem ChunkErrorKind.not_available = refl
chunk_error_lem ChunkErrorKind.not_found = refl

lock_error_lem :
    (kind : LockKind) (error_kind : ChunkErrorKind)
    → chunk_error_from_u8 (lock_kind_to_u8 kind + chunk_error_to_u8 error_kind) ≡ error_kind
lock_error_lem LockKind.read ChunkErrorKind.not_available = refl
lock_error_lem LockKind.read ChunkErrorKind.not_found = refl
lock_error_lem LockKind.write ChunkErrorKind.not_available = refl
lock_error_lem LockKind.write ChunkErrorKind.not_found = refl

put_flags_lem : (f : PutFlags) → put_flags_from_u8 (put_flags_to_u8 f) ≡ f
put_flags_lem f = ground arith

read_range_lem : (r : ChunkRange) → IsRange (some r) → read_range r.start r.end ≡ ok (some r)
unfolding new_range
read_range_lem r h = ground arith

read_range_path :
    (chunk_id chunk_buffer start end : ℕ) (r : ChunkRange)
    → start ≡ r.start
    → end ≡ r.end
    → IsRange (some r)
    → (read_range start end >>= λ range. ok (retrieve chunk_id chunk_buffer range))
      ≡ ok (retrieve chunk_id chunk_buffer (some r))
read_range_path chunk_id chunk_buffer start end r e f h =
    rw (e, f)
      (ap (λ m. m >>= λ range. ok (retrieve chunk_id chunk_buffer range)) (read_range_lem r h))

pub read_payload-payload :
    (s : Sent) → IsCarried s → read_payload (packet_type s) (payload s) ≡ ok (delivered s)
unfolding read_payload packet_type payload
read_payload-payload (request_lock kind chunk_id) h =
    λ i. ok (lock_req (lock_kind_lem kind i) (uuid chunk_id h i))
read_payload-payload (try_reserve desired file_id bucket_id flags) h = λ i. ok (
    reserve (u64 desired h.0 i) (uuid bucket_id h.2 i) (uuid file_id h.1 i)
      ((reserve_flags_lem flags 0).0 i))
read_payload-payload (cancel_reserve chunk_id) h = λ i. ok (reserve_cancel (uuid chunk_id h i))
read_payload-payload (respond_lock_ok chunk_id kind) h =
    λ i. ok (lock_acquire (lock_kind_lem kind i) (uuid chunk_id h i))
read_payload-payload (respond_lock_err chunk_id kind error_kind) h =
    λ i. ok (lock_err (lock_error_lem kind error_kind i))
read_payload-payload (respond_reserve_ok chunk_id chunk_buffer) h =
    λ i. ok (reserve_ok (uuid chunk_id h.0 i) (u16 chunk_buffer h.1 i))
read_payload-payload (respond_reserve_err available_space) h =
    λ i. ok (reserve_err (u64 available_space h i))
read_payload-payload (respond_receive_ack chunk_id) h =
    λ i. ok (recv_ack (from_be-be_bytes 4 chunk_id h i))
read_payload-payload (respond_put_ok chunk_buffer) h = λ i. ok (put_ok (u16 chunk_buffer h i))
read_payload-payload (query_chunk chunk_id) h = λ i. ok (query (uuid chunk_id h i))
read_payload-payload (respond_query size true) h = λ i. ok (query_response (some (u64 size h i)))
read_payload-payload (respond_query size false) h = refl
read_payload-payload (respond_put_err error_kind) h =
    λ i. ok (put_err (chunk_error_lem error_kind i))
read_payload-payload (retrieve_req chunk_id chunk_buffer none) h =
    λ i. ok (retrieve (uuid chunk_id h.0 i) (u16 chunk_buffer h.1 i) none)
read_payload-payload (retrieve_req chunk_id chunk_buffer (some r)) h =
    read_range_path _ _ _ _ r (u64 r.start (omega (arith, h.2))) (u64 r.end (omega (arith, h.2)))
      h.2
    ∙ λ i. ok (retrieve (uuid chunk_id h.0 i) (u16 chunk_buffer h.1 i) (some r))
read_payload-payload (Sent.delete_chunk chunk_id) h =
    λ i. ok (Message.delete_chunk (uuid chunk_id h i))
read_payload-payload (Sent.commit flags chunk_id) h =
    λ i. ok (Message.commit (commit_flags_lem flags i) (uuid chunk_id h i))
read_payload-payload (respond_commit_err error_kind) h =
    λ i. ok (commit_err (chunk_error_lem error_kind i))
read_payload-payload respond_commit_ok h = refl
read_payload-payload (request_put flags chunk_id size) h =
    λ i. ok (put (put_flags_lem flags i) (uuid chunk_id h.0 i) (u64 size h.1 i))
read_payload-payload (send_chunk true id content) h =
    λ i. ok (file_chunk true (from_be-be_bytes 4 id h.0 i) content)
read_payload-payload (send_chunk false id content) h =
    λ i. ok (file_chunk false (from_be-be_bytes 4 id h.0 i) content)
