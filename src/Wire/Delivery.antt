-- ===== src/Wire/Delivery.antt =====
-- Calls of the sender methods, from one end of a connection to the other.
use meowith.Base.{
  ℕ, suc, ◌+◌, ◌/◌, ◌%◌, ◌^◌, ◌<◌, ◌≡◌, refl, ap, ◌∙◌, Bool, true, false, Option, none, some, List,
  [], ◌∷◌, ◌++◌, map, arith, length, All, ltb, leb,
}
use meowith.Base.Result.{ok}
use meowith.Transfer.Upload.{
  MdsftpResult, read_exact, Channel, SizeParams, Packet, Progress, params_size, after_rest,
  mdsftp_upload, send_fragments, send_rest,
}
use meowith.Wire.PacketType.{payload_size, to_u8, try_from_u8}
use meowith.Wire.Bytes.{be_bytes}
use meowith.Wire.Header.{write_header, to_be_bytes, read_header-bytes}
use meowith.Wire.Flags.{bit_of}
use meowith.Wire.Message.{
  Sent, Message, packet_type, payload, read_payload, retrieve_req, send_chunk,
}
use meowith.Wire.Payload.{delivered, IsCarried, read_payload-payload}
use meowith.Wire.Stream.{
  MdsftpRawPacket, max_payload_size, ReadEnd, pre_validate, closed, pre_validate_failed,
  header_read_failed, read_packet, write_packets, read_packets, write_chunk, write_raw_packet,
  with_head, with_header,
}
use meowith.Wire.Framing.{IsSendable, header_of, read_exact-append, read_packets-write_packets}

-- The packet of a call on the channel `stream_id`.
abbrev pub raw_packet : ℕ × Sent → MdsftpRawPacket
raw_packet (stream_id, s) = record {
  packet_type = packet_type s;
  stream_id = stream_id;
  payload = payload s;
}

-- What the channels of the other end are given.
abbrev pub message_of : MdsftpRawPacket → ℕ × MdsftpResult Message
message_of p = (p.stream_id, read_payload p.packet_type p.payload)

unfoldable pub receive : (fuel : ℕ) → List ℕ → List (ℕ × MdsftpResult Message) × Option ReadEnd
unfolding read_packets
receive fuel bytes = let (ps, end) = read_packets fuel bytes in (map message_of ps, end)

-- A file chunk with no bytes is the one call that no receiver takes.
abbrev pub HasContent : Sent → Type 0
HasContent (send_chunk _ _ content) = 0 < length content
HasContent _ = Unit

abbrev pub Deliverable : ℕ × Sent → Type 0
Deliverable (stream_id, s) = (stream_id < 2 ^ 32) × IsCarried s × HasContent s

raw_packet-size :
    (stream_id : ℕ) (s : Sent)
    → IsCarried s
    → HasContent s
    → (length (payload s) < 2 ^ 32)
      × (pre_validate (packet_type s) (header_of (raw_packet (stream_id, s))) ≡ true)
unfolding payload packet_type pre_validate
raw_packet-size stream_id (retrieve_req chunk_id chunk_buffer none) h c = ground arith
raw_packet-size stream_id (retrieve_req chunk_id chunk_buffer (some r)) h c = ground arith
raw_packet-size stream_id s h c = ground arith

raw_packet-IsSendable : (call : ℕ × Sent) → Deliverable call → IsSendable (raw_packet call)
raw_packet-IsSendable (stream_id, s) d = record {
  small_stream_id = d.0;
  small_payload = omega (arith, (raw_packet-size stream_id s d.1 d.2).0);
  valid = (raw_packet-size stream_id s d.1 d.2).1;
}

raw_packets-IsSendable :
    (calls : List (ℕ × Sent)) → All Deliverable calls → All IsSendable (map raw_packet calls)
raw_packets-IsSendable [] d = tt
raw_packets-IsSendable (call ∷ calls) d =
    (raw_packet-IsSendable call d.0, raw_packets-IsSendable calls d.1)

-- `send_chunk` writes the header of the chunk and the content apart.
unfoldable pub write_send_chunk : ℕ → Bool → ℕ → List ℕ → Option (List ℕ)
unfolding write_chunk
write_send_chunk stream_id is_last id content =
    write_chunk stream_id (bit_of is_last ∷ be_bytes 4 id) content

-- The two parts go out as the one packet that the other end reads, if they are no longer together
-- than a word can tell.
write_send_chunk_lem :
    (stream_id : ℕ) (is_last : Bool) (id : ℕ) (content : List ℕ)
    → length content + 5 < 2 ^ 32
    → write_send_chunk stream_id is_last id content
      ≡ write_raw_packet (raw_packet (stream_id, send_chunk is_last id content))
unfolding write_send_chunk write_chunk write_raw_packet write_header payload packet_type
write_send_chunk_lem stream_id is_last id content h =
    let small : ltb max_payload_size (suc (suc (suc (suc (suc (length content)))))) ≡ false =
      ground arith in
    let size : 5 + length content ≡ suc (suc (suc (suc (suc (length content))))) = omega arith in
    rw (small, size) refl

abbrev pub deliver : ℕ × Sent → ℕ × MdsftpResult Message
deliver (stream_id, s) = (stream_id, ok (delivered s))

message_of-raw_packet :
    (calls : List (ℕ × Sent))
    → All Deliverable calls
    → map message_of (map raw_packet calls) ≡ map deliver calls
message_of-raw_packet [] d = refl
message_of-raw_packet ((stream_id, s) ∷ calls) d =
    λ i. (stream_id, read_payload-payload s d.0.1 i) ∷ message_of-raw_packet calls d.1 i

length-map : {A B : Type 0} (f : A → B) (xs : List A) → length (map f xs) ≡ length xs
length-map f [] = refl
length-map f (x ∷ xs) = ap suc (length-map f xs)

-- The other end is given the calls that were made, in order, each on its channel and with its
-- arguments, and then fails on the header that the end of the stream cuts off. It is for calls
-- whose arguments fit their types, whose ranges start before their end and have ends whose sum is
-- below 2^64, and whose file chunks are neither empty nor of 2^31 bytes or more; and for more
-- rounds than calls.
pub receive-write_packets :
    (fuel : ℕ) (calls : List (ℕ × Sent)) (bytes : List ℕ)
    → All Deliverable calls
    → length calls < fuel
    → write_packets (map raw_packet calls) ≡ some bytes
    → receive fuel bytes ≡ (map deliver calls, some header_read_failed)
unfolding receive
receive-write_packets fuel calls bytes d enough w =
    ap (λ (r : List MdsftpRawPacket × Option ReadEnd). (map message_of r.0, r.1))
      (read_packets-write_packets fuel (map raw_packet calls) bytes (raw_packets-IsSendable calls d)
        (omega (arith, length-map raw_packet calls)) w)
    ∙ ap (λ ms. (ms, some header_read_failed)) (message_of-raw_packet calls d)

abbrev empty_chunk : Bool → ℕ → List ℕ
empty_chunk is_last id = bit_of is_last ∷ be_bytes 4 id

-- The packet of a call is written, and closes the connection before the bytes that follow it.
abbrev pub Refused : ℕ × Sent → List ℕ → Type 0
Refused call rest =
    (bytes : List ℕ) × (write_raw_packet (raw_packet call) ≡ some bytes)
    × (read_packet (bytes ++ rest) ≡ closed pre_validate_failed)

empty_chunk_closes :
    (stream_id id : ℕ) (is_last : Bool) (rest : List ℕ)
    → stream_id < 2 ^ 32
    → Refused (stream_id, send_chunk is_last id []) rest
unfolding write_raw_packet write_header payload packet_type read_packet to_u8 try_from_u8
    pre_validate payload_size
empty_chunk_closes stream_id id is_last rest h = (
  _,
  refl,
  ap with_head (
        read_exact-append (1 ∷ to_be_bytes stream_id ++ to_be_bytes 5)
          (empty_chunk is_last id ++ rest))
      ∙ ap (λ o. with_header o (empty_chunk is_last id ++ rest))
          (read_header-bytes (record { packet_id = 1; stream_id = stream_id; payload_size = 5 })
            (record {
              small_packet_id = omega arith;
              small_stream_id = h;
              small_payload_size = omega arith;
            })),
)

-- The call that a packet of an upload becomes.
abbrev pub chunk_call : Packet → Sent
chunk_call p = send_chunk p.is_last p.id p.content

abbrev last_empty : Packet
last_empty = record { is_last = true; id = 0; content = [] }

send_rest_empty :
    (c : Channel) (fragment_size chunk_buffer : ℕ) (s : Progress)
    → c.respond_chunk last_empty ≡ none
    → send_rest c fragment_size chunk_buffer 0 0 s ≡ (last_empty ∷ [], ok s)
unfolding send_rest read_exact
send_rest_empty c fragment_size chunk_buffer s e =
    let z : leb 0 (length s.stream) ≡ true = ground arith in rw z (rw e refl)

-- An upload of size zero sends one packet, without bytes, and the reader of the other end closes
-- the connection on it, whatever follows: it asks for a byte more than the header of a chunk.
pub empty_upload_closes :
    (c : Channel) (fragment_size chunk_buffer : ℕ) (seekable : Bool) (file : List ℕ)
    (params : SizeParams) (acks rest : List ℕ) (stream_id : ℕ)
    → ((p : Packet) → c.respond_chunk p ≡ none)
    → 0 < fragment_size
    → params_size params ≡ 0
    → stream_id < 2 ^ 32
    → (p : Packet) × ((mdsftp_upload c fragment_size chunk_buffer seekable file params acks).0
        ≡ p ∷ [])
      × Refused (stream_id, chunk_call p) rest
unfolding mdsftp_upload send_fragments
empty_upload_closes c fragment_size chunk_buffer seekable file params acks rest stream_id open' pos
      empty h =
    let none_whole : 0 / fragment_size ≡ 0 = omega arith in
    let none_left : 0 % fragment_size ≡ 0 = omega arith in
    (
      last_empty,
      rw (empty, none_whole, none_left)
          (ap (λ r. (after_rest c fragment_size chunk_buffer 1 [] r).0)
            (send_rest_empty c fragment_size chunk_buffer _ (open' last_empty))),
      empty_chunk_closes stream_id 0 true rest h,
    )
