-- ===== src/Wire/Stream.antt =====
-- Packets on a connection: `PacketWriter` of packet_writer.rs, and the loop that `PacketReader`
-- spawns in packet_reader.rs, up to the dispatch of a packet. Its pre-validation is validate.rs.
use meowith.Base.{
  ℕ, zero, suc, ◌+◌, ◌-◌, ◌%◌, ◌^◌, Bool, Option, none, some, List, [], ◌∷◌, ◌++◌, length, ltb, leb,
  ◌==◌, if◌then◌else◌,
}
use meowith.Transfer.Upload.{read_exact}
use meowith.Wire.Header.{MdsftpHeader, read_header, write_header, header_size}
use meowith.Wire.PacketType.{MdsftpPacketType, to_u8, try_from_u8, payload_size}

pub record MdsftpRawPacket : Type 0 where
  pub packet_type : MdsftpPacketType
  pub stream_id : ℕ
  pub payload : List ℕ

abbrev pub max_payload_size : ℕ
max_payload_size = 2 ^ 32 - 1

-- The writer's header buffer, of which a header overwrites every byte.
abbrev pub header_buf : List ℕ
header_buf = 0 ∷ 0 ∷ 0 ∷ 0 ∷ 0 ∷ 0 ∷ 0 ∷ 0 ∷ 0 ∷ []

abbrev pub framed : MdsftpHeader → List ℕ → Option (List ℕ)
framed h payload = elim (write_header h header_buf) [
  | none ↦ none
  | some head ↦ some (head ++ payload)
]

-- The bytes that go out; `none` is the panic on a payload that is too large.
unfoldable pub write_raw_packet : MdsftpRawPacket → Option (List ℕ)
unfolding write_header to_u8
write_raw_packet p =
    if ltb max_payload_size (length p.payload)
    then none
    else framed
        (record {
          packet_id = to_u8 p.packet_type;
          stream_id = p.stream_id;
          payload_size = length p.payload % 2 ^ 32;
        })
        p.payload

-- A file chunk, whose payload comes in two parts.
unfoldable pub write_chunk : (stream_id : ℕ) (payload_header payload : List ℕ) → Option (List ℕ)
unfolding write_header to_u8
write_chunk stream_id payload_header payload =
    framed
      (record {
        packet_id = to_u8 MdsftpPacketType.file_chunk;
        stream_id = stream_id;
        payload_size = (length payload_header + length payload) % 2 ^ 32;
      })
      (payload_header ++ payload)

unfoldable pub pre_validate : MdsftpPacketType → MdsftpHeader → Bool
unfolding payload_size
pre_validate MdsftpPacketType.file_chunk h =
    leb (payload_size MdsftpPacketType.file_chunk) h.payload_size
pre_validate t h = payload_size t == h.payload_size

-- Why the loop stops.
pub data ReadEnd : Type 0 where
  header_read_failed type_read_failed pre_validate_failed payload_read_failed : ReadEnd

pub data ReadStep : Type 0 where
  packet : MdsftpRawPacket → (rest : List ℕ) → ReadStep
  closed : ReadEnd → ReadStep

-- The packet, once its payload was read.
abbrev pub with_payload : MdsftpPacketType → ℕ → Option (List ℕ × List ℕ) → ReadStep
with_payload t stream_id none = closed payload_read_failed
with_payload t stream_id (some (payload, rest)) =
    packet (record { packet_type = t; stream_id = stream_id; payload = payload }) rest

abbrev pub with_type : Option MdsftpPacketType → MdsftpHeader → List ℕ → ReadStep
with_type none h stream = closed type_read_failed
with_type (some t) h stream =
    if pre_validate t h
    then with_payload t h.stream_id (read_exact h.payload_size stream)
    else closed pre_validate_failed

abbrev pub with_header : Option MdsftpHeader → List ℕ → ReadStep
with_header none stream = closed header_read_failed
with_header (some h) stream = with_type (try_from_u8 h.packet_id) h stream

abbrev pub with_head : Option (List ℕ × List ℕ) → ReadStep
with_head none = closed header_read_failed
with_head (some (header_buf, rest)) = with_header (read_header header_buf) rest

-- One round of the loop on the bytes that are still to come.
unfoldable pub read_packet : List ℕ → ReadStep
read_packet stream = with_head (read_exact header_size stream)

abbrev pub after_step :
    ReadStep
    → (List ℕ → List MdsftpRawPacket × Option ReadEnd)
    → List MdsftpRawPacket × Option ReadEnd
after_step (closed end) loop = ([], some end)
after_step (packet p rest) loop = let (ps, end) = loop rest in (p ∷ ps, end)

-- The loop: each round takes at least a header, so as many rounds as bytes are enough.
unfoldable pub read_packets : (fuel : ℕ) → List ℕ → List MdsftpRawPacket × Option ReadEnd
unfolding read_packet
read_packets zero stream = ([], none)
read_packets (suc fuel) stream = after_step (read_packet stream) (λ rest. read_packets fuel rest)

abbrev pub join_bytes : Option (List ℕ) → Option (List ℕ) → Option (List ℕ)
join_bytes (some bytes) (some more) = some (bytes ++ more)
join_bytes _ _ = none

-- The packets one after the other.
unfoldable pub write_packets : List MdsftpRawPacket → Option (List ℕ)
unfolding write_raw_packet
write_packets [] = some []
write_packets (p ∷ ps) = join_bytes (write_raw_packet p) (write_packets ps)
