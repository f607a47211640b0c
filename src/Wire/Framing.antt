-- ===== src/Wire/Framing.antt =====
-- The reader finds the packets that the writer wrote.
use mathlib.Core.List.{append_assoc}
use meowith.Base.{
  ℕ, zero, suc, ◌%◌, ◌^◌, ◌≤◌, ◌<◌, ◌≡◌, refl, ap, ap₂, sym, ◌∙◌, true, false, Option, none, some,
  List, [], ◌∷◌, ◌++◌, arith, length, length-append, take-append_self, drop-append_self, All, ltb,
}
use meowith.Transfer.Upload.{read_exact}
use meowith.Wire.Header.{MdsftpHeader, FitsTypes, write_header, to_be_bytes, read_header-bytes}
use meowith.Wire.PacketType.{to_u8, try_from_u8_lem, to_u8-lt}
use meowith.Wire.Stream.{
  MdsftpRawPacket, max_payload_size, write_raw_packet, write_packets, pre_validate, ReadEnd, packet,
  header_read_failed, with_payload, with_type, with_header, with_head, read_packet, read_packets,
  after_step, join_bytes,
}

pub read_exact-append : (xs ys : List ℕ) → read_exact (length xs) (xs ++ ys) ≡ some (xs, ys)
unfolding read_exact
read_exact-append xs ys =
    rw (take-append_self xs ys, drop-append_self xs ys) (ground (arith, length-append xs ys))

abbrev pub header_of : MdsftpRawPacket → MdsftpHeader
header_of p = record {
  packet_id = to_u8 p.packet_type;
  stream_id = p.stream_id;
  payload_size = length p.payload;
}

-- A packet that its receiver takes: the stream id fits a word, and the payload has the length
-- that its type asks for.
pub record IsSendable (p : MdsftpRawPacket) : Type 0 where
  pub small_stream_id : p.stream_id < 2 ^ 32
  pub small_payload : length p.payload ≤ max_payload_size
  pub valid : pre_validate p.packet_type (header_of p) ≡ true

abbrev head : MdsftpRawPacket → List ℕ
head p = to_u8 p.packet_type ∷ to_be_bytes p.stream_id ++ to_be_bytes (length p.payload)

write_raw_packet-head :
    (p : MdsftpRawPacket) → IsSendable p → write_raw_packet p ≡ some (head p ++ p.payload)
unfolding write_raw_packet write_header
write_raw_packet-head p h =
    let size : length p.payload % 2 ^ 32 ≡ length p.payload = omega (arith, h.small_payload) in
    let small : ltb max_payload_size (length p.payload) ≡ false = ground (arith, h.small_payload) in
    rw (small, size) refl

header_of-FitsTypes : (p : MdsftpRawPacket) → IsSendable p → FitsTypes (header_of p)
header_of-FitsTypes p h = record {
  small_packet_id = to_u8-lt p.packet_type;
  small_stream_id = h.small_stream_id;
  small_payload_size = omega (arith, h.small_payload);
}

read_packet-head :
    (p : MdsftpRawPacket) (rest : List ℕ)
    → IsSendable p
    → read_packet (head p ++ (p.payload ++ rest)) ≡ packet p rest
unfolding read_packet
read_packet-head p rest h =
    ap with_head (read_exact-append (head p) (p.payload ++ rest))
    ∙ ap (λ o. with_header o (p.payload ++ rest))
        (read_header-bytes (header_of p) (header_of-FitsTypes p h))
    ∙ ap (λ o. with_type o (header_of p) (p.payload ++ rest))
        ((try_from_u8_lem (to_u8 p.packet_type) p.packet_type).1 refl)
    ∙ rw (h.valid) (ap (with_payload p.packet_type p.stream_id) (read_exact-append p.payload rest))

-- The bytes of packets that can be sent.
abbrev bytes_of : List MdsftpRawPacket → List ℕ
bytes_of [] = []
bytes_of (p ∷ ps) = (head p ++ p.payload) ++ bytes_of ps

write_packets-bytes_of :
    (ps : List MdsftpRawPacket) → All IsSendable ps → write_packets ps ≡ some (bytes_of ps)
unfolding write_packets
write_packets-bytes_of [] h = refl
write_packets-bytes_of (p ∷ ps) h =
    ap₂ join_bytes (write_raw_packet-head p h.0) (write_packets-bytes_of ps h.1)

read_packets-bytes_of :
    (fuel : ℕ) (ps : List MdsftpRawPacket)
    → All IsSendable ps
    → length ps < fuel
    → read_packets fuel (bytes_of ps) ≡ (ps, some header_read_failed)
unfolding read_packets read_exact
read_packets-bytes_of zero ps h enough = absurd (omega arith)
read_packets-bytes_of (suc fuel) [] h enough = refl
read_packets-bytes_of (suc fuel) (p ∷ ps) h enough =
    ap (λ s. after_step s (λ rest. read_packets fuel rest))
      (ap read_packet (append_assoc (head p) p.payload (bytes_of ps))
        ∙ read_packet-head p (bytes_of ps) h.0)
    ∙ ap (λ (r : List MdsftpRawPacket × Option ReadEnd). (p ∷ r.0, r.1))
        (read_packets-bytes_of fuel ps h.1 (omega arith))

-- The reader gets exactly the packets that the writer wrote, in order, and then fails on the
-- header that the end of the stream cuts off; if each of them is one that its receiver takes, and
-- the rounds are more than the packets.
pub read_packets-write_packets :
    (fuel : ℕ) (ps : List MdsftpRawPacket) (bytes : List ℕ)
    → All IsSendable ps
    → length ps < fuel
    → write_packets ps ≡ some bytes
    → read_packets fuel bytes ≡ (ps, some header_read_failed)
read_packets-write_packets fuel ps bytes h enough w =
    ap (read_packets fuel)
      (ap (λ o. elim o [ none ↦ [] | some b ↦ b ]) (sym w ∙ write_packets-bytes_of ps h))
    ∙ read_packets-bytes_of fuel ps h enough
