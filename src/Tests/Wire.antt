-- ===== src/Tests/Wire.antt =====
-- The header of the test in protocol/src/mdsftp/net/wire.rs, flags, and packets of two calls.
use meowith.Base.Result.{ok}
use meowith.Transfer.Upload.{Channel, SizeParams, Packet, mdsftp_upload, params_size}
use meowith.Wire.Message.{
  Sent, Message, query_chunk, respond_query, query_response, payload, packet_type,
}
use meowith.Wire.Stream.{header_read_failed, write_raw_packet, write_packets}
use meowith.Wire.Delivery.{receive, receive-write_packets, chunk_call, Refused, empty_upload_closes}
use meowith.Base.{refl, ℕ, none, ◌≡◌, true, some, List, [], ◌∷◌, arith}
use meowith.Wire.Header.{MdsftpHeader, FitsTypes, write_header}
use meowith.Wire.PacketType.{to_u8}

abbrev header : MdsftpHeader
header = record { packet_id = 10; stream_id = 70201376; payload_size = 396760137 }

abbrev buffer : List ℕ
buffer = 0 ∷ 0 ∷ 0 ∷ 0 ∷ 0 ∷ 0 ∷ 0 ∷ 0 ∷ 0 ∷ 77 ∷ []

header-FitsTypes : FitsTypes header
header-FitsTypes = record {
  small_packet_id = omega arith;
  small_stream_id = omega arith;
  small_payload_size = omega arith;
}

-- A node asks for a chunk, and answers for another one, on two channels.
abbrev calls : List (ℕ × Sent)
calls = (7, query_chunk 5) ∷ (2147483649, respond_query 100 true) ∷ []

abbrev call_bytes : List ℕ
call_bytes =
    18 ∷ 0 ∷ 0 ∷ 0 ∷ 7 ∷ 0 ∷ 0 ∷ 0 ∷ 16 ∷ 0 ∷ 0 ∷ 0 ∷ 0 ∷ 0 ∷ 0 ∷ 0 ∷ 0 ∷ 0 ∷ 0 ∷ 0 ∷ 0 ∷ 0 ∷ 0 ∷ 0
    ∷ 5 ∷ 19 ∷ 128 ∷ 0 ∷ 0 ∷ 1 ∷ 0 ∷ 0 ∷ 0 ∷ 9 ∷ 1 ∷ 0 ∷ 0 ∷ 0 ∷ 0 ∷ 0 ∷ 0 ∷ 0 ∷ 100 ∷ []

receive-write_packets_example : receive 3 call_bytes ≡ (
  (7, ok (Message.query 5)) ∷ (2147483649, ok (query_response (some 100))) ∷ [],
  some header_read_failed,
)
unfolding write_packets write_raw_packet write_header to_u8 payload packet_type
receive-write_packets_example =
    receive-write_packets 3 calls call_bytes
      ((omega arith, omega arith, tt), ((omega arith, omega arith, tt), tt)) (omega arith) refl

abbrev open_channel : Channel
open_channel = record { respond_chunk = λ p. none; flush_io = none }

abbrev nothing : SizeParams
nothing = record { whole = 0; range = none }

empty_upload_closes_example :
    (p : Packet) × ((mdsftp_upload open_channel 4 2 true (1 ∷ []) nothing []).0 ≡ p ∷ [])
    × Refused (7, chunk_call p) (5 ∷ 6 ∷ [])
unfolding params_size
empty_upload_closes_example =
    empty_upload_closes open_channel 4 2 true (1 ∷ []) nothing [] (5 ∷ 6 ∷ []) 7 (λ p. refl)
      (omega arith) refl (omega arith)
