-- ===== src/Channel/Dispatch.antt =====
-- What the loop of `PacketReader::start` (protocol/src/mdsftp/net/packet_reader.rs) does with a
-- packet that it read.
use meowith.Base.{
  ℕ, ◌≡◌, ap, ◌∙◌, Bool, true, false, Option, none, some, List, [], ◌∷◌, arith, if◌then◌else◌,
}
use meowith.Base.Dict.{lookup, insert}
use meowith.Base.Result.{ok, err}
use meowith.Transfer.Upload.{MdsftpResult, MdsftpError, connection_error}
use meowith.Wire.PacketType.{MdsftpPacketType, is_system, to_u8}
use meowith.Wire.Message.{Sent, Message, packet_type}
use meowith.Wire.Payload.{delivered, IsCarried}
use meowith.Wire.Stream.{MdsftpRawPacket}
use meowith.Wire.Delivery.{raw_packet}
use meowith.Channel.Pending.{
  Kind, InternalMdsftpChannel, Handled, handle_packet, Answer, Deliveries, request_kind,
  response_kind, answer_of, call, set_sender,
}
use meowith.Channel.Answers.{handle_packet-call}
use meowith.Channel.Connection.{PacketReader, Notice, handle_global, close_map}

-- The reader, the tasks that are told, what the node's handler is told, the channels that are
-- interrupted, and whether the loop goes on.
pub record Dispatched : Type 0 where
  pub reader : PacketReader
  pub told : Deliveries
  pub notices : List Notice
  pub stopped : List InternalMdsftpChannel
  pub goes_on : Bool

abbrev pub only : PacketReader → Deliveries → Dispatched
only r told = record { reader = r; told = told; notices = []; stopped = []; goes_on = true }

-- A connection error of the channel closes the map, and ends the loop; other errors are logged.
unfoldable pub after_error : MdsftpError → PacketReader → Dispatched
unfolding close_map
after_error connection_error r =
    let (r', stopped) = close_map r in
    record { reader = r'; told = []; notices = []; stopped = stopped; goes_on = false }
after_error _ r = only r []

abbrev pub after_handler : MdsftpResult (Unit {0}) → PacketReader → Dispatched
unfolding after_error
after_handler (ok _) r = only r []
after_handler (err e) r = after_error e r

abbrev pub with_channel : ℕ → InternalMdsftpChannel → PacketReader → PacketReader
with_channel id c r = record r { conn_map = insert id c r.conn_map }

unfoldable pub for_global : MdsftpRawPacket → PacketReader → Dispatched
unfolding handle_global
for_global p r =
    let (r', notices) = handle_global p r in
    record { reader = r'; told = []; notices = notices; stopped = []; goes_on = true }

-- The channel's handler, given a message, may close itself on the channel, and returns a result.
module _ (waits : ℕ → Bool)
    (handler : Message
      → InternalMdsftpChannel
      → InternalMdsftpChannel × MdsftpResult (Unit {0})) where
  unfoldable pub run_handler : ℕ → Handled → Option Message → PacketReader → Dispatched
  unfolding after_error after_handler
  run_handler id h none r = only (with_channel id h.channel r) h.told
  run_handler id h (some m) r =
      let (c, result) = handler m h.channel in after_handler result (with_channel id c r)

  unfoldable pub handled : ℕ → Option (MdsftpResult Handled) → PacketReader → Option Dispatched
  unfolding after_error run_handler
  handled id none r = none
  handled id (some (err e)) r = some (after_error e r)
  handled id (some (ok h)) r = some (run_handler id h h.forwarded r)

  unfoldable pub for_channel :
      MdsftpRawPacket → Option InternalMdsftpChannel → PacketReader → Option Dispatched
  unfolding handled
  for_channel p none r = some (only r [])
  for_channel p (some c) r = handled p.stream_id (handle_packet waits p c) r

  unfoldable pub dispatch : MdsftpRawPacket → PacketReader → Option Dispatched
  unfolding for_global is_system for_channel
  dispatch p r =
      if is_system p.packet_type
      then some (for_global p r)
      else for_channel p (lookup p.stream_id r.conn_map) r

  response_not_system :
      (t : MdsftpPacketType) (k : Kind) → response_kind t ≡ some k → is_system t ≡ false
  unfolding is_system to_u8
  response_not_system t k h = ground arith

  -- A task requests something on a channel of the connection, and the other end answers the request
  -- there with arguments that a packet carries: if the task still waits, it is told what the answer
  -- says and nothing else happens, but that the channel waits for no answer of this kind any more.
  pub dispatch-call :
      (task : ℕ) (s r : Sent) (c : InternalMdsftpChannel) (k : Kind) (a : Answer)
      (rd : PacketReader)
      → request_kind s ≡ some k
      → response_kind (packet_type r) ≡ some k
      → answer_of (delivered r) ≡ some a
      → IsCarried r
      → waits task ≡ true
      → lookup c.id rd.conn_map ≡ some (call task s c).0
      → dispatch (raw_packet (c.id, r)) rd
        ≡ some (only (with_channel c.id (set_sender k none c) rd) ((task, a) ∷ []))
  unfolding dispatch for_channel handled run_handler
  dispatch-call task s r c k a rd req res ans fits w l =
      ap
        (λ b.
          if b
          then some (for_global (raw_packet (c.id, r)) rd)
          else for_channel (raw_packet (c.id, r)) (lookup c.id rd.conn_map) rd)
        (response_not_system (packet_type r) k res)
      ∙ ap (λ o. for_channel (raw_packet (c.id, r)) o rd) l
      ∙ ap (λ o. handled c.id o rd) (handle_packet-call waits task s r c k a req res ans fits w)
