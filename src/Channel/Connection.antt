-- ===== src/Channel/Connection.antt =====
-- The channels of one end of a connection: the map and the counter of `PacketReader`
-- (protocol/src/mdsftp/net/packet_reader.rs), and protocol/src/mdsftp/connection.rs. An operation
-- on the map runs under its write lock, and is one step here.
use meowith.Base.{
  ℕ, ◌+◌, Bool, true, false, Option, none, some, List, [], ◌∷◌, leb, ◌==◌, if◌then◌else◌,
}
use meowith.Base.Dict.{Dict, lookup, insert, remove, contains_key, total}
use meowith.Base.Result.{ok, err}
use meowith.Ledger.State.{fetch_add, fetch_sub}
use meowith.Transfer.Upload.{MdsftpResult, connection_error, interrupted, max_channels}
use meowith.Wire.PacketType.{MdsftpPacketType}
use meowith.Wire.Stream.{MdsftpRawPacket}
use meowith.Channel.Pending.{InternalMdsftpChannel, new_channel}

-- `channel_count` is a `usize` of 64 bits.
pub record PacketReader : Type 0 where
  pub conn_map : Dict InternalMdsftpChannel
  pub channel_count : ℕ
  pub running : Bool

abbrev pub new_reader : PacketReader
new_reader = record { conn_map = []; channel_count = 0; running = false }

-- The channels that are interrupted, in the order of the map.
abbrev pub channels : Dict InternalMdsftpChannel → List InternalMdsftpChannel
channels [] = []
channels ((_, c) ∷ m) = c ∷ channels m

unfoldable pub close_map : PacketReader → PacketReader × List InternalMdsftpChannel
close_map r = (record { conn_map = []; channel_count = 0; running = false }, channels r.conn_map)

abbrev pub add_entry :
    ℕ → InternalMdsftpChannel → Option InternalMdsftpChannel → PacketReader → PacketReader
add_entry id c (some _) r = r
add_entry id c none r = record r {
  conn_map = insert id c r.conn_map;
  channel_count = fetch_add r.channel_count 1;
}

unfoldable pub add_channel : ℕ → InternalMdsftpChannel → PacketReader → PacketReader
add_channel id c r = add_entry id c (lookup id r.conn_map) r

abbrev pub remove_entry :
    ℕ → Option InternalMdsftpChannel → PacketReader → PacketReader × List InternalMdsftpChannel
remove_entry id none r = (r, [])
remove_entry id (some c) r = (
  record r { conn_map = remove id r.conn_map; channel_count = fetch_sub r.channel_count 1 },
  c ∷ [],
)

unfoldable pub remove_channel : ℕ → PacketReader → PacketReader × List InternalMdsftpChannel
remove_channel id r = remove_entry id (lookup id r.conn_map) r

-- The drop of a channel's handle: `cleanup`, and the packet that it writes.
unfoldable pub cleanup :
    ℕ → PacketReader → PacketReader × List InternalMdsftpChannel × MdsftpRawPacket
unfolding remove_channel
cleanup id r =
    let (r', stopped) = remove_channel id r in
    (
      r',
      stopped,
      record { packet_type = MdsftpPacketType.channel_close; stream_id = id; payload = [] },
    )

-- `materialize_channel`, and the packet that it writes if it is to alert the other end.
abbrev pub open_packet : ℕ → MdsftpRawPacket
open_packet id = record {
  packet_type = MdsftpPacketType.channel_open;
  stream_id = id;
  payload = [];
}

unfoldable pub materialize_channel :
    (id : ℕ) (alert : Bool) → PacketReader → PacketReader × Option MdsftpRawPacket
unfolding add_channel
materialize_channel id alert r =
    (add_channel id (new_channel id) r, if alert then some (open_packet id) else none)

-- What the packet handler of the node is told.
pub data Notice : Type 0 where
  channel_incoming channel_close channel_err : (stream_id : ℕ) → Notice

abbrev pub close_entry :
    ℕ → Option InternalMdsftpChannel → PacketReader → PacketReader × List Notice
close_entry id none r = (r, [])
close_entry id (some _) r = (record r { conn_map = remove id r.conn_map }, channel_close id ∷ [])

-- `handle_global`, whose channel factory lives as long as the connection.
unfoldable pub handle_global : MdsftpRawPacket → PacketReader → PacketReader × List Notice
unfolding materialize_channel
handle_global p r = global p.packet_type
  where
    global : MdsftpPacketType → PacketReader × List Notice
    global MdsftpPacketType.channel_open =
        ((materialize_channel p.stream_id false r).0, channel_incoming p.stream_id ∷ [])
    global MdsftpPacketType.channel_close =
        close_entry p.stream_id (lookup p.stream_id r.conn_map) r
    global MdsftpPacketType.channel_err = (r, channel_err p.stream_id ∷ [])
    global _ = (r, [])

-- `gen_range(1..0x80000000)` gave these numbers, one for each try.
abbrev pub max_tries : ℕ
max_tries = 5

abbrev pub max_ids : ℕ
max_ids = 1_000_000

abbrev pub remote_offset : Bool → ℕ
remote_offset true = 0
remote_offset false = 2_147_483_648

unfoldable pub pick_id : (offset : ℕ) → List ℕ → Dict InternalMdsftpChannel → MdsftpResult ℕ
pick_id offset [] m = err max_channels
pick_id offset (n ∷ ns) m =
    let rest = pick_id offset ns m in if contains_key (n + offset) m then rest else ok (n + offset)

unfoldable pub generate_id : Bool → List ℕ → Dict InternalMdsftpChannel → MdsftpResult ℕ
unfolding pick_id
generate_id is_local tries m =
    if leb max_ids (total (λ _. 1) m)
    then err max_channels
    else pick_id (remote_offset is_local) tries m

pub record InternalMdsftpConnection : Type 0 where
  pub reader : PacketReader
  pub is_local : Bool
  pub is_closing : Bool

unfoldable pub created :
    MdsftpResult ℕ
    → InternalMdsftpConnection
    → InternalMdsftpConnection × MdsftpResult ℕ × Option MdsftpRawPacket
unfolding materialize_channel
created (err e) conn = (conn, err e, none)
created (ok id) conn =
    let (r, alert) = materialize_channel id true conn.reader in
    (record conn { reader = r }, ok id, alert)

-- Whether the reader runs and the connection is closing, and the id that there is.
unfoldable pub created_if :
    (running is_closing : Bool)
    → MdsftpResult ℕ
    → InternalMdsftpConnection
    → InternalMdsftpConnection × MdsftpResult ℕ × Option MdsftpRawPacket
unfolding created
created_if false is_closing id conn = (conn, err connection_error, none)
created_if true true id conn = (conn, err interrupted, none)
created_if true false id conn = created id conn

unfoldable pub create_channel :
    List ℕ
    → InternalMdsftpConnection
    → InternalMdsftpConnection × MdsftpResult ℕ × Option MdsftpRawPacket
unfolding generate_id created_if
create_channel tries conn =
    created_if conn.reader.running conn.is_closing
      (generate_id conn.is_local tries conn.reader.conn_map) conn

unfoldable pub safe_to_close : InternalMdsftpConnection → Bool
safe_to_close conn = conn.reader.channel_count == 0

unfoldable pub close :
    InternalMdsftpConnection → InternalMdsftpConnection × List InternalMdsftpChannel
unfolding close_map
close conn =
    let (r, stopped) = close_map conn.reader in
    (record conn { reader = r; is_closing = true }, stopped)
