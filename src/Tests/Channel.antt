-- ===== src/Tests/Channel.antt =====
-- Requests, channels and connections between two nodes.
use meowith.Base.{ℕ, ◌^◌, ◌<◌, ◌≡◌, ◌≢◌, refl, Bool, true, false, none, some, [], ◌∷◌, arith}
use meowith.Base.Dict.{lookup, insert, remove, total}
use meowith.Base.Result.{ok, err}
use meowith.Transfer.Upload.{MdsftpResult, connection_error}
use meowith.Wire.Message.{Message, query_chunk, respond_query, packet_type}
use meowith.Wire.Delivery.{raw_packet}
use meowith.Channel.Pending.{InternalMdsftpChannel, new_channel, call, query, query_result}
use meowith.Channel.Connection.{
  PacketReader, new_reader, InternalMdsftpConnection, generate_id, max_ids, pick_id, safe_to_close,
  handle_global, create_channel, cleanup,
}
use meowith.Channel.Ids.{generate_id-fresh, generate_id_apart}
use meowith.Channel.Count.{
  opened, closed, dropped, creates, step, run, uncounted, Counted, run-Counted, never_safe_to_close,
}
use meowith.Channel.Dispatch.{dispatch, dispatch-call, only, with_channel}
use meowith.Channel.Pool.{MdsftpConnection, InternalMdsftpPool, new_connection, channel}
use meowith.Channel.Stopped.{channel_stopped}

abbrev everyone : ℕ → Bool
everyone task = true

abbrev no_handler :
    Message → InternalMdsftpChannel → InternalMdsftpChannel × MdsftpResult (Unit {0})
no_handler m c = (c, ok tt)

-- Task 3 has asked for chunk 5 on channel 7.
abbrev waiting : PacketReader
waiting = record new_reader {
  conn_map = (7, record (new_channel 7) { query_sender = some 3 }) ∷ [];
  channel_count = 1;
  running = true;
}

dispatch-call_example :
    dispatch everyone no_handler (raw_packet (7, respond_query 100 true)) waiting
    ≡ some (only (with_channel 7 (new_channel 7) waiting) ((3, query_result 100) ∷ []))
unfolding call lookup packet_type
dispatch-call_example =
    dispatch-call everyone no_handler 3 (query_chunk 5) (respond_query 100 true) (new_channel 7)
      query (query_result 100) waiting refl refl refl (omega arith) refl refl

-- The second number is free.
generate_id-fresh_example :
    (lookup 9 waiting.conn_map ≡ none)
    × (0 < 9)
    × (9 < 2 ^ 32)
    × (total (λ _. 1) waiting.conn_map < max_ids)
unfolding generate_id pick_id lookup total
generate_id-fresh_example =
    generate_id-fresh true (7 ∷ 9 ∷ []) waiting.conn_map 9
      ((omega arith, omega arith), ((omega arith, omega arith), tt)) refl

generate_id_apart_example : let id : ℕ = 9 in id ≢ 2147483657
unfolding generate_id pick_id lookup total
generate_id_apart_example =
    generate_id_apart (7 ∷ 9 ∷ []) (9 ∷ []) waiting.conn_map [] 9 2147483657
      ((omega arith, omega arith), ((omega arith, omega arith), tt))
      ((omega arith, omega arith), tt) refl refl

abbrev accepting : InternalMdsftpConnection
accepting = record { reader = waiting; is_local = false; is_closing = false }

accepting-Counted : Counted 0 accepting
unfolding lookup total
accepting-Counted = ((refl, tt), refl)

run-Counted_example :
    Counted 1 (run (opened 8 ∷ creates (5 ∷ []) ∷ closed 8 ∷ dropped 7 ∷ []) accepting)
unfolding uncounted step handle_global lookup create_channel total insert
run-Counted_example =
    run-Counted (opened 8 ∷ creates (5 ∷ []) ∷ closed 8 ∷ dropped 7 ∷ []) 0 accepting
      accepting-Counted

never_safe_to_close_example :
    safe_to_close (run (opened 8 ∷ closed 8 ∷ dropped 7 ∷ dropped 8 ∷ []) accepting) ≡ false
unfolding uncounted step run lookup total cleanup handle_global insert remove
never_safe_to_close_example =
    never_safe_to_close 8 (dropped 7 ∷ dropped 8 ∷ []) accepting accepting-Counted refl tt
      (omega arith)

abbrev with_channels : (local_id : ℕ) → PacketReader → MdsftpConnection
with_channels local_id r = record (new_connection local_id 0 true) {
  internal = record { reader = r; is_local = true; is_closing = false };
}

-- Node 4 has a connection that works, with a channel, and one that has stopped.
abbrev two_connections : InternalMdsftpPool
two_connections = record {
  connection_map = (4, with_channels 1 waiting ∷ with_channels 2 new_reader ∷ []) ∷ [];
  has_packet_handler = true;
  is_shutting_down = false;
  node_addr_map = (4, 40) ∷ [];
}

channel_stopped_example :
    (channel (λ address. ok 3) 0 4 (9 ∷ []) two_connections).1 ≡ err connection_error
unfolding lookup
channel_stopped_example =
    channel_stopped (λ address. ok 3) 0 4 (9 ∷ []) two_connections (with_channels 1 waiting ∷ []) []
      (with_channels 2 new_reader) refl refl
      ((λ up. omega arith), ((λ up. absurd (ground arith)), tt))
