-- ===== src/Channel/Count.antt =====
-- `channel_count` against the channels that are there, over the events of a connection.
use meowith.Base.{
  ℕ, suc, ◌+◌, ◌%◌, ◌^◌, ◌<◌, ◌≤◌, ◌≡◌, refl, ap, ◌∙◌, Bool, true, false, Option, none, some, List,
  [], ◌∷◌, arith, if◌then◌else◌,
}
use meowith.Base.Dict.{
  lookup, contains_key, total, NodupKeys, insert-NodupKeys, remove-NodupKeys, lookup-insert,
  total-insert_new, total-remove,
}
use meowith.Base.Result.{ok, err}
use meowith.Transfer.Upload.{MdsftpResult}
use meowith.Channel.Pending.{InternalMdsftpChannel, new_channel}
use meowith.Channel.Connection.{
  PacketReader, InternalMdsftpConnection, close_map, add_channel, add_entry, remove_channel,
  remove_entry, cleanup, materialize_channel, close_entry, handle_global, open_packet, generate_id,
  create_channel, created, created_if, safe_to_close,
}
use meowith.Wire.Stream.{MdsftpRawPacket}
use meowith.Wire.PacketType.{MdsftpPacketType}

-- What happens to the channels of a connection: this end makes one, the other end opens or closes
-- one, the handle of one is dropped, and the reader stops.
pub data Event : Type 0 where
  creates : (tries : List ℕ) → Event
  opened closed dropped : (stream_id : ℕ) → Event
  stops : Event

abbrev pub close_packet : ℕ → MdsftpRawPacket
close_packet id = record {
  packet_type = MdsftpPacketType.channel_close;
  stream_id = id;
  payload = [];
}

abbrev pub with_reader : InternalMdsftpConnection → PacketReader → InternalMdsftpConnection
with_reader conn r = record conn { reader = r }

unfoldable pub step : Event → InternalMdsftpConnection → InternalMdsftpConnection
step (creates tries) conn = (create_channel tries conn).0
step (opened id) conn = with_reader conn (handle_global (open_packet id) conn.reader).0
step (closed id) conn = with_reader conn (handle_global (close_packet id) conn.reader).0
step (dropped id) conn = with_reader conn (cleanup id conn.reader).0
step stops conn = with_reader conn (close_map conn.reader).0

unfoldable pub run : List Event → InternalMdsftpConnection → InternalMdsftpConnection
unfolding step
run [] conn = conn
run (e ∷ es) conn = run es (step e conn)

abbrev pub size : InternalMdsftpConnection → ℕ
size conn = total (λ _. 1) conn.reader.conn_map

-- Channels that the other end closed, since the reader last stopped: their removal is not counted.
abbrev pub uncounted_by : Event → InternalMdsftpConnection → ℕ → ℕ
uncounted_by (closed id) conn n = if contains_key id conn.reader.conn_map then suc n else n
uncounted_by stops conn n = 0
uncounted_by _ conn n = n

unfoldable pub uncounted : List Event → InternalMdsftpConnection → ℕ → ℕ
unfolding step
uncounted [] conn n = n
uncounted (e ∷ es) conn n = uncounted es (step e conn) (uncounted_by e conn n)

-- The counter is the number of channels that are there, and `n` more.
abbrev pub CountedReader : ℕ → PacketReader → Type 0
CountedReader n r =
    NodupKeys r.conn_map × (r.channel_count ≡ (total (λ _. 1) r.conn_map + n) % 2 ^ 64)

abbrev pub Counted : ℕ → InternalMdsftpConnection → Type 0
Counted n conn = CountedReader n conn.reader

add_entry-Counted :
    (id n : ℕ) (c : InternalMdsftpChannel) (o : Option InternalMdsftpChannel) (r : PacketReader)
    → lookup id r.conn_map ≡ o
    → CountedReader n r
    → CountedReader n (add_entry id c o r)
add_entry-Counted id n c (some _) r e h = h
add_entry-Counted id n c none r e h = (
  insert-NodupKeys id c r.conn_map h.0,
  omega (arith, h.1, total-insert_new (λ _. 1) id c r.conn_map e),
)

remove_entry-Counted :
    (id n : ℕ) (o : Option InternalMdsftpChannel) (r : PacketReader)
    → lookup id r.conn_map ≡ o
    → CountedReader n r
    → CountedReader n (remove_entry id o r).0
remove_entry-Counted id n none r e h = h
remove_entry-Counted id n (some c) r e h = (
  remove-NodupKeys id r.conn_map h.0,
  omega (arith, h.1, total-remove (λ _. 1) id c r.conn_map h.0 e),
)

close_entry-Counted :
    (id n : ℕ) (o : Option InternalMdsftpChannel) (r : PacketReader)
    → lookup id r.conn_map ≡ o
    → CountedReader n r
    → CountedReader
        (if elim o [ none ↦ false | some _ ↦ true ] then suc n else n)
        (close_entry id o r).0
close_entry-Counted id n none r e h = h
close_entry-Counted id n (some c) r e h = (
  remove-NodupKeys id r.conn_map h.0,
  omega (arith, h.1, total-remove (λ _. 1) id c r.conn_map h.0 e),
)

created-Counted :
    (n : ℕ) (r : MdsftpResult ℕ) (conn : InternalMdsftpConnection)
    → Counted n conn
    → Counted n (created r conn).0
unfolding created materialize_channel add_channel
created-Counted n (err e) conn h = h
created-Counted n (ok id) conn h =
    add_entry-Counted id n (new_channel id) (lookup id conn.reader.conn_map) conn.reader refl h

created_if-Counted :
    (running is_closing : Bool) (n : ℕ) (r : MdsftpResult ℕ) (conn : InternalMdsftpConnection)
    → Counted n conn
    → Counted n (created_if running is_closing r conn).0
unfolding created_if
created_if-Counted false is_closing n r conn h = h
created_if-Counted true true n r conn h = h
created_if-Counted true false n r conn h = created-Counted n r conn h

step-Counted :
    (e : Event) (n : ℕ) (conn : InternalMdsftpConnection)
    → Counted n conn
    → Counted (uncounted_by e conn n) (step e conn)
unfolding step create_channel handle_global materialize_channel add_channel cleanup remove_channel
    close_map total
step-Counted (creates tries) n conn h =
    created_if-Counted conn.reader.running conn.is_closing n
      (generate_id conn.is_local tries conn.reader.conn_map) conn h
step-Counted (opened id) n conn h =
    add_entry-Counted id n (new_channel id) (lookup id conn.reader.conn_map) conn.reader refl h
step-Counted (closed id) n conn h =
    close_entry-Counted id n (lookup id conn.reader.conn_map) conn.reader refl h
step-Counted (dropped id) n conn h =
    remove_entry-Counted id n (lookup id conn.reader.conn_map) conn.reader refl h
step-Counted stops n conn h = (tt, refl)

-- Over any events the counter is the number of the channels that are there and of those that the
-- other end closed since the reader last stopped, modulo the word; if it is at the start.
pub run-Counted :
    (es : List Event) (n : ℕ) (conn : InternalMdsftpConnection)
    → Counted n conn
    → Counted (uncounted es conn n) (run es conn)
unfolding run uncounted
run-Counted [] n conn h = h
run-Counted (e ∷ es) n conn h =
    run-Counted es (uncounted_by e conn n) (step e conn) (step-Counted e n conn h)

-- The reader does not stop in the course of the events.
abbrev pub Runs : List Event → Type 0
Runs [] = Unit
Runs (stops ∷ es) = ⊥
Runs (_ ∷ es) = Runs es

uncounted_ge :
    (es : List Event) (n : ℕ) (conn : InternalMdsftpConnection) → Runs es → n ≤ uncounted es conn n
unfolding uncounted
uncounted_ge [] n conn h = omega arith
uncounted_ge (creates tries ∷ es) n conn h = uncounted_ge es n (step (creates tries) conn) h
uncounted_ge (opened id ∷ es) n conn h = uncounted_ge es n (step (opened id) conn) h
uncounted_ge (closed id ∷ es) n conn h =
    let m = uncounted_by (closed id) conn n in
    let more : n ≤ m = ground arith in
    omega (arith, more, uncounted_ge es m (step (closed id) conn) h)
uncounted_ge (dropped id ∷ es) n conn h = uncounted_ge es n (step (dropped id) conn) h
uncounted_ge (stops ∷ es) n conn h = absurd h

opened_contains :
    (id : ℕ) (conn : InternalMdsftpConnection)
    → lookup id conn.reader.conn_map ≡ none
    → contains_key id (step (opened id) conn).reader.conn_map ≡ true
unfolding step handle_global materialize_channel add_channel
opened_contains id conn new =
    ap (λ o. contains_key id (add_entry id (new_channel id) o conn.reader).conn_map) new
    ∙ ground (arith, lookup-insert id id (new_channel id) conn.reader.conn_map)

-- A channel that the other end opens and closes again is counted for as long as the reader runs:
-- the connection is not safe to close any more, although all its channels may be gone. The
-- counter is that of the channels at the start, no channel has the id there, and the events do not
-- make it wrap around.
pub never_safe_to_close :
    (id : ℕ) (es : List Event) (conn : InternalMdsftpConnection)
    → Counted 0 conn
    → lookup id conn.reader.conn_map ≡ none
    → Runs es
    → (let es' = opened id ∷ closed id ∷ es in size (run es' conn) + uncounted es' conn 0 < 2 ^ 64)
    → safe_to_close (run (opened id ∷ closed id ∷ es) conn) ≡ false
unfolding run uncounted safe_to_close
never_safe_to_close id es conn h new up small =
    let es' = opened id ∷ closed id ∷ es in
    let one : 1 ≤ uncounted es' conn 0 =
      let after = step (opened id) conn in
      let m = uncounted_by (closed id) after 0 in
      let counted : m ≡ 1 = rw (opened_contains id conn new) refl in
      omega (arith, counted, uncounted_ge es m (step (closed id) after) up) in
    ground (arith, (run-Counted es' 0 conn h).1)
