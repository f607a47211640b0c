-- ===== src/Channel/Pool.antt =====
-- The connections of a node: `InternalMDSFTPPool` of protocol/src/mdsftp/pool.rs. The clones of a
-- connection are one connection, which the pool names by its local id.
use meowith.Base.{
  ℕ, Bool, true, false, Option, none, some, List, [], ◌∷◌, ◌++◌, ltb, ◌==◌, if◌then◌else◌,
}
use meowith.Base.Dict.{Dict, lookup, insert}
use meowith.Base.Result.{ok, err}
use meowith.Transfer.Upload.{MdsftpResult, no_packet_handler, shutting_down, no_such_node}
use meowith.Channel.Connection.{new_reader, InternalMdsftpConnection, create_channel}

pub record MdsftpConnection : Type 0 where
  pub local_id : ℕ
  pub internal : InternalMdsftpConnection
  pub last_read : ℕ
  pub last_write : ℕ

-- Both times are the time of the last read.
abbrev pub last_access : MdsftpConnection → ℕ
last_access c =
    let last_read = c.last_read in
    let last_write = c.last_read in if ltb last_write last_read then last_read else last_write

abbrev pub channel_count : MdsftpConnection → ℕ
channel_count c = c.internal.reader.channel_count

pub record InternalMdsftpPool : Type 0 where
  pub connection_map : Dict (List MdsftpConnection)
  pub has_packet_handler : Bool
  pub is_shutting_down : Bool
  pub node_addr_map : Dict ℕ

-- A connection that was just made: its reader was started.
abbrev pub new_connection : (local_id now : ℕ) (is_local : Bool) → MdsftpConnection
new_connection local_id now is_local = record {
  local_id = local_id;
  internal = record {
    reader = record new_reader { running = true };
    is_local = is_local;
    is_closing = false;
  };
  last_read = now;
  last_write = now;
}

-- `min_by_key`, which gives the first of several.
unfoldable pub least : MdsftpConnection → List MdsftpConnection → MdsftpConnection
least best [] = best
least best (c ∷ cs) = least (if ltb (channel_count c) (channel_count best) then c else best) cs

-- The connections of a node, of which a MultiMap keeps a vector that is not empty.
abbrev pub push :
    ℕ
    → MdsftpConnection
    → Option (List MdsftpConnection)
    → Dict (List MdsftpConnection)
    → Dict (List MdsftpConnection)
push id c none m = insert id (c ∷ []) m
push id c (some cs) m = insert id (cs ++ c ∷ []) m

abbrev pub insert_connection : ℕ → MdsftpConnection → InternalMdsftpPool → InternalMdsftpPool
insert_connection id c pool = record pool {
  connection_map = push id c (lookup id pool.connection_map) pool.connection_map;
}

-- `connect` is what the TLS connection to an address comes to: the new local id.
module _ (connect : (address : ℕ) → MdsftpResult ℕ) (now : ℕ) where
  abbrev pub connected : MdsftpResult ℕ → MdsftpResult MdsftpConnection
  connected (err e) = err e
  connected (ok local_id) = ok (new_connection local_id now true)

  abbrev pub connect_to : Option ℕ → MdsftpResult MdsftpConnection
  connect_to none = err no_such_node
  connect_to (some address) = connected (connect address)

  unfoldable pub create_connection :
      (target : ℕ) → InternalMdsftpPool → MdsftpResult MdsftpConnection
  create_connection target pool =
      if pool.is_shutting_down
      then err shutting_down
      else connect_to (lookup target pool.node_addr_map)

  abbrev pub keep_new :
      ℕ
      → MdsftpResult MdsftpConnection
      → InternalMdsftpPool
      → InternalMdsftpPool × MdsftpResult MdsftpConnection
  keep_new id (err e) pool = (pool, err e)
  keep_new id (ok c) pool = (insert_connection id c pool, ok c)

  unfoldable pub connect_new :
      ℕ → InternalMdsftpPool → InternalMdsftpPool × MdsftpResult MdsftpConnection
  unfolding create_connection
  connect_new id pool =
      if pool.has_packet_handler
      then keep_new id (create_connection id pool) pool
      else (pool, err no_packet_handler)

  unfoldable pub pick :
      ℕ
      → Option (List MdsftpConnection)
      → InternalMdsftpPool
      → InternalMdsftpPool × MdsftpResult MdsftpConnection
  unfolding connect_new least
  pick id (some (c ∷ cs)) pool = (pool, ok (least c cs))
  pick id _ pool = connect_new id pool

  unfoldable pub get_connection :
      (node_id : ℕ) → InternalMdsftpPool → InternalMdsftpPool × MdsftpResult MdsftpConnection
  unfolding pick
  get_connection node_id pool = pick node_id (lookup node_id pool.connection_map) pool

  -- The connection with this local id is replaced by what it has become.
  abbrev pub replace : MdsftpConnection → List MdsftpConnection → List MdsftpConnection
  replace c [] = []
  replace c (d ∷ cs) = (if d.local_id == c.local_id then c else d) ∷ replace c cs

  abbrev pub store :
      ℕ
      → MdsftpConnection
      → Option (List MdsftpConnection)
      → InternalMdsftpPool
      → InternalMdsftpPool
  store id c none pool = pool
  store id c (some cs) pool = record pool {
    connection_map = insert id (replace c cs) pool.connection_map;
  }

  unfoldable pub channel_on :
      (node_id : ℕ) (tries : List ℕ)
      → InternalMdsftpPool × MdsftpResult MdsftpConnection
      → InternalMdsftpPool × MdsftpResult ℕ
  unfolding create_channel
  channel_on node_id tries (pool, err e) = (pool, err e)
  channel_on node_id tries (pool, ok c) =
      let (internal, id, _) = create_channel tries c.internal in
      (
        store node_id (record c { internal = internal }) (lookup node_id pool.connection_map) pool,
        id,
      )

  unfoldable pub channel :
      (node_id : ℕ) (tries : List ℕ) → InternalMdsftpPool → InternalMdsftpPool × MdsftpResult ℕ
  unfolding get_connection channel_on
  channel node_id tries pool = channel_on node_id tries (get_connection node_id pool)

  -- A connection that another node made.
  unfoldable pub add_connection :
      (id local_id : ℕ) → InternalMdsftpPool → InternalMdsftpPool × MdsftpResult (Unit {0})
  add_connection id local_id pool =
      if pool.is_shutting_down
      then (pool, err shutting_down)
      else if pool.has_packet_handler
      then (insert_connection id (new_connection local_id now false) pool, ok tt)
      else (pool, err no_packet_handler)
