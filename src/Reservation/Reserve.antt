-- ===== src/Reservation/Reserve.antt =====
-- `reserve_chunks`: reserve on every target, and cancel what was reserved if one of them fails.
use meowith.Base.{
  ℕ, ◌-◌, ◌/◌, Bool, true, false, ◌&&◌, Option, none, some, List, [], ◌∷◌, ◌++◌, length, leb, ltb,
  ◌==◌, if◌then◌else◌,
}
use meowith.Base.Dict.{Dict, insert}
use meowith.Base.Result.{Result, ok, err}
use meowith.Ledger.State.{Env, Ledger, MeowithIoError, insufficient_disk_space, MeowithIoResult}
use meowith.Ledger.Ops.{get_available_space, try_reserve, cancel_reservation}
use meowith.Transfer.Upload.{MdsftpError, MdsftpResult, reservation_error, reserve_error, internal}
use meowith.Reservation.Targets.{ReservationMode, resolve_targets}

pub record ReserveFlags : Type 0 where
  pub auto_start : Bool
  pub durable : Bool
  pub temp : Bool
  pub overwrite : Bool

-- `NodeClientError`, without the messages.
pub data NodeClientError : Type 0 where
  internal_error bad_request bad_resource_path not_found entity_exists : NodeClientError
  no_such_session bad_auth insufficient_storage protocol_error not_empty : NodeClientError
  range_unsatisfiable : NodeClientError

-- `remote` tells whether the fragment has a channel.
pub record ReservedFragment : Type 0 where
  pub remote : Bool
  pub node_id : ℕ
  pub chunk_id : ℕ
  pub size : ℕ
  pub chunk_buffer : ℕ

-- What goes over the network: channels of the pool, the answers of the other nodes on them, and
-- the controller's list of the peers' free space.
pub record Peers : Type 1 where
  pub Net : Type 0
  pub channel : (node_id : ℕ) → Net → Net × MdsftpResult (Unit {0})
  pub try_reserve :
      (node_id size file_id bucket_id : ℕ) → ReserveFlags → Net → Net × MdsftpResult (ℕ × ℕ)
  pub cancel_reserve : (node_id chunk_id : ℕ) → Net → Net
  pub fetch_peer_storage_info : Net → Net × Option (List (ℕ × ℕ))

-- The part of `AppState` that a reservation changes.
pub record AppState (E : Env) (P : Peers) : Type 0 where
  pub fragment_ledger : Ledger E
  pub node_storage_map : Dict ℕ
  pub last_peer_refresh : ℕ
  pub net : P.Net

abbrev pub insert_all : List (ℕ × ℕ) → Dict ℕ → Dict ℕ
insert_all [] m = m
insert_all ((peer, storage) ∷ peers) m = insert_all peers (insert peer storage m)

abbrev pub local_error : MeowithIoError → MdsftpError
local_error insufficient_disk_space = reservation_error
local_error _ = internal

-- The free space that a node without room answers.
abbrev pub full_node : MdsftpError → Option ℕ
full_node (reserve_error free_space) = some free_space
full_node _ = none

-- `signed_duration_since(last).num_seconds() >= interval`, rounded towards zero.
abbrev pub refresh_due : (heart_beat_interval_seconds now last : ℕ) → Bool
refresh_due heart_beat_interval_seconds now last =
    if leb last now
    then leb heart_beat_interval_seconds ((now - last) / 1_000_000_000)
    else (heart_beat_interval_seconds == 0) && ltb (last - now) 1_000_000_000

-- `me` is this node's id, and the call reads the clock as `now` throughout.
module _ {E : Env} {P : Peers} (me heart_beat_interval_seconds now : ℕ) where
  unfoldable pub refresh_peer_data : AppState E P → AppState E P × Result NodeClientError (Unit {0})
  refresh_peer_data s =
      let (net', r) = P.fetch_peer_storage_info s.net in
      elim r [
        | none ↦ (record s { net = net' }, err internal_error)
        | some peers ↦ (
          record s {
            net = net';
            node_storage_map = insert_all peers s.node_storage_map;
            last_peer_refresh = now;
          },
          ok tt,
        )
      ]

  unfoldable pub safe_refresh_peer_data : AppState E P → AppState E P × Result NodeClientError Bool
  unfolding refresh_peer_data
  safe_refresh_peer_data s =
      if refresh_due heart_beat_interval_seconds now s.last_peer_refresh
      then (let (s', r) = refresh_peer_data (record s { last_peer_refresh = now }) in
          (s', elim r [ ok _ ↦ ok true | err e ↦ err e ]))
      else (s, ok false)

  -- What the answer of this node's ledger means.
  abbrev pub local_answer :
      (size : ℕ)
      → Ledger E × MeowithIoResult ℕ
      → AppState E P
      → AppState E P × MdsftpResult ReservedFragment
  local_answer size (l, ok id) s = (
    record s { fragment_ledger = l },
    ok (record { remote = false; node_id = me; chunk_id = id; size = size; chunk_buffer = 0 }),
  )
  local_answer size (l, err e) s = (record s { fragment_ledger = l }, err (local_error e))

  -- The local half of `try_reserve_chunk`; `new_id` is the uuid that the ledger makes.
  abbrev pub reserve_local :
      (size bucket_id file_id : ℕ)
      → ReserveFlags
      → (new_id : ℕ) → AppState E P
      → AppState E P × MdsftpResult ReservedFragment
  reserve_local size bucket_id file_id flags new_id s =
      local_answer size
        (try_reserve size bucket_id file_id flags.durable new_id now s.fragment_ledger) s

  -- An error of another node; a node that is full tells its free space.
  abbrev pub reserve_failed :
      (node_id : ℕ)
      → MdsftpError
      → Option ℕ
      → AppState E P
      → AppState E P × MdsftpResult ReservedFragment
  reserve_failed node_id e none s = (s, err e)
  reserve_failed node_id e (some free_space) s = (
    record s { node_storage_map = insert node_id free_space s.node_storage_map },
    err reservation_error,
  )

  -- What the answer of another node means.
  abbrev pub reserve_answer :
      (node_id size : ℕ)
      → MdsftpResult (ℕ × ℕ)
      → AppState E P
      → AppState E P × MdsftpResult ReservedFragment
  reserve_answer node_id size (ok (chunk_id, chunk_buffer)) s = (
    s,
    ok (record {
      remote = true;
      node_id = node_id;
      chunk_id = chunk_id;
      size = size;
      chunk_buffer = chunk_buffer;
    }),
  )
  reserve_answer node_id size (err e) s = reserve_failed node_id e (full_node e) s

  -- On the channel that the pool has, or not.
  abbrev pub reserve_on :
      (node_id size bucket_id file_id : ℕ)
      → ReserveFlags
      → P.Net × MdsftpResult (Unit {0})
      → AppState E P
      → AppState E P × MdsftpResult ReservedFragment
  reserve_on node_id size bucket_id file_id flags (net, err e) s = (record s { net = net }, err e)
  reserve_on node_id size bucket_id file_id flags (net, ok _) s =
      let (net', r) = P.try_reserve node_id size file_id bucket_id flags net in
      reserve_answer node_id size r (record s { net = net' })

  abbrev pub reserve_remote :
      (node_id size bucket_id file_id : ℕ)
      → ReserveFlags
      → AppState E P
      → AppState E P × MdsftpResult ReservedFragment
  reserve_remote node_id size bucket_id file_id flags s =
      reserve_on node_id size bucket_id file_id flags (P.channel node_id s.net) s

  unfoldable pub try_reserve_chunk :
      (node_id size bucket_id file_id : ℕ)
      → ReserveFlags
      → (new_id : ℕ) → AppState E P
      → AppState E P × MdsftpResult ReservedFragment
  try_reserve_chunk node_id size bucket_id file_id flags new_id s =
      if node_id == me
      then reserve_local size bucket_id file_id flags new_id s
      else reserve_remote node_id size bucket_id file_id flags s

  -- The loop over the targets: the fragments that were reserved, and whether all were.
  unfoldable pub reserve_targets :
      (bucket_id file_id : ℕ)
      → ReserveFlags
      → (new_id : ℕ → ℕ) → List (ℕ × ℕ)
      → List ReservedFragment
      → AppState E P
      → AppState E P × List ReservedFragment × Bool
  unfolding try_reserve_chunk
  reserve_targets bucket_id file_id flags new_id [] fragments s = (s, fragments, true)
  reserve_targets bucket_id file_id flags new_id ((node_id, size) ∷ targets) fragments s =
      let (s', r) =
        try_reserve_chunk node_id size bucket_id file_id flags (new_id (length fragments)) s in
      elim r [
        | err _ ↦ (s', fragments, false)
        | ok f ↦ reserve_targets bucket_id file_id flags new_id targets (fragments ++ f ∷ []) s'
      ]

  abbrev pub cancel_fragment : ReservedFragment → AppState E P → AppState E P
  cancel_fragment f s =
      if f.remote
      then record s { net = P.cancel_reserve f.node_id f.chunk_id s.net }
      else record s { fragment_ledger = (cancel_reservation f.chunk_id s.fragment_ledger).0 }

  unfoldable pub cancel_fragments : List ReservedFragment → AppState E P → AppState E P
  cancel_fragments [] s = s
  cancel_fragments (f ∷ fragments) s = cancel_fragments fragments (cancel_fragment f s)

  abbrev pub targets_of : ℕ → ReservationMode → AppState E P → List (ℕ × ℕ) × ℕ
  targets_of size mode s =
      resolve_targets me (get_available_space s.fragment_ledger) s.node_storage_map size mode

  -- The match on the result of the loop.
  abbrev pub settle :
      AppState E P × List ReservedFragment × Bool
      → AppState E P × Result NodeClientError (List ReservedFragment)
  settle (s, fragments, true) = (s, ok fragments)
  settle (s, fragments, false) = (cancel_fragments fragments s, err insufficient_storage)

  -- From the targets on: reserve, and if one target fails cancel the others.
  unfoldable pub reserve_all :
      (bucket_id file_id : ℕ)
      → ReserveFlags
      → (new_id : ℕ → ℕ) → List (ℕ × ℕ)
      → AppState E P
      → AppState E P × Result NodeClientError (List ReservedFragment)
  unfolding reserve_targets
  reserve_all bucket_id file_id flags new_id targets s =
      settle (reserve_targets bucket_id file_id flags new_id targets [] s)

  -- The second attempt of `reserve_chunks` to find targets, after a refresh.
  abbrev pub retry_targets :
      (size bucket_id file_id : ℕ)
      → ReserveFlags
      → ReservationMode
      → (new_id : ℕ → ℕ) → AppState E P
      → AppState E P × Result NodeClientError (List ReservedFragment)
  retry_targets size bucket_id file_id flags mode new_id s =
      let (targets, rem) = targets_of size mode s in
      if ltb 0 rem
      then (s, err insufficient_storage)
      else reserve_all bucket_id file_id flags new_id targets s

  -- Without a refresh there is no second attempt.
  abbrev pub after_refresh :
      (size bucket_id file_id : ℕ)
      → ReserveFlags
      → ReservationMode
      → (new_id : ℕ → ℕ) → AppState E P × Result NodeClientError Bool
      → AppState E P × Result NodeClientError (List ReservedFragment)
  after_refresh size bucket_id file_id flags mode new_id (s, err e) = (s, err e)
  after_refresh size bucket_id file_id flags mode new_id (s, ok false) =
      (s, err insufficient_storage)
  after_refresh size bucket_id file_id flags mode new_id (s, ok true) =
      retry_targets size bucket_id file_id flags mode new_id s

  unfoldable pub reserve_chunks :
      (size bucket_id file_id : ℕ)
      → ReserveFlags
      → ReservationMode
      → (new_id : ℕ → ℕ) → AppState E P
      → AppState E P × Result NodeClientError (List ReservedFragment)
  unfolding safe_refresh_peer_data reserve_all
  reserve_chunks size bucket_id file_id flags mode new_id s =
      let (targets, rem) = targets_of size mode s in
      if ltb 0 rem
      then after_refresh size bucket_id file_id flags mode new_id (safe_refresh_peer_data s)
      else reserve_all bucket_id file_id flags new_id targets s
