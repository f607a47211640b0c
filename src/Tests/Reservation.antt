-- ===== src/Tests/Reservation.antt =====
-- Reservations of node 1 with two other nodes, whose free space the network knows.
use meowith.Base.{
  ℕ, ◌+◌, ◌≡◌, refl, true, false, none, some, List, [], ◌∷◌, arith, leb, if◌then◌else◌,
}
use meowith.Base.Dict.{Dict, lookup, NodupKeys}
use meowith.Base.Result.{ok, err}
use meowith.Ledger.Ops.{get_available_space, try_reserve}
use meowith.Transfer.Upload.{reserve_error, no_such_node}
use meowith.Reservation.Targets.{
  prefer_self_then_most_free, prefer_most_free, resolve_targets, push_most_used, push_nodes,
  push_node, sort_by_free, insert_node,
}
use meowith.Reservation.Capacity.{sizes, resolve_targets-sizes}
use meowith.Reservation.Fit.{Fit, known_free, resolve_targets-Fit}
use meowith.Reservation.Reserve.{
  Peers, AppState, ReserveFlags, ReservedFragment, insufficient_storage, reserve_chunks,
  reserve_targets, reserve_all, try_reserve_chunk,
}
use meowith.Reservation.Rollback.{SameReservations, Ready}
use meowith.Reservation.Outcome.{reserve_chunks-SameReservations}
use meowith.Reservation.Success.{Covers, reserve_chunks-Covers}
use meowith.Tests.Ledger.{memory, busy}

abbrev answering : Peers
answering = record {
  Net = Dict ℕ;
  channel = λ node net. (net, elim (lookup node net) [ none ↦ err no_such_node | some _ ↦ ok tt ]);
  try_reserve = λ node size file bucket flags net. elim (lookup node net) [
    | none ↦ (net, err no_such_node)
    | some free ↦
        if leb size free then (net, ok (100 + node, 16)) else (net, err (reserve_error free))
  ];
  cancel_reserve = λ node chunk net. net;
  fetch_peer_storage_info = λ net. (net, some net);
}

abbrev storage_map : Dict ℕ
storage_map = (3, 100) ∷ (2, 300) ∷ []

-- `really` is what node 2 has when it is asked.
abbrev node_with : ℕ → AppState memory answering
node_with really = record {
  fragment_ledger = busy;
  node_storage_map = storage_map;
  last_peer_refresh = 0;
  net = (2, really) ∷ (3, 100) ∷ [];
}

abbrev durable_upload : ReserveFlags
durable_upload = record { auto_start = false; durable = true; temp = true; overwrite = false }

storage_map_once : NodupKeys storage_map
unfolding lookup
storage_map_once = (refl, (refl, tt))

targets_run :
    resolve_targets 1 550 storage_map 900 prefer_self_then_most_free
    ≡ ((1, 550) ∷ (2, 300) ∷ (3, 50) ∷ [], 0)
unfolding resolve_targets push_most_used push_nodes push_node sort_by_free insert_node
targets_run = refl

resolve_targets-sizes_example :
    let (targets, rem) = resolve_targets 1 550 storage_map 1000 prefer_self_then_most_free in
    (sizes targets + rem ≡ 1000) × (rem ≡ 50)
resolve_targets-sizes_example =
    resolve_targets-sizes 1 550 storage_map 1000 prefer_self_then_most_free storage_map_once

resolve_targets-Fit_example :
    Fit
      (known_free 1 550 storage_map prefer_most_free)
      (resolve_targets 1 550 storage_map 350 prefer_most_free).0
resolve_targets-Fit_example =
    resolve_targets-Fit 1 550 storage_map 350 prefer_most_free storage_map_once

abbrev reserved_fragments : List ReservedFragment
reserved_fragments =
    record { remote = false; node_id = 1; chunk_id = 9; size = 550; chunk_buffer = 0 }
    ∷ record { remote = true; node_id = 2; chunk_id = 102; size = 250; chunk_buffer = 16 }
    ∷ []

reserve_runs :
    (reserve_chunks 1 30 5 800 7 8 durable_upload prefer_self_then_most_free
      (λ n. 9 + n)
      (node_with 300)).1
    ≡ ok reserved_fragments
unfolding reserve_chunks resolve_targets get_available_space push_most_used push_nodes push_node
    sort_by_free insert_node lookup reserve_all reserve_targets try_reserve_chunk try_reserve
reserve_runs = refl

reserve_chunks-Covers_example : Covers 800 reserved_fragments
reserve_chunks-Covers_example =
    reserve_chunks-Covers 1 30 5 800 7 8 durable_upload prefer_self_then_most_free (λ n. 9 + n)
      (node_with 300) reserved_fragments storage_map_once reserve_runs

busy-Ready : Ready (λ n. 9 + n) busy
unfolding lookup
busy-Ready = record {
  fresh = λ n. ground arith;
  fresh_uncommitted = λ n. ground arith;
  small = omega arith;
}

reserve_fails :
    (reserve_chunks 1 30 5 800 7 8 durable_upload prefer_self_then_most_free
      (λ n. 9 + n)
      (node_with 20)).1
    ≡ err insufficient_storage
unfolding reserve_chunks resolve_targets get_available_space push_most_used push_nodes push_node
    sort_by_free insert_node lookup reserve_all reserve_targets try_reserve_chunk try_reserve
reserve_fails = refl

reserve_chunks-SameReservations_example :
    SameReservations busy
      (reserve_chunks 1 30 5 800 7 8 durable_upload prefer_self_then_most_free
        (λ n. 9 + n)
        (node_with 20)).0.fragment_ledger
reserve_chunks-SameReservations_example =
    reserve_chunks-SameReservations 1 30 5 800 7 8 durable_upload prefer_self_then_most_free
      (λ n. 9 + n) (node_with 20) {e = insufficient_storage} storage_map_once busy-Ready
      reserve_fails
