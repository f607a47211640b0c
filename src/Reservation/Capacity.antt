-- ===== src/Reservation/Capacity.antt =====
-- What the chosen targets hold together, and when there is room.
use meowith.Base.{
  ℕ, ◌+◌, ◌-◌, ◌≡◌, ◌≢◌, refl, ◌||◌, none, List, [], ◌∷◌, ◌++◌, arith, ◌==◌, if◌then◌else◌,
}
use meowith.Base.Dict.{Dict, lookup, NodupKeys}
use meowith.Reservation.Targets.{
  ReservationMode, prefer_self_then_most_free, prefer_most_free, insert_node, sort_by_free,
  is_target, push_node, push_nodes, push_most_used, resolve_targets,
}

-- The bytes of all targets.
abbrev pub sizes : List (ℕ × ℕ) → ℕ
sizes [] = 0
sizes ((_, size) ∷ targets) = size + sizes targets

-- The free space of the nodes that are no targets yet.
abbrev pub unused : List (ℕ × ℕ) → List (ℕ × ℕ) → ℕ
unused targets [] = 0
unused targets ((node, free) ∷ nodes) =
    (if is_target node targets then 0 else free) + unused targets nodes

-- The free space that a mode may use.
abbrev pub capacity : (me self_free : ℕ) → Dict ℕ → ReservationMode → ℕ
capacity me self_free node_map prefer_self_then_most_free =
    self_free + unused ((me, self_free) ∷ []) node_map
capacity me self_free node_map prefer_most_free = unused [] node_map

sizes-append : (ts us : List (ℕ × ℕ)) → sizes (ts ++ us) ≡ sizes ts + sizes us
sizes-append [] us = omega arith
sizes-append ((_, size) ∷ ts) us = omega (arith, sizes-append ts us)

pub is_target-append :
    (uuid node size : ℕ) (ts : List (ℕ × ℕ))
    → is_target uuid (ts ++ (node, size) ∷ []) ≡ (is_target uuid ts || (node == uuid))
is_target-append uuid node size [] = ground arith
is_target-append uuid node size ((n, _) ∷ ts) = ground (arith, is_target-append uuid node size ts)

-- A new target that is not among the nodes leaves their free space unused.
unused-append :
    (node size : ℕ) (ts ns : List (ℕ × ℕ))
    → lookup node ns ≡ none
    → unused (ts ++ (node, size) ∷ []) ns ≡ unused ts ns
unfolding lookup
unused-append node size ts [] h = refl
unused-append node size ts ((n, free) ∷ ns) h =
    ground (arith, is_target-append n node size ts, unused-append node size ts ns)

unused-insert_node :
    (ts ns : List (ℕ × ℕ)) (n : ℕ × ℕ) → unused ts (insert_node n ns) ≡ unused ts (n ∷ ns)
unfolding insert_node
unused-insert_node ts [] n = refl
unused-insert_node ts (m ∷ ns) n = ground (arith, unused-insert_node ts ns n)

unused-sort_by_free : (ts ns : List (ℕ × ℕ)) → unused ts (sort_by_free ns) ≡ unused ts ns
unfolding sort_by_free
unused-sort_by_free ts [] = refl
unused-sort_by_free ts (n ∷ ns) =
    ground (arith, unused-insert_node ts (sort_by_free ns) n, unused-sort_by_free ts ns)

lookup-insert_node :
    (k : ℕ) (n : ℕ × ℕ) (ns : List (ℕ × ℕ))
    → lookup k ns ≡ none
    → n.0 ≢ k
    → lookup k (insert_node n ns) ≡ none
unfolding lookup insert_node
lookup-insert_node k n [] h ne = ground arith
lookup-insert_node k n (m ∷ ns) h ne = ground (arith, lookup-insert_node k n ns)

insert_node-NodupKeys :
    (n : ℕ × ℕ) (ns : List (ℕ × ℕ))
    → lookup n.0 ns ≡ none
    → NodupKeys ns
    → NodupKeys (insert_node n ns)
unfolding lookup insert_node
insert_node-NodupKeys n [] h u = (refl, tt)
insert_node-NodupKeys n (m ∷ ns) h u =
    ground (arith, lookup-insert_node m.0 n ns u.0, insert_node-NodupKeys n ns)

sort_by_free-lookup :
    (k : ℕ) (ns : List (ℕ × ℕ)) → lookup k ns ≡ none → lookup k (sort_by_free ns) ≡ none
unfolding lookup sort_by_free
sort_by_free-lookup k [] h = h
sort_by_free-lookup k (n ∷ ns) h =
    ground (arith, sort_by_free-lookup k ns, lookup-insert_node k n (sort_by_free ns))

pub sort_by_free-NodupKeys : (ns : List (ℕ × ℕ)) → NodupKeys ns → NodupKeys (sort_by_free ns)
unfolding sort_by_free
sort_by_free-NodupKeys [] u = tt
sort_by_free-NodupKeys (n ∷ ns) u =
    insert_node-NodupKeys n (sort_by_free ns) (sort_by_free-lookup n.0 ns u.0)
      (sort_by_free-NodupKeys ns u.1)

-- A round moves bytes from the rest to the targets, as many as the node has.
push_node-sizes :
    (n : ℕ × ℕ) (ts : List (ℕ × ℕ)) (size : ℕ)
    → sizes (push_node n (ts, size)).0 + (push_node n (ts, size)).1 ≡ sizes ts + size
unfolding push_node
push_node-sizes n ts size =
    ground (arith, sizes-append ts (n ∷ []), sizes-append ts ((n.0, size) ∷ []))

push_node-rest :
    (n : ℕ × ℕ) (ts : List (ℕ × ℕ)) (size : ℕ)
    → (push_node n (ts, size)).1 ≡ size - (if is_target n.0 ts then 0 else n.1)
unfolding push_node
push_node-rest n ts size = ground arith

push_node-unused :
    (n : ℕ × ℕ) (ts ns : List (ℕ × ℕ)) (size : ℕ)
    → lookup n.0 ns ≡ none
    → unused (push_node n (ts, size)).0 ns ≡ unused ts ns
unfolding push_node
push_node-unused n ts ns size h =
    ground (arith, unused-append n.0 n.1 ts ns h, unused-append n.0 size ts ns h)

push_nodes-sizes :
    (ns ts : List (ℕ × ℕ)) (size : ℕ)
    → sizes (push_nodes ns (ts, size)).0 + (push_nodes ns (ts, size)).1 ≡ sizes ts + size
unfolding push_nodes
push_nodes-sizes [] ts size = refl
push_nodes-sizes (n ∷ ns) ts size =
    let (ts', size') = push_node n (ts, size) in
    ground (arith, push_node-sizes n ts size, push_nodes-sizes ns ts' size')

push_nodes-rest :
    (ns ts : List (ℕ × ℕ)) (size : ℕ)
    → NodupKeys ns
    → (push_nodes ns (ts, size)).1 ≡ size - unused ts ns
unfolding push_nodes
push_nodes-rest [] ts size u = omega arith
push_nodes-rest (n ∷ ns) ts size u =
    let (ts', size') = push_node n (ts, size) in
    ground (
      arith,
      push_node-rest n ts size,
      push_node-unused n ts ns size u.0,
      push_nodes-rest ns ts' size' u.1,
    )

push_most_used-rest :
    (node_map ts : List (ℕ × ℕ)) (size : ℕ)
    → NodupKeys node_map
    → (push_most_used node_map ts size).1 ≡ size - unused ts node_map
unfolding push_most_used
push_most_used-rest node_map ts size u =
    rw (← unused-sort_by_free ts node_map)
      (push_nodes-rest (sort_by_free node_map) ts size (sort_by_free-NodupKeys node_map u))

-- If the storage map has each node once, the targets hold the whole size but for what finds no
-- room, and that is exactly what the size exceeds the free space by, of the other nodes and, in
-- the mode that starts with it, of this node.
pub resolve_targets-sizes :
    (me self_free : ℕ) (node_map : Dict ℕ) (size : ℕ) (mode : ReservationMode)
    → NodupKeys node_map
    → let (targets, rem) = resolve_targets me self_free node_map size mode in
      (sizes targets + rem ≡ size) × (rem ≡ size - capacity me self_free node_map mode)
unfolding resolve_targets push_most_used
resolve_targets-sizes me self_free node_map size prefer_self_then_most_free u = ground (
  arith,
  push_nodes-sizes (sort_by_free node_map) ((me, self_free) ∷ []) (size - self_free),
  push_most_used-rest node_map ((me, self_free) ∷ []) (size - self_free) u,
)
resolve_targets-sizes me self_free node_map size prefer_most_free u = ground (
  arith,
  push_nodes-sizes (sort_by_free node_map) [] size,
  push_most_used-rest node_map [] size u,
)
