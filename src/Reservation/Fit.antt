-- ===== src/Reservation/Fit.antt =====
-- Each target is a node of its own, and has the room that is asked of it.
use meowith.Base.{
  ℕ, ◌-◌, ◌≤◌, ◌≡◌, ◌≢◌, refl, sym, ◌∙◌, inl, inr, Bool-cases, false, Option, none, some, List, [],
  ◌∷◌, ◌++◌, arith, All, leb, ◌==◌, if◌then◌else◌,
}
use meowith.Base.Dict.{Dict, lookup, NodupKeys}
use meowith.Reservation.Targets.{
  ReservationMode, prefer_self_then_most_free, prefer_most_free, insert_node, sort_by_free,
  is_target, push_node, push_nodes, push_most_used, resolve_targets,
}
use meowith.Reservation.Capacity.{is_target-append, sort_by_free-NodupKeys}

-- A node has room for its target: by `free`, `none` for a node that is not known.
abbrev pub HasRoom : (ℕ → Option ℕ) → ℕ × ℕ → Type 0
HasRoom free (node, size) = (f : ℕ) × (free node ≡ some f) × (size ≤ f)

-- The free space of this node, by its own ledger, and of the others, by the map.
abbrev pub known_free : (me self_free : ℕ) → Dict ℕ → ReservationMode → ℕ → Option ℕ
known_free me self_free node_map prefer_self_then_most_free node =
    if node == me then some self_free else lookup node node_map
known_free me self_free node_map prefer_most_free node = lookup node node_map

HasRoom-snoc :
    (free : ℕ → Option ℕ) (ts : List (ℕ × ℕ)) (t : ℕ × ℕ)
    → All (HasRoom free) ts
    → HasRoom free t
    → All (HasRoom free) (ts ++ t ∷ [])
HasRoom-snoc free [] t h p = (p, tt)
HasRoom-snoc free (u ∷ ts) t h p = (h.0, HasRoom-snoc free ts t h.1 p)

lookup-snoc :
    (k node size : ℕ) (ts : List (ℕ × ℕ))
    → lookup k ts ≡ none
    → node ≢ k
    → lookup k (ts ++ (node, size) ∷ []) ≡ none
unfolding lookup
lookup-snoc k node size [] h ne = ground arith
lookup-snoc k node size ((n, _) ∷ ts) h ne = ground (arith, lookup-snoc k node size ts)

-- A node that is no target may become one.
snoc-NodupKeys :
    (node size : ℕ) (ts : List (ℕ × ℕ))
    → is_target node ts ≡ false
    → NodupKeys ts
    → NodupKeys (ts ++ (node, size) ∷ [])
unfolding lookup
snoc-NodupKeys node size [] h u = (refl, tt)
snoc-NodupKeys node size ((n, _) ∷ ts) h u =
    ground (arith, lookup-snoc n node size ts u.0, snoc-NodupKeys node size ts)

-- Targets that are distinct and have room.
pub record Fit (free : ℕ → Option ℕ) (ts : List (ℕ × ℕ)) : Type 0 where
  pub distinct : NodupKeys ts
  pub room : All (HasRoom free) ts

push_node-Fit :
    (free : ℕ → Option ℕ) (n : ℕ × ℕ) (ts : List (ℕ × ℕ)) (size : ℕ)
    → (is_target n.0 ts ≡ false → free n.0 ≡ some n.1)
    → Fit free ts
    → Fit free (push_node n (ts, size)).0
unfolding push_node
push_node-Fit free n ts size known h = elim (Bool-cases (is_target n.0 ts)) [
  | inl e ↦ rw e h
  | inr e ↦ elim (Bool-cases (leb n.1 size)) [
    | inl l ↦
        rw (e, l)
          (record {
            distinct = snoc-NodupKeys n.0 n.1 ts e h.distinct;
            room = HasRoom-snoc free ts n h.room (n.1, known e, omega arith);
          })
    | inr l ↦
        rw (e, l)
          (record {
            distinct = snoc-NodupKeys n.0 size ts e h.distinct;
            room = HasRoom-snoc free ts (n.0, size) h.room (n.1, known e, ground arith);
          })
  ]
]

is_target-push_node :
    (k : ℕ) (n : ℕ × ℕ) (ts : List (ℕ × ℕ)) (size : ℕ)
    → is_target k (push_node n (ts, size)).0 ≡ false
    → is_target k ts ≡ false
unfolding push_node
is_target-push_node k n ts size h =
    ground (arith, is_target-append k n.0 n.1 ts, is_target-append k n.0 size ts)

-- The free space of the nodes still to come is known where they are no targets.
abbrev Known : (ℕ → Option ℕ) → List (ℕ × ℕ) → List (ℕ × ℕ) → Type 0
Known free ns ts = (k f : ℕ) → lookup k ns ≡ some f → is_target k ts ≡ false → free k ≡ some f

Known-tail :
    (free : ℕ → Option ℕ) (n : ℕ × ℕ) (ns ts : List (ℕ × ℕ)) (size : ℕ)
    → lookup n.0 ns ≡ none
    → Known free (n ∷ ns) ts
    → Known free ns (push_node n (ts, size)).0
unfolding lookup
Known-tail free n ns ts size u known k f e fresh =
    ground (arith, known k f, is_target-push_node k n ts size fresh)

push_nodes-Fit :
    (free : ℕ → Option ℕ) (ns ts : List (ℕ × ℕ)) (size : ℕ)
    → NodupKeys ns
    → Known free ns ts
    → Fit free ts
    → Fit free (push_nodes ns (ts, size)).0
unfolding push_nodes lookup
push_nodes-Fit free [] ts size u known h = h
push_nodes-Fit free (n ∷ ns) ts size u known h = elim (Bool-cases (size == 0)) [
  | inl e ↦ rw e h
  | inr e ↦ rw e (
      push_nodes-Fit free ns (push_node n (ts, size)).0 (push_node n (ts, size)).1 u.1
        (Known-tail free n ns ts size u.0 known)
        (push_node-Fit free n ts size (known n.0 n.1 (ground arith)) h))
]

lookup-insert_node_new :
    (k : ℕ) (n : ℕ × ℕ) (ns : List (ℕ × ℕ))
    → lookup n.0 ns ≡ none
    → lookup k (insert_node n ns) ≡ (if n.0 == k then some n.1 else lookup k ns)
unfolding lookup insert_node
lookup-insert_node_new k n [] h = refl
lookup-insert_node_new k n (m ∷ ns) h = ground (arith, lookup-insert_node_new k n ns)

lookup-sort_by_free :
    (k : ℕ) (ns : List (ℕ × ℕ)) → NodupKeys ns → lookup k (sort_by_free ns) ≡ lookup k ns
unfolding lookup sort_by_free
lookup-sort_by_free k [] u = refl
lookup-sort_by_free k (n ∷ ns) u = ground (
  arith,
  lookup-insert_node_new k n (sort_by_free ns),
  lookup-sort_by_free n.0 ns u.1,
  lookup-sort_by_free k ns u.1,
)

push_most_used-Fit :
    (free : ℕ → Option ℕ) (node_map ts : List (ℕ × ℕ)) (size : ℕ)
    → NodupKeys node_map
    → Known free node_map ts
    → Fit free ts
    → Fit free (push_most_used node_map ts size).0
unfolding push_most_used
push_most_used-Fit free node_map ts size u known h =
    push_nodes-Fit free (sort_by_free node_map) ts size (sort_by_free-NodupKeys node_map u)
      (λ k f e fresh. known k f (sym (lookup-sort_by_free k node_map u) ∙ e) fresh) h

-- If the storage map has each node once, no node is a target twice, and each has the free space
-- that is asked of it: this node by its ledger if the mode starts with it, and every other by the
-- storage map.
pub resolve_targets-Fit :
    (me self_free : ℕ) (node_map : Dict ℕ) (size : ℕ) (mode : ReservationMode)
    → NodupKeys node_map
    → Fit
        (known_free me self_free node_map mode)
        (resolve_targets me self_free node_map size mode).0
unfolding resolve_targets lookup
resolve_targets-Fit me self_free node_map size prefer_self_then_most_free u =
    elim (Bool-cases (leb size self_free)) [
      | inl e ↦
          rw e
            (record { distinct = (refl, tt); room = ((self_free, ground arith, ground arith), tt) })
      | inr e ↦ rw e (
          push_most_used-Fit (known_free me self_free node_map prefer_self_then_most_free) node_map
            ((me, self_free) ∷ []) (size - self_free) u (λ k f l fresh. ground arith)
            (record { distinct = (refl, tt); room = ((self_free, ground arith, omega arith), tt) }))
    ]
resolve_targets-Fit me self_free node_map size prefer_most_free u =
    push_most_used-Fit (known_free me self_free node_map prefer_most_free) node_map [] size u
      (λ k f l fresh. l) (record { distinct = tt; room = tt })
