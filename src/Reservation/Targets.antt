-- ===== src/Reservation/Targets.antt =====
-- The choice of the nodes that a file's space is reserved on: `resolve_targets` and
-- `push_most_used`. The storage map of the other nodes is in the order of its iteration.
use meowith.Base.{ℕ, ◌-◌, Bool, false, ◌||◌, List, [], ◌∷◌, ◌++◌, leb, ◌==◌, if◌then◌else◌}
use meowith.Base.Dict.{Dict}

pub data ReservationMode : Type 0 where
  prefer_self_then_most_free prefer_most_free : ReservationMode

-- A stable sort by free space, the most first.
unfoldable pub insert_node : ℕ × ℕ → List (ℕ × ℕ) → List (ℕ × ℕ)
insert_node n [] = n ∷ []
insert_node n (m ∷ ms) = let rest = insert_node n ms in if leb m.1 n.1 then n ∷ m ∷ ms else m ∷ rest

unfoldable pub sort_by_free : List (ℕ × ℕ) → List (ℕ × ℕ)
sort_by_free [] = []
sort_by_free (n ∷ ns) = insert_node n (sort_by_free ns)

-- Whether a node is among the targets.
abbrev pub is_target : ℕ → List (ℕ × ℕ) → Bool
is_target uuid [] = false
is_target uuid ((node, _) ∷ targets) = (node == uuid) || is_target uuid targets

-- One round of the loop of `push_most_used`: the targets, and the size that is left.
unfoldable pub push_node : ℕ × ℕ → List (ℕ × ℕ) × ℕ → List (ℕ × ℕ) × ℕ
push_node (uuid, node_size) (targets, size) =
    if is_target uuid targets
    then (targets, size)
    else if leb node_size size
    then (targets ++ (uuid, node_size) ∷ [], size - node_size)
    else (targets ++ (uuid, size) ∷ [], 0)

unfoldable pub push_nodes : List (ℕ × ℕ) → List (ℕ × ℕ) × ℕ → List (ℕ × ℕ) × ℕ
push_nodes [] s = s
push_nodes (n ∷ nodes) s =
    let rest = push_nodes nodes (push_node n s) in if s.1 == 0 then s else rest

unfoldable pub push_most_used : Dict ℕ → List (ℕ × ℕ) → ℕ → List (ℕ × ℕ) × ℕ
push_most_used node_map targets size = push_nodes (sort_by_free node_map) (targets, size)

-- The targets of a reservation of `size` bytes by the node `me`, and the size that finds no room.
unfoldable pub resolve_targets :
    (me self_free : ℕ) (node_map : Dict ℕ) (size : ℕ) → ReservationMode → List (ℕ × ℕ) × ℕ
resolve_targets me self_free node_map size prefer_self_then_most_free =
    if leb size self_free
    then ((me, size) ∷ [], 0)
    else push_most_used node_map ((me, self_free) ∷ []) (size - self_free)
resolve_targets me self_free node_map size prefer_most_free = push_most_used node_map [] size
