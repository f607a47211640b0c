-- ===== src/Channel/Ids.antt =====
-- The ids that the two ends of a connection give to their channels.
use meowith.Base.{
  ℕ, ◌+◌, ◌<◌, ◌≤◌, ◌^◌, ◌≡◌, ◌≢◌, Bool, true, false, none, List, [], ◌∷◌, arith, All,
}
use meowith.Base.Dict.{Dict, lookup, total}
use meowith.Base.Result.{ok}
use meowith.Channel.Pending.{InternalMdsftpChannel}
use meowith.Channel.Connection.{pick_id, generate_id, max_ids}

-- What `gen_range` promises of the numbers it gives.
abbrev pub InRange : ℕ → Type 0
InRange n = (1 ≤ n) × (n < 2_147_483_648)

pick_id-fresh :
    (offset : ℕ) (tries : List ℕ) (m : Dict InternalMdsftpChannel) (id : ℕ)
    → All InRange tries
    → pick_id offset tries m ≡ ok id
    → (lookup id m ≡ none) × (offset < id) × (id < offset + 2_147_483_648)
unfolding pick_id
pick_id-fresh offset [] m id range h = absurd (ground arith)
pick_id-fresh offset (n ∷ ns) m id range h = ground (arith, pick_id-fresh offset ns m id range.1)

-- An id that an end generates is a word but zero that no channel of the end has, if the random
-- numbers are in the range that they are drawn from; and the end has fewer channels than allowed.
pub generate_id-fresh :
    (is_local : Bool) (tries : List ℕ) (m : Dict InternalMdsftpChannel) (id : ℕ)
    → All InRange tries
    → generate_id is_local tries m ≡ ok id
    → (lookup id m ≡ none) × (0 < id) × (id < 2 ^ 32) × (total (λ _. 1) m < max_ids)
unfolding generate_id
generate_id-fresh true tries m id range h = ground (arith, pick_id-fresh 0 tries m id range)
generate_id-fresh false tries m id range h =
    ground (arith, pick_id-fresh 2_147_483_648 tries m id range)

-- The two ends of a connection, of which one is the local one, never generate the same id,
-- whatever channels each of them has.
pub generate_id_apart :
    (tries tries' : List ℕ) (m m' : Dict InternalMdsftpChannel) (id id' : ℕ)
    → All InRange tries
    → All InRange tries'
    → generate_id true tries m ≡ ok id
    → generate_id false tries' m' ≡ ok id'
    → id ≢ id'
unfolding generate_id
generate_id_apart tries tries' m m' id id' range range' h h' =
    ground
      (arith, pick_id-fresh 0 tries m id range, pick_id-fresh 2_147_483_648 tries' m' id' range')
