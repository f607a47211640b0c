-- ===== src/Channel/Stopped.antt =====
-- What a pool with stopped connections does with a new channel.
use meowith.Base.{
  ℕ, ◌<◌, ◌≤◌, ◌≡◌, ap, ◌∙◌, inl, inr, true, false, Bool-cases, some, List, [], ◌∷◌, ◌++◌, arith,
  All, ltb, if◌then◌else◌,
}
use meowith.Base.Dict.{lookup}
use meowith.Base.Result.{ok, err}
use meowith.Transfer.Upload.{MdsftpResult, connection_error}
use meowith.Channel.Connection.{create_channel, created_if, generate_id}
use meowith.Channel.Pool.{
  MdsftpConnection, channel_count, InternalMdsftpPool, least, pick, get_connection, channel_on,
  channel,
}

pick_less : (b c : MdsftpConnection) → MdsftpConnection
pick_less b c = if ltb (channel_count c) (channel_count b) then c else b

pick_less-le :
    (b c : MdsftpConnection)
    → (channel_count (pick_less b c) ≤ channel_count b)
      × (channel_count (pick_less b c) ≤ channel_count c)
unfolding pick_less
pick_less-le b c = elim (Bool-cases (ltb (channel_count c) (channel_count b))) [
  | inl less ↦ rw less (ground arith, omega arith)
  | inr more ↦ rw more (omega arith, ground arith)
]

-- The connection that is picked has no more channels than any other of the node, and is one of
-- them.
least-le :
    (best : MdsftpConnection) (cs : List MdsftpConnection)
    → All (λ c. channel_count (least best cs) ≤ channel_count c) (best ∷ cs)
unfolding least pick_less
least-le best [] = (omega arith, tt)
least-le best (c ∷ cs) =
    let (le, others) = least-le (pick_less best c) cs in
    let (le_best, le_c) = pick_less-le best c in
    (omega (arith, le, le_best), (omega (arith, le, le_c), others))

least-All :
    (P : MdsftpConnection → Type 0) (best : MdsftpConnection) (cs : List MdsftpConnection)
    → P best
    → All P cs
    → P (least best cs)
unfolding least
least-All P best [] p ps = p
least-All P best (c ∷ cs) p ps = elim (Bool-cases (ltb (channel_count c) (channel_count best))) [
  | inl less ↦ rw less (least-All P c cs ps.0 ps.1)
  | inr more ↦ rw more (least-All P best cs p ps.1)
]

All-middle :
    (P : MdsftpConnection → Type 0) (before after : List MdsftpConnection) (c : MdsftpConnection)
    → All P (before ++ c ∷ after)
    → P c
All-middle P [] after c h = h.0
All-middle P (b ∷ before) after c h = All-middle P before after c h.1

-- A connection that runs has channels.
abbrev pub InUse : MdsftpConnection → Type 0
InUse c = c.internal.reader.running ≡ true → 0 < channel_count c

create_channel_stopped :
    (connect : ℕ → MdsftpResult ℕ) (now node_id : ℕ) (tries : List ℕ) (c : MdsftpConnection)
    (pool : InternalMdsftpPool)
    → c.internal.reader.running ≡ false
    → (channel_on connect now node_id tries (pool, ok c)).1 ≡ err connection_error
unfolding channel_on create_channel created_if
create_channel_stopped connect now node_id tries c pool e =
    ap
      (λ b.
        (created_if b c.internal.is_closing
          (generate_id c.internal.is_local tries c.internal.reader.conn_map) c.internal).1)
      e

-- If a connection of the pool to a node has no channels, and each of its connections to the node
-- that runs has one, then every new channel to the node is asked of a connection that has stopped,
-- and fails with a connection error.
pub channel_stopped :
    (connect : ℕ → MdsftpResult ℕ) (now node_id : ℕ) (tries : List ℕ) (pool : InternalMdsftpPool)
    (before after : List MdsftpConnection) (stopped : MdsftpConnection)
    → lookup node_id pool.connection_map ≡ some (before ++ stopped ∷ after)
    → channel_count stopped ≡ 0
    → All InUse (before ++ stopped ∷ after)
    → (channel connect now node_id tries pool).1 ≡ err connection_error
unfolding channel get_connection pick
channel_stopped connect now node_id tries pool before after stopped l empty in_use =
    ap (λ o. (channel_on connect now node_id tries (pick connect now node_id o pool)).1) l
    ∙ picked before empty in_use
  where
    stops :
        (c : MdsftpConnection) (cs : List MdsftpConnection)
        → channel_count (least c cs) ≤ 0
        → All InUse (c ∷ cs)
        → (least c cs).internal.reader.running ≡ false
    stops c cs none_left used = elim (Bool-cases (least c cs).internal.reader.running) [
      | inl up ↦ absurd (omega (arith, least-All InUse c cs used.0 used.1 up))
      | inr down ↦ down
    ]

    picked :
        (before : List MdsftpConnection)
        → channel_count stopped ≡ 0
        → All InUse (before ++ stopped ∷ after)
        → (channel_on connect now node_id tries
            (pick connect now node_id (some (before ++ stopped ∷ after)) pool)).1
          ≡ err connection_error
    picked [] z used =
        create_channel_stopped connect now node_id tries (least stopped after) pool
          (stops stopped after (omega (arith, (least-le stopped after).0)) used)
    picked (b ∷ bs) z used =
        create_channel_stopped connect now node_id tries (least b (bs ++ stopped ∷ after)) pool (
          stops b (bs ++ stopped ∷ after)
            (omega (
              arith,
              All-middle (λ c. channel_count (least b (bs ++ stopped ∷ after)) ≤ channel_count c)
                  (b ∷ bs) after stopped (least-le b (bs ++ stopped ∷ after)),
            ))
            used)
