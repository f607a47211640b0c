-- ===== src/Transfer/Completion.antt =====
-- An upload to a receiver that acknowledges every packet in order comes to its end.
use meowith.Base.{
  ℕ, zero, suc, ◌+◌, ◌-◌, ◌*◌, ◌/◌, ◌%◌, ◌^◌, ◌≤◌, ◌<◌, ◌≡◌, refl, inl, inr, Bool, true, false, not,
  ◌||◌, none, some, List, [], ◌∷◌, arith, length, take, drop, length-drop, ltb, leb, ◌==◌,
  if◌then◌else◌, Bool-cases,
}
use meowith.Base.Result.{ok}
use meowith.Transfer.Upload.{
  Packet, Channel, Progress, SizeParams, MdsftpResult, read_exact, u32, await_window, await_all,
  send_fragments, send_rest, finish, sent_count, mdsftp_upload, params_size, params_offset,
  after_rest, after_loop,
}

-- The acknowledgements `a`, `a + 1`, … of `k` packets.
abbrev pub acks_from : ℕ → ℕ → List ℕ
acks_from a zero = []
acks_from a (suc k) = a ∷ acks_from (a + 1) k

read_exact_enough :
    (n : ℕ) (xs : List ℕ) → n ≤ length xs → read_exact n xs ≡ some (take n xs, drop n xs)
unfolding read_exact
read_exact_enough n xs h = ground arith

await_window_opens :
    (id chunk_buffer k recv : ℕ)
    → 0 < chunk_buffer
    → recv ≤ id
    → id ≤ recv + k
    → recv + k + chunk_buffer < 2 ^ 32
    → (recv' : ℕ) × (k' : ℕ) × (await_window id chunk_buffer recv (acks_from recv k)
        ≡ some (recv', acks_from recv' k'))
      × (recv' ≤ id)
      × (recv' + k' ≡ recv + k)
unfolding await_window
await_window_opens id cb zero recv pos le ge small = (recv, 0, ground arith, le, refl)
await_window_opens id cb (suc k) recv pos le ge small =
    elim (Bool-cases (leb (u32 (recv + cb)) id)) [
      | inr open' ↦ (recv, suc k, rw (open', await_window) refl, le, refl)
      | inl shut ↦
          let (recv', k', e, le', sum) =
            await_window_opens id cb k (recv + 1) pos (ground arith) (omega arith) (omega arith) in
          (
            recv',
            k',
            rw (shut, await_window) (let w : u32 (recv + 1) ≡ recv + 1 = omega arith in rw w e),
            le',
            omega (arith, sum),
          )
    ]

await_all_ends :
    (k recv sent : ℕ)
    → recv + k ≡ sent
    → sent < 2 ^ 32
    → (rest : List ℕ) × (await_all sent recv (acks_from recv k) ≡ some rest)
unfolding await_all
await_all_ends zero recv sent e small = ([], ground arith)
await_all_ends (suc k) recv sent e small =
    let (rest, f) = await_all_ends k (recv + 1) sent (omega arith) small in
    let w : u32 (recv + 1) ≡ recv + 1 = omega arith in (rest, rw w (rw f (ground arith)))

module _ (c : Channel) (fragment_size chunk_buffer fragments last sent : ℕ)
    (delivers : (p : Packet) → c.respond_chunk p ≡ none) (flushes : c.flush_io ≡ none)
    (pos : 0 < chunk_buffer) (small : sent + chunk_buffer < 2 ^ 32) where
  -- The sender has not run ahead of the acknowledgements that are still to come.
  pub record Ready (id : ℕ) (s : Progress) : Type 0 where
    pub left : ℕ
    pub acks_left : s.acks ≡ acks_from s.recv left
    pub acks_sum : s.recv + left ≡ sent
    pub behind : s.recv ≤ id

  send_fragments-Ready :
      (n id : ℕ) (s : Progress)
      → Ready id s
      → id + n ≤ sent
      → n * fragment_size + last ≤ length s.stream
      → (s' : Progress) × ((send_fragments c fragment_size chunk_buffer n id fragments last s).1
          ≡ ok s')
        × (last ≤ length s'.stream)
        × Ready sent s'
  unfolding send_fragments
  send_fragments-Ready zero id s r le enough = (
    s,
    refl,
    omega arith,
    record {
      left = r.left;
      acks_left = r.acks_left;
      acks_sum = r.acks_sum;
      behind = omega (arith, r.acks_sum);
    },
  )
  send_fragments-Ready (suc n) id s r le enough =
      let (recv', k', e, le', sum) =
        await_window_opens id chunk_buffer r.left s.recv pos r.behind (omega (arith, r.acks_sum))
          (omega (arith, r.acks_sum)) in
      let (s', f, l, r') =
        send_fragments-Ready n (id + 1)
          (record { stream = drop fragment_size s.stream; recv = recv'; acks = acks_from recv' k' })
          (record {
            left = k';
            acks_left = refl;
            acks_sum = omega (arith, sum, r.acks_sum);
            behind = omega arith;
          })
          (omega arith) (omega (arith, length-drop fragment_size s.stream)) in
      (
        s',
        rw (read_exact_enough fragment_size s.stream (omega arith), send_fragments)
            (rw (delivers _) (rw (r.acks_left, e) f)),
        l,
        r',
      )

  finish-ok : (s : Progress) → Ready sent s → finish c fragment_size chunk_buffer sent s ≡ ok tt
  unfolding finish
  finish-ok s r =
      let (rest, e) = await_all_ends r.left s.recv sent r.acks_sum (omega arith) in
      rw (flushes, finish) (rw (r.acks_left, e) refl)

  after_rest-ok :
      (count : ℕ) (ps qs : List Packet) (s : Progress)
      → count ≡ sent
      → Ready sent s
      → (after_rest c fragment_size chunk_buffer count ps (qs, ok s)).1 ≡ ok tt
  after_rest-ok count ps qs s e r = rw e (finish-ok s r)

  after_loop-ok :
      (ps : List Packet) (s : Progress)
      → sent_count c fragment_size chunk_buffer fragments last ≡ sent
      → last ≤ length s.stream
      → Ready sent s
      → (after_loop c fragment_size chunk_buffer fragments last (ps, ok s)).1 ≡ ok tt
  unfolding send_rest
  after_loop-ok ps s count enough r = elim (Bool-cases (not (last == 0) || (fragments == 0))) [
    | inl b ↦
        rw (b, send_rest)
          (rw (read_exact_enough last s.stream enough) (
            rw (delivers _) (
              after_rest-ok (fragments + 1) ps
                (record { is_last = true; id = fragments; content = take last s.stream } ∷ [])
                (record s { stream = drop last s.stream }) (rw b at count)
                (record {
                  left = r.left;
                  acks_left = r.acks_left;
                  acks_sum = r.acks_sum;
                  behind = r.behind;
                }))))
    | inr b ↦ rw (b, send_rest) (after_rest-ok (fragments + 0) ps [] s (rw b at count) r)
  ]

  after_loop-ok_of :
      (out : List Packet × MdsftpResult Progress) (s : Progress)
      → out.1 ≡ ok s
      → sent_count c fragment_size chunk_buffer fragments last ≡ sent
      → last ≤ length s.stream
      → Ready sent s
      → (after_loop c fragment_size chunk_buffer fragments last out).1 ≡ ok tt
  after_loop-ok_of (ps, r) s h count enough ready = rw h (after_loop-ok ps s count enough ready)

-- The number of packets of an upload of `size` bytes.
abbrev pub packet_count : ℕ → ℕ → ℕ
packet_count fragment_size size =
    size / fragment_size
    + (if not (size % fragment_size == 0) || (size / fragment_size == 0) then 1 else 0)

-- An upload comes to its end without an error if the stream has the bytes, the connection takes
-- every packet, and the receiver acknowledges each in order; the window must let one packet out,
-- and the number of packets with the window must fit 32 bits.
pub mdsftp_upload_ends :
    (c : Channel) (fragment_size chunk_buffer : ℕ) (seekable : Bool) (file : List ℕ)
    (params : SizeParams)
    → ((p : Packet) → c.respond_chunk p ≡ none)
    → c.flush_io ≡ none
    → 0 < fragment_size
    → 0 < chunk_buffer
    → packet_count fragment_size (params_size params) + chunk_buffer < 2 ^ 32
    → params_size params ≤ length (if seekable then drop (params_offset params) file else file)
    → (mdsftp_upload c fragment_size chunk_buffer seekable file params
        (acks_from 0 (packet_count fragment_size (params_size params)))).1
      ≡ ok tt
unfolding mdsftp_upload
mdsftp_upload_ends c fragment_size chunk_buffer seekable file params delivers flushes fpos pos small
      enough =
    let n : ℕ = params_size params / fragment_size in
    let m : ℕ = params_size params % fragment_size in
    let sent : ℕ = packet_count fragment_size (params_size params) in
    let (s', e, l, r) =
      send_fragments-Ready c fragment_size chunk_buffer n m sent delivers flushes pos small n 0
        (record {
          stream = if seekable then drop (params_offset params) file else file;
          recv = 0;
          acks = acks_from 0 sent;
        })
        (record { left = sent; acks_left = refl; acks_sum = omega arith; behind = omega arith })
        (omega arith) (omega arith) in
    rw (let f : ltb (2 ^ 32 - 2) n ≡ false = ground arith in f, mdsftp_upload)
      (after_loop-ok_of c fragment_size chunk_buffer n m sent delivers flushes pos small _ s' e refl
        l r)
