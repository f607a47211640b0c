-- ===== src/Transfer/Content.antt =====
-- What the packets of an upload hold: the requested bytes, cut, numbered and flagged.
use mathlib.Core.List.{append_assoc, append-nil}
use meowith.Base.{
  ℕ, zero, suc, ◌+◌, ◌-◌, ◌*◌, ◌/◌, ◌%◌, ◌^◌, ◌≤◌, ◌<◌, ◌≡◌, refl, ap, subst, ◌∙◌, ◌≢◌, ◌⊎◌, inl,
  inr, Bool, true, false, not, ◌&&◌, ◌||◌, some, List, [], ◌∷◌, ◌++◌, arith, length, take, drop,
  All, length-append, length-take, take-append-drop, ltb, ◌==◌, if◌then◌else◌, Bool-cases,
  Option-cases,
}
use meowith.Base.Result.{ok, err}
use meowith.Transfer.Upload.{
  Packet, Channel, Progress, SizeParams, MdsftpResult, read_exact, await_window, send_fragments,
  send_rest, finish, mdsftp_upload, params_size, params_offset, and_then, after_rest, after_loop,
}
use meowith.Transfer.Packets.{
  contents-append, Numbered-append, OnlyLast-snoc, read_exact-some, complete, contents, Numbered,
  OnlyLast, Complete, Uploaded,
}

module _ (c : Channel) (fragment_size chunk_buffer fragments last : ℕ) where
  -- What the loop sent when it ran to its end.
  pub record Cut (n id : ℕ) (before : List ℕ) (ps : List Packet) (after : List ℕ) : Type 0 where
    pub bytes : contents ps ++ after ≡ before
    pub count : length ps ≡ n
    pub numbered : Numbered id ps
    pub sizes : All (λ p. length p.content ≡ fragment_size) ps
    pub flags : All (λ p. p.is_last ≡ ((p.id + 1 == fragments) && (last == 0))) ps

  abbrev Sent : (n id : ℕ) → List ℕ → List Packet × MdsftpResult Progress → Type 0
  Sent n id before (ps, ok s) = Cut n id before ps s.stream
  Sent n id before (ps, err e) = Unit

  and_then-Sent :
      (n id : ℕ) (before : List ℕ) (p : Packet) (r : List Packet × MdsftpResult Progress)
      → p.content ≡ take fragment_size before
      → fragment_size ≤ length before
      → p.id ≡ id
      → p.is_last ≡ ((id + 1 == fragments) && (last == 0))
      → Sent n (id + 1) (drop fragment_size before) r
      → Sent (suc n) id before (and_then p r)
  and_then-Sent n id before p (ps, err e) pc le pid pl h = tt
  and_then-Sent n id before p (ps, ok s) pc le pid pl h = record {
    bytes =
        append_assoc p.content (contents ps) s.stream
        ∙ rw (h.bytes, pc) (take-append-drop fragment_size before);
    count = omega (arith, h.count);
    numbered = (pid, h.numbered);
    sizes = (rw pc (omega (arith, length-take fragment_size before)), h.sizes);
    flags = (rw pid pl, h.flags);
  }

  send_fragments-Sent :
      (n id : ℕ) (s : Progress)
      → Sent n id s.stream (send_fragments c fragment_size chunk_buffer n id fragments last s)
  unfolding send_fragments
  send_fragments-Sent zero id s = record {
    bytes = refl;
    count = refl;
    numbered = tt;
    sizes = tt;
    flags = tt;
  }
  send_fragments-Sent (suc n) id s = elim (Option-cases (read_exact fragment_size s.stream)) [
    | inl e ↦ rw (e, send_fragments) tt
    | inr ((buffer, stream'), e) ↦
        let p : Packet = record {
          is_last = (id + 1 == fragments) && (last == 0);
          id = id;
          content = buffer;
        } in
        let f = read_exact-some fragment_size s.stream buffer stream' e in
        elim (Option-cases (c.respond_chunk p)) [
          | inr (x, g) ↦ rw (e, send_fragments) (rw g tt)
          | inl g ↦ elim (Option-cases (await_window id chunk_buffer s.recv s.acks)) [
            | inl k ↦ rw (e, send_fragments) (rw g (rw k tt))
            | inr ((recv', acks'), k) ↦
                rw (e, send_fragments)
                  (rw g (
                    rw k (
                      and_then-Sent n id s.stream p _ f.0 f.2 refl refl (
                        rw (← f.1) (
                          send_fragments-Sent n (id + 1)
                            (record { stream = stream'; recv = recv'; acks = acks' }))))))
          ]
        ]
  ]

  -- In a loop over fewer than all fragments, or before a rest, no packet is flagged.
  unflagged :
      (id : ℕ) (ps : List Packet)
      → last ≢ 0 ⊎ (id + length ps < fragments)
      → Numbered id ps
      → All (λ p. p.is_last ≡ ((p.id + 1 == fragments) && (last == 0))) ps
      → All (λ p. p.is_last ≡ false) ps
  unflagged id [] h k f = tt
  unflagged id (p ∷ ps) h k f = (ground arith, unflagged (id + 1) ps (ground arith) k.1 f.1)

  -- In the whole loop, with no rest to send, the last packet is flagged.
  flagged :
      (id : ℕ) (ps : List Packet)
      → last ≡ 0
      → id + length ps ≡ fragments
      → id < fragments
      → Numbered id ps
      → All (λ p. p.is_last ≡ ((p.id + 1 == fragments) && (last == 0))) ps
      → OnlyLast ps
  flagged id [] z e lt k f = absurd (omega arith)
  flagged id (p ∷ []) z e lt k f = ground arith
  flagged id (p ∷ q ∷ ps) z e lt k f =
      (ground arith, flagged (id + 1) (q ∷ ps) z (omega arith) (omega arith) k.1 f.1)

  length-contents :
      (ps : List Packet)
      → All (λ p. length p.content ≡ fragment_size) ps
      → length (contents ps) ≡ length ps * fragment_size
  length-contents [] h = omega arith
  length-contents (p ∷ ps) h =
      omega (arith, length-append p.content (contents ps), h.0, length-contents ps h.1)

  -- The packets of the loop with the packet of the rest.
  Cut-rest :
      (before : List ℕ) (ps : List Packet) (s : Progress) (buffer stream' : List ℕ)
      → Cut fragments 0 before ps s.stream
      → read_exact last s.stream ≡ some (buffer, stream')
      → last ≢ 0 ⊎ (fragments ≡ 0)
      → Complete
          (fragments * fragment_size + last)
          before
          (ps ++ record { is_last = true; id = fragments; content = buffer } ∷ [])
  Cut-rest before ps s buffer stream' h e some_rest =
      complete _ before stream' (ps ++ p ∷ [])
        (rw contents-append (
          append_assoc (contents ps) (buffer ++ []) stream'
          ∙ rw (append-nil, f.0, f.1, take-append-drop) h.bytes))
        (rw contents-append (
          omega (
            arith,
            length-append (contents ps) (contents (p ∷ [])),
            length-append buffer [],
            length-contents ps h.sizes,
            ap (λ (k : ℕ). k * fragment_size) h.count,
            ap length f.0,
            length-take last s.stream,
            f.2,
          )))
        (Numbered-append 0 ps (p ∷ []) h.numbered (omega (arith, h.count), tt))
        (OnlyLast-snoc ps p (none_flagged some_rest) refl)
    where
      p : Packet
      p = record { is_last = true; id = fragments; content = buffer }

      f : (buffer ≡ take last s.stream) × (stream' ≡ drop last s.stream) × (last ≤ length s.stream)
      f = read_exact-some last s.stream buffer stream' e

      none_flagged : last ≢ 0 ⊎ (fragments ≡ 0) → All (λ q. q.is_last ≡ false) ps
      none_flagged (inl ne) = unflagged 0 ps (inl ne) h.numbered h.flags
      none_flagged (inr z) = empty ps (omega (arith, h.count))
        where
          empty : (qs : List Packet) → length qs ≡ 0 → All (λ q. q.is_last ≡ false) qs
          empty [] l = tt
          empty (q ∷ qs) l = absurd (omega arith)

  after_rest-Uploaded :
      (size sent : ℕ) (before : List ℕ) (ps qs : List Packet) (s : Progress)
      → Complete size before (ps ++ qs)
      → Uploaded size before (after_rest c fragment_size chunk_buffer sent ps (qs, ok s))
  after_rest-Uploaded size sent before ps qs s h = go (finish c fragment_size chunk_buffer sent s)
    where
      go : (r : MdsftpResult (Unit {0})) → Uploaded size before (ps ++ qs, r)
      go (ok _) = h
      go (err _) = tt

  no_rest : (not (last == 0) || (fragments == 0)) ≡ false → (last ≡ 0) × (0 < fragments)
  no_rest b = ground arith

  after_loop-Uploaded :
      (before : List ℕ) (r : List Packet × MdsftpResult Progress)
      → Sent fragments 0 before r
      → Uploaded
          (fragments * fragment_size + last)
          before
          (after_loop c fragment_size chunk_buffer fragments last r)
  unfolding send_rest
  after_loop-Uploaded before (ps, err e) h = tt
  after_loop-Uploaded before (ps, ok s) h =
      elim (Bool-cases (not (last == 0) || (fragments == 0))) [
        | inl b ↦ elim (Option-cases (read_exact last s.stream)) [
          | inl e ↦ rw (b, send_rest) (rw e tt)
          | inr ((buffer, stream'), e) ↦
              let p : Packet = record { is_last = true; id = fragments; content = buffer } in
              elim (Option-cases (c.respond_chunk p)) [
                | inr (x, g) ↦ rw (b, send_rest) (rw e (rw g tt))
                | inl g ↦
                    rw (b, send_rest)
                      (rw e (
                        rw g (
                          after_rest-Uploaded _ _ before ps (p ∷ []) (record s { stream = stream' })
                            (Cut-rest before ps s buffer stream' h e (ground arith)))))
              ]
        ]
        | inr b ↦
            rw (b, send_rest)
              (after_rest-Uploaded _ _ before ps [] s (
                rw append-nil (
                  complete _ before s.stream ps h.bytes
                    (omega (
                      arith,
                      length-contents ps h.sizes,
                      ap (λ (k : ℕ). k * fragment_size) h.count,
                      no_rest b,
                    ))
                    h.numbered
                    (flagged 0 ps (no_rest b).0 (omega (arith, h.count)) (no_rest b).1 h.numbered
                      h.flags))))
      ]

  loop-Uploaded :
      (size : ℕ) (s : Progress)
      → size ≡ fragments * fragment_size + last
      → Uploaded size s.stream (
          after_loop c fragment_size chunk_buffer fragments last
            (send_fragments c fragment_size chunk_buffer fragments 0 fragments last s))
  loop-Uploaded size s e = rw e (after_loop-Uploaded s.stream _ (send_fragments-Sent fragments 0 s))

mdsftp_upload-Uploaded :
    (c : Channel) (fragment_size chunk_buffer : ℕ) (seekable : Bool) (file : List ℕ)
    (params : SizeParams) (acks : List ℕ)
    → 0 < fragment_size
    → Uploaded
        (params_size params)
        (if seekable then drop (params_offset params) file else file)
        (mdsftp_upload c fragment_size chunk_buffer seekable file params acks)
unfolding mdsftp_upload
mdsftp_upload-Uploaded c fragment_size chunk_buffer seekable file params acks pos =
    elim (Bool-cases (ltb (2 ^ 32 - 2) (params_size params / fragment_size))) [
      | inl b ↦ rw (b, mdsftp_upload) tt
      | inr b ↦
          rw (b, mdsftp_upload)
            (loop-Uploaded c fragment_size chunk_buffer (params_size params / fragment_size)
              (params_size params % fragment_size) (params_size params)
              (record {
                stream = if seekable then drop (params_offset params) file else file;
                recv = 0;
                acks = acks;
              })
              (omega arith))
    ]

-- An upload that returns without an error has sent exactly the bytes that were asked for: the
-- packets hold, in order, the first `size` bytes of the stream (which the stream had), they are
-- numbered from zero, and the last of them alone is flagged, whatever was acknowledged when.
pub mdsftp_upload-Complete :
    (c : Channel) (fragment_size chunk_buffer : ℕ) (seekable : Bool) (file : List ℕ)
    (params : SizeParams) (acks : List ℕ) (ps : List Packet)
    → 0 < fragment_size
    → mdsftp_upload c fragment_size chunk_buffer seekable file params acks ≡ (ps, ok tt)
    → Complete (params_size params) (if seekable then drop (params_offset params) file else file) ps
mdsftp_upload-Complete c fragment_size chunk_buffer seekable file params acks ps pos h =
    subst
      (Uploaded (params_size params) (if seekable then drop (params_offset params) file else file))
      h (mdsftp_upload-Uploaded c fragment_size chunk_buffer seekable file params acks pos)
