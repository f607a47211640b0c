-- ===== src/Transfer/Upload.antt =====
-- `mdsftp_upload`: a fragment is cut into packets of `fragment_size` bytes, sent in order with at
-- most `chunk_buffer` of them not acknowledged.
use meowith.Base.{
  ℕ, zero, suc, ◌+◌, ◌-◌, ◌/◌, ◌%◌, ◌^◌, Bool, true, not, ◌&&◌, ◌||◌, Option, none, some, List, [],
  ◌∷◌, ◌++◌, length, take, drop, ltb, leb, ◌==◌, if◌then◌else◌,
}
use meowith.Base.Result.{Result, ok, err}

-- `MDSFTPError`, without the causes that it wraps.
pub data MdsftpError : Type 0 where
  connection_error ssl_error no_such_node address_resolution_error : MdsftpError
  connection_authentication_error no_such_chunk_id reservation_error bad_chunk_range : MdsftpError
  reserve_error : ℕ → MdsftpError
  max_channels interrupted shutting_down remote_error no_packet_handler no_pool internal :
      MdsftpError

abbrev pub MdsftpResult {ℓ} : Type ℓ → Type ℓ
MdsftpResult A = Result MdsftpError A

-- Bytes from `start` up to, and not including, `end`.
pub record ChunkRange : Type 0 where
  pub start : ℕ
  pub end : ℕ

pub record SizeParams : Type 0 where
  pub whole : ℕ
  pub range : Option ChunkRange

-- `ChunkRange::new`.
unfoldable pub new_range : ℕ → ℕ → MdsftpResult ChunkRange
new_range start end =
    if leb end start then err bad_chunk_range else ok (record { start = start; end = end })

unfoldable pub range_size : ChunkRange → ℕ
range_size r = (r.end + (2 ^ 64 - r.start % 2 ^ 64)) % 2 ^ 64

unfoldable pub into_option : ChunkRange → Option ChunkRange
into_option r = if (r.start + r.end) % 2 ^ 64 == 0 then none else some r

unfoldable pub params_size : SizeParams → ℕ
params_size p = elim p.range [ some r ↦ range_size r | none ↦ p.whole ]

unfoldable pub params_offset : SizeParams → ℕ
params_offset p = elim p.range [ some r ↦ r.start | none ↦ 0 ]

pub record Packet : Type 0 where
  pub is_last : Bool
  pub id : ℕ
  pub content : List ℕ

-- What the connection does with a packet and with a flush: `none` if it went out.
pub record Channel : Type 0 where
  pub respond_chunk : Packet → Option MdsftpError
  pub flush_io : Option MdsftpError

-- `read_exact`, on the bytes that the stream still holds.
unfoldable pub read_exact : ℕ → List ℕ → Option (List ℕ × List ℕ)
read_exact n stream = if leb n (length stream) then some (take n stream, drop n stream) else none

abbrev pub u32 : ℕ → ℕ
u32 n = n % 2 ^ 32

-- The first loop on acknowledgements: until `id < recv + chunk_buffer`. The list holds what the
-- receiver will answer; at its end the sender of it is gone.
unfoldable pub await_window : (id chunk_buffer recv : ℕ) → List ℕ → Option (ℕ × List ℕ)
await_window id chunk_buffer recv [] =
    if leb (u32 (recv + chunk_buffer)) id then none else some (recv, [])
await_window id chunk_buffer recv (a ∷ acks) =
    let rest = await_window id chunk_buffer (u32 (a + 1)) acks in
    if leb (u32 (recv + chunk_buffer)) id then rest else some (recv, a ∷ acks)

-- The last loop: until all that was sent is acknowledged.
unfoldable pub await_all : (sent recv : ℕ) → List ℕ → Option (List ℕ)
await_all sent recv [] = if recv == sent then some [] else none
await_all sent recv (a ∷ acks) =
    let rest = await_all sent (u32 (a + 1)) acks in if recv == sent then some (a ∷ acks) else rest

pub record Progress : Type 0 where
  pub stream : List ℕ
  pub recv : ℕ
  pub acks : List ℕ

abbrev pub and_then :
    Packet → List Packet × MdsftpResult Progress → List Packet × MdsftpResult Progress
and_then p (ps, r) = (p ∷ ps, r)

module _ (c : Channel) (fragment_size chunk_buffer : ℕ) where
  -- The `for` loop of `transfer_fragments!`: the packets that went out, and how it ended.
  unfoldable pub send_fragments :
      (n id fragments last : ℕ) → Progress → List Packet × MdsftpResult Progress
  send_fragments zero id fragments last s = ([], ok s)
  send_fragments (suc n) id fragments last s = elim (read_exact fragment_size s.stream) [
    | none ↦ ([], err ssl_error)
    | some (buffer, stream') ↦
        let p : Packet = record {
          is_last = (id + 1 == fragments) && (last == 0);
          id = id;
          content = buffer;
        } in
        elim (c.respond_chunk p) [
          | some e ↦ ([], err e)
          | none ↦ elim (await_window id chunk_buffer s.recv s.acks) [
            | none ↦ (p ∷ [], err interrupted)
            | some (recv', acks') ↦ and_then p (
                send_fragments n (id + 1) fragments last
                  (record { stream = stream'; recv = recv'; acks = acks' }))
          ]
        ]
  ]

  -- The packet after the loop, when the size is no multiple of `fragment_size`, or zero.
  unfoldable pub send_rest : (fragments last : ℕ) → Progress → List Packet × MdsftpResult Progress
  send_rest fragments last s =
      if not (last == 0) || (fragments == 0)
      then elim (read_exact last s.stream) [
        | none ↦ ([], err ssl_error)
        | some (buffer, stream') ↦
            let p : Packet = record { is_last = true; id = fragments; content = buffer } in
            elim (c.respond_chunk p) [
              | some e ↦ ([], err e)
              | none ↦ (p ∷ [], ok (record s { stream = stream' }))
            ]
      ]
      else ([], ok s)

  unfoldable pub finish : (sent : ℕ) → Progress → MdsftpResult (Unit {0})
  finish sent s = elim c.flush_io [
    | some e ↦ err e
    | none ↦ elim (await_all sent s.recv s.acks) [ none ↦ err interrupted | some _ ↦ ok tt ]
  ]

  abbrev pub sent_count : ℕ → ℕ → ℕ
  sent_count fragments last = fragments + (if not (last == 0) || (fragments == 0) then 1 else 0)

  -- The code after the packet of the rest, and after the loop: an error ends the upload.
  abbrev pub after_rest :
      (sent : ℕ)
      → List Packet
      → List Packet × MdsftpResult Progress
      → List Packet × MdsftpResult (Unit {0})
  after_rest sent ps (qs, err e) = (ps ++ qs, err e)
  after_rest sent ps (qs, ok s) = (ps ++ qs, finish sent s)

  abbrev pub after_loop :
      (fragments last : ℕ)
      → List Packet × MdsftpResult Progress
      → List Packet × MdsftpResult (Unit {0})
  after_loop fragments last (ps, err e) = (ps, err e)
  after_loop fragments last (ps, ok s) =
      after_rest (sent_count fragments last) ps (send_rest fragments last s)

  -- `mdsftp_upload` over the bytes of its stream; `seekable` tells the two kinds of stream apart.
  unfoldable pub mdsftp_upload :
      (seekable : Bool) (file : List ℕ) (params : SizeParams) (acks : List ℕ)
      → List Packet × MdsftpResult (Unit {0})
  mdsftp_upload seekable file params acks =
      let size = params_size params in
      let fragments = size / fragment_size in
      let last = size % fragment_size in
      let stream = if seekable then drop (params_offset params) file else file in
      if ltb (2 ^ 32 - 2) fragments
      then ([], err interrupted)
      else after_loop fragments last (
          send_fragments fragments 0 fragments last
            (record { stream = stream; recv = 0; acks = acks }))
