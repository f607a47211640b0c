-- ===== src/Transfer/Roundtrip.antt =====
-- Sender and receiver together.
use mathlib.Core.List.{append_assoc, append-nil}
use meowith.Base.{
  ℕ, ◌+◌, ◌%◌, ◌^◌, ◌<◌, ◌≡◌, Bool, true, false, List, [], ◌∷◌, ◌++◌, arith, length, take, drop,
  length-append, if◌then◌else◌,
}
use meowith.Base.Result.{ok}
use meowith.Transfer.Upload.{Packet, Channel, SizeParams, mdsftp_upload, params_size, params_offset}
use meowith.Transfer.Receive.{
  Receiver, acknowledged, log, write_chunk, handle_file_chunk, receive_all,
}
use meowith.Transfer.Packets.{contents, OnlyLast}
use meowith.Transfer.Content.{mdsftp_upload-Complete}

-- What receiving leaves: the bytes written, the stream closed, the count, the last event.
pub record Received (bytes : List ℕ) (r r' : Receiver) : Type 0 where
  pub written : r'.target ≡ r.target ++ bytes
  pub shut : r'.receive_file_stream ≡ false
  pub counted : r'.data_transferred ≡ (r.data_transferred + length bytes) % 2 ^ 64

receive_all-Received :
    (ps : List Packet) (r : Receiver)
    → OnlyLast ps
    → r.receive_file_stream ≡ true
    → Received (contents ps) r (receive_all ps r)
unfolding receive_all handle_file_chunk
receive_all-Received [] r h o = absurd h
receive_all-Received (p ∷ []) r h o = ground (arith, append-nil p.content)
receive_all-Received (p ∷ q ∷ ps) r h o =
    let ih = receive_all-Received (q ∷ ps) (log (acknowledged p.id) (write_chunk p r)) h.1 o in
    ground (
      arith,
      ih.written,
      ih.shut,
      ih.counted,
      append_assoc r.target p.content (contents (q ∷ ps)),
      length-append p.content (contents (q ∷ ps)),
    )

-- A receiver with an open stream that handles the packets of an upload without an error, in
-- order and without a failure of its own, has written exactly the bytes that were asked for
-- behind what it had, has closed its stream, and has counted them.
pub receive_all-mdsftp_upload :
    (c : Channel) (fragment_size chunk_buffer : ℕ) (seekable : Bool) (file : List ℕ)
    (params : SizeParams) (acks : List ℕ) (ps : List Packet) (r : Receiver)
    → 0 < fragment_size
    → r.receive_file_stream ≡ true
    → mdsftp_upload c fragment_size chunk_buffer seekable file params acks ≡ (ps, ok tt)
    → Received
        (take (params_size params) (if seekable then drop (params_offset params) file else file))
        r
        (receive_all ps r)
receive_all-mdsftp_upload c fragment_size chunk_buffer seekable file params acks ps r pos o h =
    let sent =
      mdsftp_upload-Complete c fragment_size chunk_buffer seekable file params acks ps pos h in
    rw (← sent.bytes) (receive_all-Received ps r sent.only_last o)
