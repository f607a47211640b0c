-- ===== src/Tests/Transfer.antt =====
-- Uploads and downloads of small files.
use meowith.Base.{
  ℕ, ◌≡◌, refl, true, false, Option, none, some, List, [], ◌∷◌, arith, ◌==◌, if◌then◌else◌,
}
use meowith.Base.Result.{ok, err}
use meowith.Transfer.Upload.{
  Packet, Channel, SizeParams, ChunkRange, mdsftp_upload, send_fragments, send_rest, finish,
  read_exact, await_window, await_all, params_size, params_offset, range_size, interrupted,
}
use meowith.Transfer.Receive.{Receiver, receive_all}
use meowith.Transfer.Packets.{Complete}
use meowith.Transfer.Content.{mdsftp_upload-Complete}
use meowith.Transfer.Completion.{mdsftp_upload_ends}
use meowith.Transfer.Roundtrip.{Received, receive_all-mdsftp_upload}
use meowith.Files.Model.{FileChunk, sort_by_chunk_order, insert_chunk}
use meowith.Files.Download.{download_plan, download_bytes}
use meowith.Files.Ranges.{download_plan-bytes}

abbrev steady : Channel
steady = record { respond_chunk = λ _. none; flush_io = none }

abbrev file : List ℕ
file = 10 ∷ 11 ∷ 12 ∷ 13 ∷ 14 ∷ 15 ∷ 16 ∷ []

-- The bytes 1 to 5 of the file, two to a packet.
abbrev middle : SizeParams
middle = record { whole = 7; range = some (record { start = 1; end = 6 }) }

abbrev packets : List Packet
packets =
    record { is_last = false; id = 0; content = 11 ∷ 12 ∷ [] }
    ∷ record { is_last = false; id = 1; content = 13 ∷ 14 ∷ [] }
    ∷ record { is_last = true; id = 2; content = 15 ∷ [] }
    ∷ []

upload_runs : mdsftp_upload steady 2 1 true file middle (0 ∷ 1 ∷ 2 ∷ []) ≡ (packets, ok tt)
unfolding mdsftp_upload send_fragments send_rest finish read_exact await_window await_all
    params_size params_offset range_size
upload_runs = refl

-- The window of one packet is never opened.
upload_stalls : (mdsftp_upload steady 2 1 true file middle []).1 ≡ err interrupted
unfolding mdsftp_upload send_fragments send_rest finish read_exact await_window await_all
    params_size params_offset range_size
upload_stalls = refl

mdsftp_upload-Complete_example : Complete 5 (11 ∷ 12 ∷ 13 ∷ 14 ∷ 15 ∷ 16 ∷ []) packets
unfolding params_size params_offset range_size
mdsftp_upload-Complete_example =
    mdsftp_upload-Complete steady 2 1 true file middle (0 ∷ 1 ∷ 2 ∷ []) packets (omega arith)
      upload_runs

mdsftp_upload_ends_example : (mdsftp_upload steady 2 1 true file middle (0 ∷ 1 ∷ 2 ∷ [])).1 ≡ ok tt
unfolding params_size params_offset range_size
mdsftp_upload_ends_example =
    mdsftp_upload_ends steady 2 1 true file middle (λ p. refl) refl (omega arith) (omega arith)
      (omega arith) (omega arith)

abbrev receiver : Receiver
receiver = record {
  receive_file_stream = true;
  target = [];
  data_transferred = 0;
  reservation_details = some (4, 5);
  events = [];
}

receive_all-mdsftp_upload_example :
    Received (11 ∷ 12 ∷ 13 ∷ 14 ∷ 15 ∷ []) receiver (receive_all packets receiver)
unfolding params_size params_offset range_size
receive_all-mdsftp_upload_example =
    receive_all-mdsftp_upload steady 2 1 true file middle (0 ∷ 1 ∷ 2 ∷ []) packets receiver
      (omega arith) refl upload_runs

abbrev chunk : ℕ → ℕ → ℕ → FileChunk
chunk id size order = record {
  server_id = 1;
  chunk_id = id;
  chunk_size = size;
  chunk_order = order;
}

-- Stored out of order; chunk 8 is empty.
abbrev chunks : List FileChunk
chunks = chunk 7 3 2 ∷ chunk 8 0 1 ∷ chunk 9 4 0 ∷ []

abbrev content : FileChunk → List ℕ
content c =
    if c.chunk_id == 9
    then 10 ∷ 11 ∷ 12 ∷ 13 ∷ []
    else (if c.chunk_id == 7 then 14 ∷ 15 ∷ 16 ∷ [] else [])

sorted_runs : sort_by_chunk_order chunks ≡ chunk 9 4 0 ∷ chunk 8 0 1 ∷ chunk 7 3 2 ∷ []
unfolding sort_by_chunk_order insert_chunk
sorted_runs = refl

download_plan-bytes_example :
    (plan : List (FileChunk × Option ChunkRange)) × (download_plan chunks (some (2, 4)) ≡ ok plan)
    × (download_bytes content plan ≡ 12 ∷ 13 ∷ 14 ∷ [])
unfolding sort_by_chunk_order insert_chunk
download_plan-bytes_example =
    download_plan-bytes content chunks 2 4 (refl, (refl, (refl, tt))) (omega arith) (omega arith)
