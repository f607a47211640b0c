-- ===== src/Tests/Session.antt =====
-- A durable upload of nine bytes to two chunks.
use meowith.Base.{ℕ, ◌≡◌, refl, true, false, none, some, List, [], ◌∷◌, arith}
use meowith.Base.Dict.{lookup}
use meowith.Base.Result.{ok, err}
use meowith.Files.Model.{FileChunk}
use meowith.Reservation.Reserve.{internal_error, bad_request}
use meowith.Session.State.{
  BucketUploadSession, Sessions, writing, awaiting_data, try_lock_session, update_session,
}
use meowith.Session.Resume.{after, position, transfer_all, upload_rest, upload_after, upload}
use meowith.Session.Transfers.{Ends}
use meowith.Session.Resumed.{upload-Ends}
use meowith.Session.Handle.{Answers, handle_upload_durable}
use meowith.Session.Locked.{try_lock_session_once}
use meowith.Session.Stuck.{uploads, resumes, attempt_all, query_failed_stuck}

abbrev chunk : (server_id chunk_id chunk_size chunk_order : ℕ) → FileChunk
chunk server_id chunk_id chunk_size chunk_order = record {
  server_id = server_id;
  chunk_id = chunk_id;
  chunk_size = chunk_size;
  chunk_order = chunk_order;
}

abbrev chunks : List FileChunk
chunks = chunk 1 11 4 0 ∷ chunk 2 12 5 1 ∷ []

abbrev file : List ℕ
file = 1 ∷ 2 ∷ 3 ∷ 4 ∷ 5 ∷ 6 ∷ 7 ∷ 8 ∷ 9 ∷ []

-- Six bytes are there: the first chunk is full, and the second has two. The transfer of the second
-- is interrupted after one byte more.
upload-Ends_example : Ends 6 file chunks (some (after 1) ∷ []) (
    upload 9 chunks
      (ok (some 4) ∷ ok (some 2) ∷ [])
      ((1 ∷ 2 ∷ 3 ∷ 4 ∷ []) ∷ (5 ∷ 6 ∷ []) ∷ [])
      (7 ∷ 8 ∷ 9 ∷ [])
      (some (after 1) ∷ []))
upload-Ends_example =
    upload-Ends 6 file chunks (ok (some 4) ∷ ok (some 2) ∷ []) (some (after 1) ∷ []) refl
      (omega arith) refl

upload_test :
    upload 9 chunks
      (ok (some 4) ∷ ok (some 2) ∷ [])
      ((1 ∷ 2 ∷ 3 ∷ 4 ∷ []) ∷ (5 ∷ 6 ∷ []) ∷ [])
      (7 ∷ 8 ∷ 9 ∷ [])
      []
    ≡ ((1 ∷ 2 ∷ 3 ∷ 4 ∷ []) ∷ (5 ∷ 6 ∷ 7 ∷ 8 ∷ 9 ∷ []) ∷ [], ok tt)
unfolding upload upload_after upload_rest position transfer_all
upload_test = refl

abbrev session : BucketUploadSession
session = record {
  app_id = 1;
  bucket = 2;
  id = 3;
  file_id = 4;
  size = 9;
  durable = true;
  fragments = chunks;
  last_access = 50;
  state = 2;
}

abbrev sessions : Sessions
sessions = (3, session) ∷ []

try_lock_session_once_example :
    let db = (try_lock_session 60 awaiting_data writing session sessions).0 in
    ((try_lock_session 61 awaiting_data writing session db).0 ≡ db)
    × ((try_lock_session 61 awaiting_data writing session db).2 ≡ err bad_request)
unfolding try_lock_session update_session lookup
try_lock_session_once_example =
    try_lock_session_once session 60 61 awaiting_data writing awaiting_data writing sessions
      (omega arith) refl

-- The node of the second chunk cannot be reached.
abbrev unreachable_node : Answers
unreachable_node = record {
  bucket = ok tt;
  queries = ok (some 4) ∷ err internal_error ∷ [];
  transfers = ok tt;
  commits = ok tt;
  ticks = [];
  later = 70;
}

abbrev all_good : Answers
all_good = record unreachable_node { queries = ok (some 4) ∷ ok none ∷ [] }

query_failed_stuck_example :
    let (db, r) = handle_upload_durable 60 3 unreachable_node sessions in
    (r ≡ err internal_error)
    × (attempt_all 3 (uploads 80 all_good ∷ resumes 90 all_good ∷ []) db ≡ (db, false))
unfolding lookup
query_failed_stuck_example =
    query_failed_stuck 3 60 unreachable_node internal_error
      (uploads 80 all_good ∷ resumes 90 all_good ∷ []) session sessions refl refl refl refl refl
