-- ===== src/Session/State.antt =====
-- Upload sessions: node/src/public/service/durable_transfer_session_manager.rs, over the table of
-- sessions in the database (data/src/access/file_access.rs).
use meowith.Base.{
  ℕ, ◌+◌, ◌-◌, ◌*◌, Bool, true, false, Option, none, some, List, [], ◌∷◌, leb, ◌==◌, if◌then◌else◌,
}
use meowith.Base.Dict.{Dict, lookup, insert, remove}
use meowith.Base.Result.{Result, ok, err}
use meowith.Files.Model.{FileChunk}
use meowith.Reservation.Reserve.{NodeClientError, internal_error, bad_request, no_such_session}

pub data SessionState : Type 0 where
  writing awaiting_data timed_out : SessionState

abbrev pub state_to_i8 : SessionState → ℕ
state_to_i8 writing = 1
state_to_i8 awaiting_data = 2
state_to_i8 timed_out = 3

-- Times are milliseconds, as the database keeps them.
pub record BucketUploadSession : Type 0 where
  pub app_id : ℕ
  pub bucket : ℕ
  pub id : ℕ
  pub file_id : ℕ
  pub size : ℕ
  pub durable : Bool
  pub fragments : List FileChunk
  pub last_access : ℕ
  pub state : ℕ

abbrev pub NodeClientResponse : Type 0 → Type 0
NodeClientResponse A = Result NodeClientError A

-- The sessions of a bucket, by their ids.
abbrev pub Sessions : Type 0
Sessions = Dict BucketUploadSession

unfoldable pub start_session : BucketUploadSession → Sessions → Sessions × NodeClientResponse ℕ
start_session s db = (insert s.id s db, ok s.id)

unfoldable pub get_session : (id : ℕ) → Sessions → NodeClientResponse BucketUploadSession
get_session id db = found (lookup id db)
  where
    found : Option BucketUploadSession → NodeClientResponse BucketUploadSession
    found none = err no_such_session
    found (some s) = ok s

-- `try_update_upload_session`: the row is written if it still has the time of access that was read;
-- if it has another one, the session takes that.
abbrev pub update_if :
    (now : ℕ)
    → BucketUploadSession
    → Option BucketUploadSession
    → Sessions
    → Sessions × BucketUploadSession × NodeClientResponse (Unit {0})
update_if now s none db = (db, record s { last_access = now }, err internal_error)
update_if now s (some row) db =
    if row.last_access == s.last_access
    then (insert s.id (record s { last_access = now }) db, record s { last_access = now }, ok tt)
    else (db, record s { last_access = row.last_access }, err bad_request)

unfoldable pub update_session :
    (now : ℕ)
    → BucketUploadSession
    → Sessions
    → Sessions × BucketUploadSession × NodeClientResponse (Unit {0})
update_session now s db = update_if now s (lookup s.id db) db

unfoldable pub try_lock_session :
    (now : ℕ) (expected target : SessionState)
    → BucketUploadSession
    → Sessions
    → Sessions × BucketUploadSession × NodeClientResponse (Unit {0})
unfolding update_session
try_lock_session now expected target s db =
    if s.state == state_to_i8 expected
    then update_session now (record s { state = state_to_i8 target }) db
    else (db, s, err bad_request)

unfoldable pub end_session : (id : ℕ) → Sessions → Sessions
end_session id db = remove id db

-- In milliseconds.
abbrev pub validity : Bool → ℕ
validity true = 3600 * 1000
validity false = 2 * 60 * 1000

-- Whether the session is valid; one that is not is removed.
unfoldable pub validate_session : (now : ℕ) → BucketUploadSession → Sessions → Sessions × Bool
unfolding end_session
validate_session now s db =
    if leb (now - s.last_access) (validity s.durable)
    then (db, true)
    else (end_session s.id db, false)

-- The sizes of the sessions that are valid, as the stream gives them.
unfoldable pub reserved_of : (now : ℕ) → List BucketUploadSession → Sessions → Sessions × ℕ
unfolding validate_session
reserved_of now [] db = (db, 0)
reserved_of now (s ∷ ss) db =
    let (db', valid) = validate_session now s db in
    let (db'', total) = reserved_of now ss db' in (db'', if valid then s.size + total else total)

abbrev pub rows : Sessions → List BucketUploadSession
rows [] = []
rows ((_, s) ∷ db) = s ∷ rows db

unfoldable pub get_reserved_space : (now : ℕ) → Sessions → Sessions × ℕ
unfolding reserved_of
get_reserved_space now db = reserved_of now (rows db) db
