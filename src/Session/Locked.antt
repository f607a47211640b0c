-- ===== src/Session/Locked.antt =====
-- Who may write to a session.
use meowith.Base.{ℕ, ◌≡◌, ◌≢◌, refl, inl, inr, Bool-cases, Option, none, some, arith, ◌==◌}
use meowith.Base.Dict.{lookup, lookup-insert}
use meowith.Base.Result.{ok, err}
use meowith.Reservation.Reserve.{bad_request}
use meowith.Session.State.{
  SessionState, state_to_i8, BucketUploadSession, NodeClientResponse, Sessions, update_if,
  update_session, try_lock_session,
}

abbrev pub db_of : Sessions × BucketUploadSession × NodeClientResponse (Unit {0}) → Sessions
db_of x = x.0

abbrev pub result_of :
    Sessions × BucketUploadSession × NodeClientResponse (Unit {0}) → NodeClientResponse (Unit {0})
result_of x = x.2

-- The row of a session that was updated has the time of the update.
update_if_row :
    (now : ℕ) (s : BucketUploadSession) (o : Option BucketUploadSession) (db : Sessions)
    → result_of (update_if now s o db) ≡ ok tt
    → lookup s.id (db_of (update_if now s o db)) ≡ some (record s { last_access = now })
update_if_row now s none db e = absurd (ground arith)
update_if_row now s (some row) db e =
    ground (arith, lookup-insert s.id s.id (record s { last_access = now }) db)

update_if_refused :
    (now : ℕ) (s row : BucketUploadSession) (db : Sessions)
    → row.last_access ≢ s.last_access
    → (db_of (update_if now s (some row) db) ≡ db)
      × (result_of (update_if now s (some row) db) ≡ err bad_request)
update_if_refused now s row db ne = ground arith

pub try_lock_session_row :
    (s : BucketUploadSession) (now : ℕ) (expected target : SessionState) (db : Sessions)
    → result_of (try_lock_session now expected target s db) ≡ ok tt
    → lookup s.id (db_of (try_lock_session now expected target s db))
      ≡ some (record s { last_access = now; state = state_to_i8 target })
unfolding try_lock_session update_session
try_lock_session_row s now expected target db e =
    elim (Bool-cases (s.state == state_to_i8 expected)) [
      | inl same ↦ rw same (
          update_if_row now (record s { state = state_to_i8 target }) (lookup s.id db) db
            (rw same at e))
      | inr other ↦ absurd (ground arith)
    ]

try_lock_session_refused :
    (s row : BucketUploadSession) (now : ℕ) (expected target : SessionState) (db : Sessions)
    → lookup s.id db ≡ some row
    → row.last_access ≢ s.last_access
    → (db_of (try_lock_session now expected target s db) ≡ db)
      × (result_of (try_lock_session now expected target s db) ≡ err bad_request)
unfolding try_lock_session update_session
try_lock_session_refused s row now expected target db l ne =
    elim (Bool-cases (s.state == state_to_i8 expected)) [
      | inl same ↦
          rw (same, l) (update_if_refused now (record s { state = state_to_i8 target }) row db ne)
      | inr other ↦ rw other (refl, refl)
    ]

-- Two tasks read the same session, and each tries to lock it: when one has succeeded, at a time
-- that is not the one of the last access, the other is refused, whatever the states that it
-- expects and wants, and changes nothing.
pub try_lock_session_once :
    (s : BucketUploadSession) (now now' : ℕ) (expected target expected' target' : SessionState)
    (db : Sessions)
    → now ≢ s.last_access
    → (try_lock_session now expected target s db).2 ≡ ok tt
    → let db' = (try_lock_session now expected target s db).0 in
      ((try_lock_session now' expected' target' s db').0 ≡ db')
      × ((try_lock_session now' expected' target' s db').2 ≡ err bad_request)
try_lock_session_once s now now' expected target expected' target' db ne locked =
    try_lock_session_refused s (record s { last_access = now; state = state_to_i8 target }) now'
      expected' target' _ (try_lock_session_row s now expected target db locked) ne
