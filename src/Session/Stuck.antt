-- ===== src/Session/Stuck.antt =====
-- A session that nobody may write to any more.
use meowith.Base.{
  ℕ, ◌≡◌, refl, subst, sym, ap, ◌∙◌, Bool, true, false, ◌||◌, some, List, [], ◌∷◌, arith, ◌==◌,
}
use meowith.Base.Dict.{lookup}
use meowith.Base.Result.{ok, err}
use meowith.Reservation.Reserve.{NodeClientError}
use meowith.Session.State.{
  writing, awaiting_data, timed_out, state_to_i8, BucketUploadSession, NodeClientResponse, Sessions,
  get_session, update_session, try_lock_session,
}
use meowith.Session.Resume.{sum_queries}
use meowith.Session.Handle.{
  Answers, after_queries, after_lock, with_bucket, with_session, handle_upload_durable,
  resume_upload_session,
}
use meowith.Session.Locked.{result_of, db_of, try_lock_session_row}

-- What a client tries with a session.
pub data Attempt : Type 0 where
  uploads resumes : (now : ℕ) → Answers → Attempt

abbrev pub accepted : NodeClientResponse (Unit {0}) → Bool
accepted (ok _) = true
accepted (err _) = false

unfoldable pub attempt : (id : ℕ) → Attempt → Sessions → Sessions × NodeClientResponse (Unit {0})
unfolding handle_upload_durable resume_upload_session
attempt id (uploads now a) db = handle_upload_durable now id a db
attempt id (resumes now a) db = resume_upload_session now id a db

-- The attempts, and whether any was accepted.
unfoldable pub attempt_all : (id : ℕ) → List Attempt → Sessions → Sessions × Bool
unfolding attempt
attempt_all id [] db = (db, false)
attempt_all id (e ∷ es) db =
    let (db', r) = attempt id e db in
    let (db'', any) = attempt_all id es db' in (db'', accepted r || any)

get_session_found :
    (id : ℕ) (s : BucketUploadSession) (db : Sessions)
    → lookup id db ≡ some s
    → get_session id db ≡ ok s
unfolding get_session
get_session_found id s db e = rw e refl

with_bucket_refused :
    (now : ℕ) (a : Answers) (b : NodeClientResponse (Unit {0})) (s : BucketUploadSession)
    (db : Sessions)
    → s.state ≡ state_to_i8 writing
    → ((with_bucket now a b s db).0 ≡ db) × (accepted (with_bucket now a b s db).1 ≡ false)
unfolding with_bucket try_lock_session after_lock
with_bucket_refused now a (err e) s db w = (refl, refl)
with_bucket_refused now a (ok _) s db w =
    let other : (s.state == state_to_i8 awaiting_data) ≡ false = ground arith in
    rw other (refl, refl)

attempt_refused :
    (id : ℕ) (e : Attempt) (s : BucketUploadSession) (db : Sessions)
    → lookup id db ≡ some s
    → s.state ≡ state_to_i8 writing
    → ((attempt id e db).0 ≡ db) × (accepted (attempt id e db).1 ≡ false)
unfolding attempt handle_upload_durable resume_upload_session try_lock_session
attempt_refused id (uploads now a) s db l w =
    rw (get_session_found id s db l) (with_bucket_refused now a a.bucket s db w)
attempt_refused id (resumes now a) s db l w =
    let other : (s.state == state_to_i8 timed_out) ≡ false = ground arith in
    rw (get_session_found id s db l) (rw other (refl, refl))

attempt_all_refused :
    (id : ℕ) (es : List Attempt) (s : BucketUploadSession) (db : Sessions)
    → lookup id db ≡ some s
    → s.state ≡ state_to_i8 writing
    → attempt_all id es db ≡ (db, false)
unfolding attempt_all
attempt_all_refused id [] s db l w = refl
attempt_all_refused id (e ∷ es) s db l w =
    let (same, refused) = attempt_refused id e s db l w in
    (λ i. let (db'', any) = attempt_all id es (same i) in (db'', refused i || any))
    ∙ attempt_all_refused id es s db l w

after_lock_failed :
    (a : Answers) (e : NodeClientError)
    (x : Sessions × BucketUploadSession × NodeClientResponse (Unit {0}))
    → sum_queries a.queries ≡ err e
    → result_of x ≡ ok tt
    → after_lock a x ≡ (x.0, err e)
unfolding after_lock after_queries
after_lock_failed a e (db, s, r) q l =
    ap (λ o. after_lock a (db, s, o)) l ∙ ap (λ o. after_queries a o s db) q

lock_ok :
    (now : ℕ) (s : BucketUploadSession) (db : Sessions)
    → lookup s.id db ≡ some s
    → s.state ≡ state_to_i8 awaiting_data
    → result_of (try_lock_session now awaiting_data writing s db) ≡ ok tt
unfolding try_lock_session update_session
lock_ok now s db l w =
    let same : (s.state == state_to_i8 awaiting_data) ≡ true = ground arith in
    let fresh : (s.last_access == s.last_access) ≡ true = ground arith in
    rw (same, l) (rw fresh refl)

handle_upload_failed :
    (id now : ℕ) (a : Answers) (e : NodeClientError) (s : BucketUploadSession) (db : Sessions)
    → lookup id db ≡ some s
    → s.id ≡ id
    → s.state ≡ state_to_i8 awaiting_data
    → a.bucket ≡ ok tt
    → sum_queries a.queries ≡ err e
    → handle_upload_durable now id a db
      ≡ (db_of (try_lock_session now awaiting_data writing s db), err e)
unfolding handle_upload_durable with_bucket
handle_upload_failed id now a e s db l same w b q =
    ap (λ o. with_session o (λ s. with_bucket now a a.bucket s) db) (get_session_found id s db l)
    ∙ ap (λ o. with_bucket now a o s db) b
    ∙ after_lock_failed a e (try_lock_session now awaiting_data writing s db) q
        (lock_ok now s db (subst (λ i. lookup i db ≡ some s) (sym same) l) w)

-- An upload takes the lock of its session, and a chunk cannot be asked for its size: the upload
-- fails with that error, and from then on every upload to the session, and every attempt to resume
-- it, is refused and changes nothing, while its row is there.
pub query_failed_stuck :
    (id now : ℕ) (a : Answers) (e : NodeClientError) (es : List Attempt) (s : BucketUploadSession)
    (db : Sessions)
    → lookup id db ≡ some s
    → s.id ≡ id
    → s.state ≡ state_to_i8 awaiting_data
    → a.bucket ≡ ok tt
    → sum_queries a.queries ≡ err e
    → let (db', r) = handle_upload_durable now id a db in
      (r ≡ err e) × (attempt_all id es db' ≡ (db', false))
query_failed_stuck id now a e es s db l same w b q =
    let locked = db_of (try_lock_session now awaiting_data writing s db) in
    let own = lock_ok now s db (subst (λ i. lookup i db ≡ some s) (sym same) l) w in
    let row = try_lock_session_row s now awaiting_data writing db own in
    let written = record s { last_access = now; state = state_to_i8 writing } in
    let refused =
      attempt_all_refused id es written locked
        (subst (λ i. lookup i locked ≡ some written) same row) refl in
    subst
      (λ (x : Sessions × NodeClientResponse (Unit {0})).
        (x.1 ≡ err e) × (attempt_all id es x.0 ≡ (x.0, false)))
      (sym (handle_upload_failed id now a e s db l same w b q)) (refl, refused)
