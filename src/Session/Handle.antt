-- ===== src/Session/Handle.antt =====
-- The states of a session: `handle_upload_durable` and `resume_upload_session` of
-- node/src/public/service/file_access_service.rs.
use meowith.Base.{ℕ, Option, none, some, List, [], ◌∷◌, ◌==◌, if◌then◌else◌}
use meowith.Base.Result.{ok, err}
use meowith.Files.Model.{sort_by_chunk_order}
use meowith.Reservation.Reserve.{internal_error, bad_request}
use meowith.Session.State.{
  writing, awaiting_data, timed_out, state_to_i8, BucketUploadSession, NodeClientResponse, Sessions,
  get_session, update_session, try_lock_session, end_session,
}
use meowith.Session.Resume.{position, sum_queries}

-- What the calls of an upload return: the bucket, the sizes of the chunks, the transfers, and the
-- commit of the chunks with the entry of the file; the times of the updates of the notifier, and
-- of the last one.
pub record Answers : Type 0 where
  pub bucket : NodeClientResponse (Unit {0})
  pub queries : List (NodeClientResponse (Option ℕ))
  pub transfers : NodeClientResponse (Unit {0})
  pub commits : NodeClientResponse (Unit {0})
  pub ticks : List ℕ
  pub later : ℕ

-- The end of an upload, which removes the session unless it fails.
unfoldable pub end_upload :
    NodeClientResponse (Unit {0}) → (id : ℕ) → Sessions → Sessions × NodeClientResponse (Unit {0})
unfolding end_session
end_upload (err e) id db = (db, err e)
end_upload (ok _) id db = (end_session id db, ok tt)

-- The updates of the commit notifier, whose errors are ignored.
unfoldable pub notify : List ℕ → BucketUploadSession → Sessions → Sessions × BucketUploadSession
unfolding update_session
notify [] s db = (db, s)
notify (now ∷ ticks) s db = let (db', s', _) = update_session now s db in notify ticks s' db'

abbrev pub failed_update : NodeClientResponse (Unit {0}) → NodeClientResponse (Unit {0})
failed_update (err e) = err e
failed_update (ok _) = err bad_request

unfoldable pub after_transfers :
    Answers
    → NodeClientResponse (Unit {0})
    → BucketUploadSession
    → Sessions
    → Sessions × NodeClientResponse (Unit {0})
unfolding update_session end_upload
after_transfers a (err _) s db =
    let (db', _, r) = update_session a.later (record s { state = state_to_i8 timed_out }) db in
    (db', failed_update r)
after_transfers a (ok _) s db = end_upload a.commits s.id db

unfoldable pub transfer_rest :
    Answers
    → Option (ℕ × ℕ)
    → BucketUploadSession
    → Sessions
    → Sessions × NodeClientResponse (Unit {0})
unfolding notify after_transfers
transfer_rest a none s db = (db, err internal_error)
transfer_rest a (some _) s db =
    let (db', s') = notify a.ticks s db in after_transfers a a.transfers s' db'

unfoldable pub after_queries :
    Answers
    → NodeClientResponse ℕ
    → BucketUploadSession
    → Sessions
    → Sessions × NodeClientResponse (Unit {0})
unfolding end_upload transfer_rest position
after_queries a (err e) s db = (db, err e)
after_queries a (ok uploaded) s db =
    if uploaded == s.size
    then end_upload a.commits s.id db
    else transfer_rest a (position 0 uploaded 0 (sort_by_chunk_order s.fragments)) s db

unfoldable pub after_lock :
    Answers
    → Sessions × BucketUploadSession × NodeClientResponse (Unit {0})
    → Sessions × NodeClientResponse (Unit {0})
unfolding after_queries
after_lock a (db, s, err e) = (db, err e)
after_lock a (db, s, ok _) = after_queries a (sum_queries a.queries) s db

unfoldable pub with_bucket :
    (now : ℕ)
    → Answers
    → NodeClientResponse (Unit {0})
    → BucketUploadSession
    → Sessions
    → Sessions × NodeClientResponse (Unit {0})
unfolding try_lock_session after_lock
with_bucket now a (err e) s db = (db, err e)
with_bucket now a (ok _) s db = after_lock a (try_lock_session now awaiting_data writing s db)

abbrev pub with_session :
    NodeClientResponse BucketUploadSession
    → (BucketUploadSession → Sessions → Sessions × NodeClientResponse (Unit {0}))
    → Sessions
    → Sessions × NodeClientResponse (Unit {0})
with_session (err e) k db = (db, err e)
with_session (ok s) k db = k s db

unfoldable pub handle_upload_durable :
    (now id : ℕ) → Answers → Sessions → Sessions × NodeClientResponse (Unit {0})
unfolding get_session with_bucket
handle_upload_durable now id a db =
    with_session (get_session id db) (λ s. with_bucket now a a.bucket s) db

-- The sum of the sizes of the chunks is the answer to the client.
abbrev pub lock_result :
    NodeClientResponse (Unit {0}) → NodeClientResponse ℕ → NodeClientResponse (Unit {0})
lock_result (err e) uploaded = err e
lock_result (ok _) (err e) = err e
lock_result (ok _) (ok _) = ok tt

unfoldable pub resume_upload_session :
    (now id : ℕ) → Answers → Sessions → Sessions × NodeClientResponse (Unit {0})
unfolding get_session try_lock_session
resume_upload_session now id a db =
    with_session (get_session id db)
      (λ s db.
        let (db', s', r) = try_lock_session now timed_out awaiting_data s db in
        (db', lock_result r (sum_queries a.queries)))
      db
