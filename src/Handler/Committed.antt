-- ===== src/Handler/Committed.antt =====
-- What the housekeeper leaves of a chunk that was committed (`handle_commit`).
use meowith.Base.{
  ℕ, ◌≡◌, refl, ap, ◌∙◌, true, false, Option, none, some, List, [], ◌∷◌, ◌==◌, All, arith,
  Bool-cases, inl, inr,
}
use meowith.Base.Dict.{Dict, lookup, lookup-remove}
use meowith.Base.Result.{ok, err}
use meowith.Ledger.State.{Env, Ledger, FragmentMeta, CommitInfo, MeowithIoResult}
use meowith.Ledger.Ops.{commit_chunk, delete_chunk, forget_chunk}
use meowith.Ledger.Sweep.{is_stale, stale_uncommitted, sweep_uncommitted, clean_uncommitted}
use meowith.Locking.Table.{Semaphore}
use meowith.Transfer.Upload.{MdsftpError}
use meowith.Wire.Flags.{CommitFlags}
use meowith.Wire.Message.{respond_commit_ok}
use meowith.Handler.State.{World, Io, ◌>>=◌, ◌>>◌, on_ledger, emit, raise, go_on}
use meowith.Handler.Streams.{respond, respond_with, close}
use meowith.Handler.Requests.{commit_ledger, handle_commit}

-- A chunk that waits for no commit is not marked.
stale_uncommitted_other :
    (id now : ℕ) (m : Dict CommitInfo)
    → lookup id m ≡ none
    → All (λ k. (k == id) ≡ false) (stale_uncommitted now m)
unfolding stale_uncommitted lookup
stale_uncommitted_other id now [] h = tt
stale_uncommitted_other id now ((k, info) ∷ m) h = elim (Bool-cases (is_stale now info.access)) [
  | inl stale ↦ rw stale (ground arith, stale_uncommitted_other id now m (ground arith))
  | inr fresh ↦ rw fresh (stale_uncommitted_other id now m (ground arith))
]

module _ {E : Env} where
  abbrev stored : ℕ → Ledger E → Option FragmentMeta
  stored id l = lookup id l.chunk_set

  forget_chunk_other :
      (id k : ℕ) (l : Ledger E) → (k == id) ≡ false → stored id (forget_chunk k l) ≡ stored id l
  forget_chunk_other id k l other = ground (arith, lookup-remove k id l.chunk_set)

  delete_chunk_other :
      (id k : ℕ) (l : Ledger E) → (k == id) ≡ false → stored id (delete_chunk k l).0 ≡ stored id l
  unfolding delete_chunk
  delete_chunk_other id k l other = ground (arith, lookup-remove k id l.chunk_set)

  sweep_uncommitted_other :
      (id : ℕ) (mark : List ℕ) (l : Ledger E)
      → All (λ k. (k == id) ≡ false) mark
      → stored id (sweep_uncommitted mark l).0 ≡ stored id l
  unfolding sweep_uncommitted
  sweep_uncommitted_other id [] l h = refl
  sweep_uncommitted_other id (k ∷ mark) l h =
      others (delete_chunk k l) (delete_chunk_other id k l h.0)
        (λ l'. sweep_uncommitted_other id mark l' h.1)
    where
      others :
          (p : Ledger E × MeowithIoResult (Unit {0}))
          → stored id p.0 ≡ stored id l
          → ((l' : Ledger E) → stored id (sweep_uncommitted mark l').0 ≡ stored id l')
          → stored id
              (elim p.1 as (λ _. Ledger E × MeowithIoResult (Unit {0})) [
                | err e ↦ (p.0, err e)
                | ok _ ↦ sweep_uncommitted mark p.0
              ]).0
            ≡ stored id l
      others (l', err e) same rest = same
      others (l', ok _) same rest = rest l' ∙ same

  commit_chunk_settled :
      (id : ℕ) (l : Ledger E)
      → (lookup id (commit_chunk id l).0.uncommited_map ≡ none)
        × (stored id (commit_chunk id l).0 ≡ stored id l)
  unfolding commit_chunk
  commit_chunk_settled id l = ground (arith, lookup-remove id id l.uncommited_map)

module _ {E : Env} {M : Semaphore} {max_readers : ℕ} (io : Io E) where
  handle_commit-ledger :
      (now chunk_id : ℕ) (flags : CommitFlags) (w : World E M max_readers)
      → flags.final ≡ true
      → (handle_commit io now chunk_id flags w).0.ledger ≡ (commit_chunk chunk_id w.ledger).0
  unfolding handle_commit commit_ledger ◌>>=◌ ◌>>◌ on_ledger respond respond_with close emit raise
      lookup go_on
  handle_commit-ledger now chunk_id flags w final = rw final (answered (io.send respond_commit_ok))
    where
      answered :
          (o : Option MdsftpError)
          → ((respond_with io o respond_commit_ok >> close io (ok tt))
              (record w { ledger = (commit_chunk chunk_id w.ledger).0 })).0.ledger
            ≡ (commit_chunk chunk_id w.ledger).0
      answered none = refl
      answered (some e) = refl

  -- A chunk that is stored is still stored, with the same sizes, when the housekeeper sweeps the
  -- uncommitted chunks at any time after a final commit of it, whatever the other flags of the
  -- commit are, and whether its file could be renamed or not, the answer could be sent, and the
  -- sweep removed the files of other chunks.
  pub handle_commit-clean_uncommitted :
      (now later chunk_id : ℕ) (flags : CommitFlags) (w : World E M max_readers)
      (meta : FragmentMeta)
      → flags.final ≡ true
      → lookup chunk_id w.ledger.chunk_set ≡ some meta
      → let w' = (handle_commit io now chunk_id flags w).0 in
        lookup chunk_id (clean_uncommitted later w'.ledger).0.chunk_set ≡ some meta
  unfolding clean_uncommitted
  handle_commit-clean_uncommitted now later chunk_id flags w meta final there =
      let settled = commit_chunk_settled chunk_id w.ledger in
      let l = (commit_chunk chunk_id w.ledger).0 in
      ap (λ (l : Ledger E). lookup chunk_id (clean_uncommitted later l).0.chunk_set)
        (handle_commit-ledger now chunk_id flags w final)
      ∙ sweep_uncommitted_other chunk_id (stale_uncommitted later l.uncommited_map) l
          (stale_uncommitted_other chunk_id later l.uncommited_map settled.0)
      ∙ settled.1
      ∙ there
