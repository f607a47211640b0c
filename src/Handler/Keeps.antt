-- ===== src/Handler/Keeps.antt =====
-- What an operation of a handler keeps true of the ledger, put together from its parts.
use meowith.Base.{ℕ, Bool, true, false, if◌then◌else◌}
use meowith.Base.Result.{ok, err}
use meowith.Ledger.State.{Env, Ledger, MeowithIoResult}
use meowith.Ledger.Balance.{Accounted}
use meowith.Locking.Table.{Semaphore}
use meowith.Transfer.Upload.{MdsftpResult, MdsftpError}
use meowith.Handler.State.{World, Op, pure, raise, ◌>>=◌, ◌>>◌, go_on, gets, on_ledger, or_error}

module _ {E : Env} {M : Semaphore} {max_readers : ℕ} where
  -- What holds before the operation holds after it, also if it ends with an error.
  pub record Keeps (P : World E M max_readers → Type 0) {A : Type 0} (op : Op E M max_readers A)
      : Type 0 where
    pub keeps : (w : World E M max_readers) → P w → P (op w).0

  module _ {P : World E M max_readers → Type 0} where
    go_on-Keeps :
        {A B : Type 0} (f : A → Op E M max_readers B) (r : World E M max_readers × MdsftpResult A)
        → ((a : A) → Keeps P (f a))
        → P r.0
        → P (go_on f r).0
    unfolding go_on
    go_on-Keeps f (w, ok a) k h = (k a).keeps w h
    go_on-Keeps f (w, err e) k h = h

    pub bind-Keeps :
        {A B : Type 0} {m : Op E M max_readers A} {f : A → Op E M max_readers B}
        → Keeps P m
        → ((a : A) → Keeps P (f a))
        → Keeps P (m >>= f)
    unfolding ◌>>=◌
    bind-Keeps {m = m} {f = f} km kf = record {
      keeps = λ w h. go_on-Keeps f (m w) kf (km.keeps w h);
    }

    pub then-Keeps :
        {B : Type 0} {m : Op E M max_readers (Unit {0})} {k : Op E M max_readers B}
        → Keeps P m
        → Keeps P k
        → Keeps P (m >> k)
    unfolding ◌>>◌
    then-Keeps km kk = bind-Keeps km (λ _. kk)

    pub or_error-Keeps :
        {A : Type 0} (e : MdsftpError) (r : MeowithIoResult A) → Keeps P (or_error {A = A} e r)
    unfolding or_error
    or_error-Keeps e (ok a) = record { keeps = λ w h. h }
    or_error-Keeps e (err _) = record { keeps = λ w h. h }

    pub if-Keeps :
        {A : Type 0} (b : Bool) {m k : Op E M max_readers A}
        → Keeps P m
        → Keeps P k
        → Keeps P (if b then m else k)
    if-Keeps true km kk = km
    if-Keeps false km kk = kk

    pub same-Keeps :
        {A : Type 0} {op : Op E M max_readers A}
        → ((w : World E M max_readers) → P w → P (op w).0)
        → Keeps P op
    same-Keeps k = record { keeps = k }

    pub pure-Keeps : {A : Type 0} (a : A) → Keeps P (pure a)
    unfolding pure
    pure-Keeps a = same-Keeps λ w h. h

    pub raise-Keeps : {A : Type 0} (e : MdsftpError) → Keeps P (raise {A = A} e)
    unfolding raise
    raise-Keeps e = same-Keeps λ w h. h

    pub gets-Keeps : {A : Type 0} (f : World E M max_readers → A) → Keeps P (gets f)
    unfolding gets
    gets-Keeps f = same-Keeps λ w h. h

  abbrev pub Balances : {A : Type 0} → Op E M max_readers A → Type 0
  Balances op = Keeps (λ w. Accounted w.ledger) op

  pub on_ledger-Keeps :
      {A : Type 0} (f : Ledger E → Ledger E × MeowithIoResult A)
      → ((l : Ledger E) → Accounted l → Accounted (f l).0)
      → Balances (on_ledger f)
  unfolding on_ledger
  on_ledger-Keeps f k = record { keeps = λ w h. k w.ledger h }
