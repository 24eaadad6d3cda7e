-- ===== src/Quota/Transaction.antt =====
-- `with self._sessions() as session, session.begin(): …` around an operation of the ledger, as
-- `_reserve_quota` and the like in backend/app/services/chat.py do: what it wrote is committed when
-- it returns, and rolled back when it raises.
use zangpu.Base.{Result, ok, err, ◌≡◌, refl}
use zangpu.Models.Database.{Database}
use zangpu.Quota.{QuotaError}

unfoldable pub commit_or_roll_back :
    {A : Type 0} → Result QuotaError (A × Database) → Database → Result QuotaError A × Database
commit_or_roll_back (ok (a, db')) db = (ok a, db')
commit_or_roll_back (err e) db = (err e, db)

unfoldable pub transaction :
    {A : Type 0}
    → (Database → Result QuotaError (A × Database))
    → Database
    → Result QuotaError A × Database
unfolding commit_or_roll_back
transaction body db = commit_or_roll_back (body db) db

abbrev pub without_value : Result QuotaError Database → Result QuotaError (Unit {0} × Database)
without_value (ok db) = ok (tt, db)
without_value (err e) = err e

-- What every successful body keeps, its transaction keeps.
pub commit_or_roll_back-keeps :
    {A : Type 0} (P : Database → Type 0) (r : Result QuotaError (A × Database)) (db : Database)
    → P db
    → ((x : A × Database) → r ≡ ok x → P x.1)
    → P (commit_or_roll_back r db).1
unfolding commit_or_roll_back
commit_or_roll_back-keeps P (ok (a, db')) db h keep = keep (a, db') refl
commit_or_roll_back-keeps P (err e) db h keep = h

pub transaction-keeps :
    {A : Type 0} (P : Database → Type 0) (body : Database → Result QuotaError (A × Database))
    (db : Database)
    → P db
    → ((x : A × Database) → body db ≡ ok x → P x.1)
    → P (transaction body db).1
unfolding transaction
transaction-keeps P body db h keep = commit_or_roll_back-keeps P (body db) db h keep

-- The same for a body that returns only the database.
pub without_value-keeps :
    (P : Database → Type 0) (body : Database → Result QuotaError Database) (db : Database)
    → P db
    → ((db' : Database) → body db ≡ ok db' → P db')
    → P (transaction (λ d. without_value (body d)) db).1
unfolding transaction
without_value-keeps P body db h keep =
    commit_or_roll_back-keeps P (without_value (body db)) db h (kept P (body db) keep)
  where
    kept :
        (Q : Database → Type 0) (r : Result QuotaError Database)
        → ((db' : Database) → r ≡ ok db' → Q db')
        → (x : Unit {0} × Database) → without_value r ≡ ok x
        → Q x.1
    kept Q (ok d) k (u, d') e = let same : d ≡ d' = cc in rw (← same) (k d refl)
    kept Q (err q) k x e = cc
