-- ===== src/Quota/Accounting/Sums.antt =====
-- The sums over the operations when one row of the table is written back.
use zangpu.Base.{ℕ, ◌+◌, String, some, List, [], ◌∷◌, ◌≡◌, ◌∙◌, arith, eq_iff, find_first}
use zangpu.Models.{ApiCallOperation, Scope}
use zangpu.Models.Database.{Database, has_id, find_operation, replace_operation, put_operation}
use zangpu.Quota.Accounting.{weight, tally}

-- A row that is found has the ID that it was looked up by.
pub find_first-has_id :
    (i : String) (ops : List ApiCallOperation) (op : ApiCallOperation)
    → find_first (has_id i) ops ≡ some op
    → op.id ≡ i
find_first-has_id i [] op h = cc
find_first-has_id i (x ∷ ops) op h = ground (arith, eq_iff x.id i, find_first-has_id i ops op)

tally-replace :
    (f : ApiCallOperation → ℕ) (c : String) (s : Scope) (p : ℕ) (ops : List ApiCallOperation)
    (old new : ApiCallOperation)
    → find_first (has_id new.id) ops ≡ some old
    → tally f c s p (replace_operation new ops) + weight f c s p old
      ≡ tally f c s p ops + weight f c s p new
tally-replace f c s p [] old new h = cc
tally-replace f c s p (x ∷ ops) old new h = ground (arith, tally-replace f c s p ops old new)

-- Writing a row back moves a sum by the difference of the two rows' weights.
pub tally-put :
    (f : ApiCallOperation → ℕ) (c : String) (s : Scope) (p : ℕ) (db : Database)
    (old new : ApiCallOperation) (i : String)
    → find_operation i db ≡ some old
    → new.id ≡ old.id
    → tally f c s p (put_operation new db).operations + weight f c s p old
      ≡ tally f c s p db.operations + weight f c s p new
unfolding find_operation put_operation
tally-put f c s p db old new i h e =
    let same : new.id ≡ i = e ∙ find_first-has_id i db.operations old h in
    tally-replace f c s p db.operations old new (rw same h)
