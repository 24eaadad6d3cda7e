-- ===== src/Quota/Accounting/Rows.antt =====
-- The quota rows that quota.py creates, selects and writes, seen through the counters of one key.
use zangpu.Base.{
  ℕ, String, true, ◌&&◌, Option, some, ok, ◌≡◌, refl, ◌∙◌, arith, str_eq, eq_iff, ◌==◌, ==_iff,
  if◌then◌else◌,
}
use zangpu.Base.{Option-cases, inl, inr, eq_refl}
use zangpu.Models.{ApiClientQuotaUsage, Scope, same_scope}
use zangpu.Models.Database.{Database, put_quota, same_key}
use zangpu.Quota.{
  QuotaRows, period, insert_quota_row_if_missing, create_quota_rows, select_quota_rows,
  put_quota_rows, new_row,
}
use zangpu.Quota.Accounting.{requests_in, reserved_in, consumed_in, row_of, IsBalanced}

same_scope-eq : (s s' : Scope) → same_scope s s' ≡ true → s ≡ s'
same_scope-eq Scope.daily Scope.daily h = refl
same_scope-eq Scope.daily Scope.lifetime h = cc
same_scope-eq Scope.lifetime Scope.daily h = cc
same_scope-eq Scope.lifetime Scope.lifetime h = refl

-- A lookup sees a key only through its parts.
same_key-quota :
    (db : Database) (c c' : String) (s s' : Scope) (p p' : ℕ)
    → same_key c s p c' s' p' ≡ true
    → db.quota_usage c s p ≡ db.quota_usage c' s' p'
same_key-quota db c c' s s' p p' h = ground (arith, eq_iff c c', ==_iff p p', same_scope-eq s s')

-- Two rows, either of which may be missing, count the same.
pub record SameCounts (old new : Option ApiClientQuotaUsage) : Type 0 where
  pub requests : requests_in new ≡ requests_in old
  pub reserved : reserved_in new ≡ reserved_in old
  pub consumed : consumed_in new ≡ consumed_in old

insert-SameCounts :
    (id : String) (c : String) (s : Scope) (p now : ℕ) (db : Database) (c' : String) (s' : Scope)
    (p' : ℕ)
    → SameCounts
        (db.quota_usage c' s' p')
        ((insert_quota_row_if_missing id c s p now db).quota_usage c' s' p')
unfolding insert_quota_row_if_missing put_quota
insert-SameCounts id c s p now db c' s' p' = ground (arith, same_key-quota db c c' s s' p p')

-- Creating the rows that are missing changes no count.
pub create-SameCounts :
    (ids : Scope → String) (c : String) (now : ℕ) (db : Database) (c' : String) (s' : Scope)
    (p' : ℕ)
    → SameCounts (db.quota_usage c' s' p') ((create_quota_rows ids c now db).quota_usage c' s' p')
unfolding create_quota_rows
create-SameCounts ids c now db c' s' p' =
    let db1 =
      insert_quota_row_if_missing (ids Scope.daily) c Scope.daily (period Scope.daily now) now db in
    ground (
      arith,
      insert-SameCounts (ids Scope.daily) c Scope.daily (period Scope.daily now) now db c' s' p',
      insert-SameCounts (ids Scope.lifetime) c Scope.lifetime (period Scope.lifetime now) now db1 c'
          s' p',
    )

insert-operations :
    (id c : String) (s : Scope) (p now : ℕ) (db : Database)
    → (insert_quota_row_if_missing id c s p now db).operations ≡ db.operations
unfolding insert_quota_row_if_missing put_quota
insert-operations id c s p now db = ground arith

pub create-operations :
    (ids : Scope → String) (c : String) (now : ℕ) (db : Database)
    → (create_quota_rows ids c now db).operations ≡ db.operations
unfolding create_quota_rows
create-operations ids c now db =
    let db1 =
      insert_quota_row_if_missing (ids Scope.daily) c Scope.daily (period Scope.daily now) now db in
    insert-operations (ids Scope.lifetime) c Scope.lifetime (period Scope.lifetime now) now db1
    ∙ insert-operations (ids Scope.daily) c Scope.daily (period Scope.daily now) now db

pub create-IsBalanced :
    (ids : Scope → String) (c : String) (now : ℕ) (db : Database)
    → IsBalanced db
    → IsBalanced (create_quota_rows ids c now db)
create-IsBalanced ids c now db h c' s' p' =
    ground
      (arith, h c' s' p', create-SameCounts ids c now db c' s' p', create-operations ids c now db)

-- The rows that are selected are those under the two keys.
pub select-rows :
    (c : String) (now : ℕ) (db : Database) (rows : QuotaRows) (s : Scope)
    → select_quota_rows c now db ≡ ok rows
    → db.quota_usage c s (period s now) ≡ some (row_of s rows)
unfolding select_quota_rows
select-rows c now db rows Scope.daily h = ground arith
select-rows c now db rows Scope.lifetime h = ground arith

-- The same row under any spelling of the key.
pub select-row_at :
    (c : String) (now : ℕ) (db : Database) (rows : QuotaRows) (c' : String) (s : Scope) (p : ℕ)
    → select_quota_rows c now db ≡ ok rows
    → (str_eq c c' && period s now == p) ≡ true
    → db.quota_usage c' s p ≡ some (row_of s rows)
select-row_at c now db rows c' s p h k =
    ground (arith, select-rows c now db rows s h, eq_iff c c', ==_iff (period s now) p)

-- A lookup after both rows are written.
pub put_quota_rows-quota :
    (c : String) (now : ℕ) (rows : QuotaRows) (db : Database) (c' : String) (s : Scope) (p : ℕ)
    → (put_quota_rows c now rows db).quota_usage c' s p
      ≡ (if str_eq c c' && period s now == p then some (row_of s rows) else db.quota_usage c' s p)
unfolding put_quota_rows put_quota
put_quota_rows-quota c now rows db c' Scope.daily p = ground arith
put_quota_rows-quota c now rows db c' Scope.lifetime p = ground arith

pub put_quota_rows-operations :
    (c : String) (now : ℕ) (rows : QuotaRows) (db : Database)
    → (put_quota_rows c now rows db).operations ≡ db.operations
unfolding put_quota_rows put_quota
put_quota_rows-operations c now rows db = refl

insert-present :
    (id c : String) (s : Scope) (p now : ℕ) (db : Database)
    → (row : ApiClientQuotaUsage) × ((insert_quota_row_if_missing id c s p now db).quota_usage c s p
        ≡ some row)
unfolding insert_quota_row_if_missing put_quota
insert-present id c Scope.daily p now db = elim (Option-cases (db.quota_usage c Scope.daily p)) [
  | inl a ↦ (new_row id now, ground (arith, eq_refl c))
  | inr (row, a) ↦ (row, ground arith)
]
insert-present id c Scope.lifetime p now db =
    elim (Option-cases (db.quota_usage c Scope.lifetime p)) [
      | inl a ↦ (new_row id now, ground (arith, eq_refl c))
      | inr (row, a) ↦ (row, ground arith)
    ]

insert-stays :
    (id c : String) (s : Scope) (p now : ℕ) (db : Database) (c' : String) (s' : Scope) (p' : ℕ)
    (row : ApiClientQuotaUsage)
    → db.quota_usage c' s' p' ≡ some row
    → (insert_quota_row_if_missing id c s p now db).quota_usage c' s' p' ≡ some row
unfolding insert_quota_row_if_missing put_quota
insert-stays id c s p now db c' s' p' row h = ground (arith, same_key-quota db c c' s s' p p')

-- The rows are there once those that were missing are created.
pub create-select :
    (ids : Scope → String) (c : String) (now : ℕ) (db : Database)
    → (rows : QuotaRows) × (select_quota_rows c now (create_quota_rows ids c now db) ≡ ok rows)
unfolding select_quota_rows create_quota_rows
create-select ids c now db =
    let day = period Scope.daily now in
    let ever = period Scope.lifetime now in
    let db1 = insert_quota_row_if_missing (ids Scope.daily) c Scope.daily day now db in
    let (d, hd) = insert-present (ids Scope.daily) c Scope.daily day now db in
    let (l, hl) = insert-present (ids Scope.lifetime) c Scope.lifetime ever now db1 in
    (
      record { daily = d; lifetime = l },
      ground (
        arith,
        insert-stays (ids Scope.lifetime) c Scope.lifetime ever now db1 c Scope.daily day d hd,
      ),
    )
