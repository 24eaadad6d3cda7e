-- ===== src/Retention/Rows.antt =====
-- The batches of backend/app/services/retention.py and what their deletion leaves.
use zangpu.Base.{
  ℕ, zero, suc, ◌+◌, min, ◌≡◌, refl, ap, ◌∙◌, Bool, true, false, not, ◌&&◌, ◌||◌, List, [], ◌∷◌,
  ◌==◌, take, keep, all_of, length, arith, Bool-cases, inl, inr,
}
use zangpu.Signing.Canonical.{same_text}
use zangpu.Retention.{
  Row, is_eligible, count, row_le, insert_row, sort_rows, batch, row_ids, is_listed, left_after,
  deleted_count,
}

-- Rows with the same id have the same time: a row's id is its primary key.
abbrev pub agrees : Row → Row → Bool
agrees a b = not (same_text a.id b.id) || a.created_at == b.created_at

abbrev pub is_keyed : List Row → Bool
is_keyed rows = all_of (λ a. all_of (agrees a) rows) rows

module _ (p : Row → Bool) where
  pub insert_row-all_of :
      (row : Row) (rows : List Row)
      → p row ≡ true
      → all_of p rows ≡ true
      → all_of p (insert_row row rows) ≡ true
  unfolding insert_row
  insert_row-all_of row [] h hs = ground arith
  insert_row-all_of row (next ∷ rows) h hs =
      let later = insert_row-all_of row rows h in ground arith

  pub sort_rows-all_of : (rows : List Row) → all_of p rows ≡ true → all_of p (sort_rows rows) ≡ true
  unfolding sort_rows
  sort_rows-all_of [] hs = refl
  sort_rows-all_of (row ∷ rows) hs =
      insert_row-all_of row (sort_rows rows) (ground arith) (sort_rows-all_of rows (ground arith))

  pub take-all_of : (n : ℕ) (rows : List Row) → all_of p rows ≡ true → all_of p (take n rows) ≡ true
  take-all_of zero rows hs = refl
  take-all_of (suc n) [] hs = refl
  take-all_of (suc n) (row ∷ rows) hs = let later = take-all_of n rows in ground arith

  pub keep-all_of :
      (q : Row → Bool) (rows : List Row)
      → all_of (λ r. not (q r) || p r) rows ≡ true
      → all_of p (keep q rows) ≡ true
  keep-all_of q [] hs = refl
  keep-all_of q (row ∷ rows) hs =
      let later = keep-all_of q rows (ground arith) in
      elim (Bool-cases (q row)) [ inl h ↦ rw h (ground arith) | inr h ↦ rw h later ]

insert_row-length : (row : Row) (rows : List Row) → length (insert_row row rows) ≡ suc (length rows)
unfolding insert_row
insert_row-length row [] = refl
insert_row-length row (next ∷ rows) =
    let later = insert_row-length row rows in
    elim (Bool-cases (row_le row next)) [ inl h ↦ rw h refl | inr h ↦ rw h (ap suc later) ]

sort_rows-length : (rows : List Row) → length (sort_rows rows) ≡ length rows
unfolding sort_rows
sort_rows-length [] = refl
sort_rows-length (row ∷ rows) =
    insert_row-length row (sort_rows rows) ∙ ap suc (sort_rows-length rows)

take-length : (n : ℕ) (rows : List Row) → length (take n rows) ≡ min (length rows) n
take-length zero rows = omega arith
take-length (suc n) [] = omega arith
take-length (suc n) (row ∷ rows) = omega (arith, take-length n rows)

map-length : (rows : List Row) → length (row_ids rows) ≡ length rows
map-length [] = refl
map-length (row ∷ rows) = ap suc (map-length rows)

-- A batch has the eligible rows, up to its size.
pub batch-length :
    (size limit : ℕ) (rows : List Row)
    → length (row_ids (batch size limit rows)) ≡ min (count limit rows) size
unfolding batch count
batch-length size limit rows =
    map-length (take size (sort_rows (keep (is_eligible limit) rows)))
    ∙ take-length size (sort_rows (keep (is_eligible limit) rows))
    ∙ ap (λ n. min n size) (sort_rows-length (keep (is_eligible limit) rows))

-- A row that is not eligible is not in a list of rows that are and agree with it.
unlisted :
    (limit : ℕ) (row : Row) (rows : List Row)
    → is_eligible limit row ≡ false
    → all_of (λ b. is_eligible limit b && agrees row b) rows ≡ true
    → is_listed (row_ids rows) row ≡ false
unlisted limit row [] h hs = refl
unlisted limit row (b ∷ rows) h hs =
    let later = unlisted limit row rows h (ground arith) in ground arith

batch-agrees :
    (size limit : ℕ) (row : Row) (rows : List Row)
    → all_of (agrees row) rows ≡ true
    → all_of (λ b. is_eligible limit b && agrees row b) (batch size limit rows) ≡ true
unfolding batch
batch-agrees size limit row rows h =
    let both : Row → Bool = λ b. is_eligible limit b && agrees row b in
    take-all_of both size _
      (sort_rows-all_of both _ (keep-all_of both (is_eligible limit) rows (weaken rows h)))
  where
    weaken :
        (some_rows : List Row)
        → all_of (agrees row) some_rows ≡ true
        → all_of (λ r. not (is_eligible limit r) || (is_eligible limit r && agrees row r)) some_rows
          ≡ true
    weaken [] k = refl
    weaken (r ∷ rest) k = let later = weaken rest (ground arith) in ground arith

-- What a deletion of listed rows leaves, when every listed row is eligible.
module _ (limit : ℕ) (ids : List (List ℕ)) where
  abbrev pub covers : Row → Bool
  covers row = is_eligible limit row || not (is_listed ids row)

  pub left_after-recent :
      (rows : List Row)
      → all_of covers rows ≡ true
      → keep (λ r. not (is_eligible limit r)) (left_after ids rows)
        ≡ keep (λ r. not (is_eligible limit r)) rows
  left_after-recent [] h = refl
  left_after-recent (row ∷ rows) h =
      let later = left_after-recent rows (ground arith) in
      elim (Bool-cases (is_listed ids row)) [
        | inl listed ↦
            let old : is_eligible limit row ≡ true = ground arith in rw (listed, old) later
        | inr other ↦ elim (Bool-cases (is_eligible limit row)) [
          | inl old ↦ rw (other, old) later
          | inr new ↦ rw (other, new) (ap (λ l. row ∷ l) later)
        ]
      ]

  pub left_after-count :
      (rows : List Row)
      → all_of covers rows ≡ true
      → count limit (left_after ids rows) + deleted_count ids rows ≡ count limit rows
  unfolding count
  left_after-count [] h = refl
  left_after-count (row ∷ rows) h =
      let later = left_after-count rows (ground arith) in
      elim (Bool-cases (is_listed ids row)) [
        | inl listed ↦
            let old : is_eligible limit row ≡ true = ground arith in rw (listed, old) (omega arith)
        | inr other ↦ elim (Bool-cases (is_eligible limit row)) [
          | inl old ↦ rw (other, old) (omega arith)
          | inr new ↦ rw (other, new) (omega arith)
        ]
      ]

-- Every row that the batch lists is eligible.
pub batch-covers :
    (size limit : ℕ) (rows some_rows : List Row)
    → all_of (λ a. all_of (agrees a) rows) some_rows ≡ true
    → all_of (covers limit (row_ids (batch size limit rows))) some_rows ≡ true
batch-covers size limit rows [] h = refl
batch-covers size limit rows (row ∷ some_rows) h =
    let later = batch-covers size limit rows some_rows (ground arith) in
    let close = batch-agrees size limit row rows (ground arith) in
    elim (Bool-cases (is_eligible limit row)) [
      | inl old ↦ rw (old, later) refl
      | inr new ↦ rw (new, unlisted limit row (batch size limit rows) new close, later) refl
    ]
