-- ===== src/Retention/Distinct.antt =====
-- How many rows a deletion by the ids of a batch finds: `_delete_events` and `_delete_audits` of
-- backend/app/services/retention.py.
use zangpu.Base.{
  ℕ, zero, suc, ◌+◌, ◌≡◌, refl, sym, ap, ◌∙◌, ◌≤◌, Bool, true, false, not, ◌||◌, List, [], ◌∷◌,
  ◌==◌, take, keep, all_of, length, leb, arith, Bool-cases, inl, inr, if◌then◌else◌,
}
use zangpu.Signing.Canonical.{same_text}
use zangpu.Signing.Genuine.{same_text-eq, same_text_refl}
use zangpu.Retention.{
  Row, is_eligible, row_le, insert_row, sort_rows, batch, row_ids, is_listed, deleted_count,
}
use zangpu.Retention.Rows.{sort_rows-all_of, take-all_of, keep-all_of}

-- How many rows have the id.
abbrev pub occurrences : List ℕ → List Row → ℕ
occurrences id [] = 0
occurrences id (row ∷ rows) =
    if same_text row.id id then suc (occurrences id rows) else occurrences id rows

-- The id is the primary key of the rows.
abbrev pub is_distinct : List Row → Bool
is_distinct rows = all_of (λ r. occurrences r.id rows == 1) rows

module _ (id : List ℕ) where
  occurrences-insert_row :
      (row : Row) (rows : List Row)
      → occurrences id (insert_row row rows) ≡ occurrences id (row ∷ rows)
  unfolding insert_row
  occurrences-insert_row row [] = refl
  occurrences-insert_row row (next ∷ rows) =
      let later = occurrences-insert_row row rows in
      elim (Bool-cases (row_le row next)) [
        | inl h ↦ rw h refl
        | inr h ↦ rw (h, later) (ground arith)
      ]

  occurrences-sort_rows : (rows : List Row) → occurrences id (sort_rows rows) ≡ occurrences id rows
  unfolding sort_rows
  occurrences-sort_rows [] = refl
  occurrences-sort_rows (row ∷ rows) =
      let later = occurrences-sort_rows rows in
      occurrences-insert_row row (sort_rows rows)
      ∙ ap (λ n. if same_text row.id id then suc n else n) later

  occurrences-keep :
      (p : Row → Bool) (rows : List Row) → occurrences id (keep p rows) ≤ occurrences id rows
  occurrences-keep p [] = omega arith
  occurrences-keep p (row ∷ rows) = let later = occurrences-keep p rows in ground arith

  occurrences-take : (n : ℕ) (rows : List Row) → occurrences id (take n rows) ≤ occurrences id rows
  occurrences-take zero rows = omega arith
  occurrences-take (suc n) [] = omega arith
  occurrences-take (suc n) (row ∷ rows) = let later = occurrences-take n rows in ground arith

  occurrences-batch :
      (size limit : ℕ) (rows : List Row)
      → occurrences id (batch size limit rows) ≤ occurrences id rows
  unfolding batch
  occurrences-batch size limit rows =
      let kept = occurrences-keep (is_eligible limit) rows in
      let sorted = occurrences-sort_rows (keep (is_eligible limit) rows) in
      let taken = occurrences-take size (sort_rows (keep (is_eligible limit) rows)) in omega arith

  -- An id that no row has is not listed.
  absent-unlisted :
      (row : Row) (rows : List Row)
      → same_text row.id id ≡ true
      → occurrences id rows ≡ 0
      → is_listed (row_ids rows) row ≡ false
  absent-unlisted row [] h e = refl
  absent-unlisted row (next ∷ rows) h e =
      let others : occurrences id rows ≡ 0 = ground arith in
      let later = absent-unlisted row rows h others in
      let missing : same_text next.id id ≡ false = ground arith in
      elim (Bool-cases (same_text row.id next.id)) [
        | inl same ↦
            let ids : next.id ≡ id =
              sym (same_text-eq row.id next.id same) ∙ same_text-eq row.id id h in
            let own : same_text next.id id ≡ true =
              ap (λ i. same_text i id) ids ∙ same_text_refl id in
            cc
        | inr other ↦ rw other later
      ]

-- One more id finds its rows besides those that the others find.
deleted_count-cons :
    (b : Row) (batch_rows rows : List Row)
    → occurrences b.id batch_rows ≡ 0
    → deleted_count (row_ids (b ∷ batch_rows)) rows
      ≡ occurrences b.id rows + deleted_count (row_ids batch_rows) rows
deleted_count-cons b batch_rows [] h = refl
deleted_count-cons b batch_rows (row ∷ rows) h =
    let later = deleted_count-cons b batch_rows rows h in
    let unlisted = absent-unlisted b.id row batch_rows in
    elim (Bool-cases (same_text row.id b.id)) [
      | inl own ↦ rw (own, unlisted own h, later) (omega arith)
      | inr other ↦ elim (Bool-cases (is_listed (row_ids batch_rows) row)) [
        | inl listed ↦ rw (other, listed, later) (omega arith)
        | inr rest ↦ rw (other, rest, later) refl
      ]
    ]

nothing_deleted : (rows : List Row) → deleted_count [] rows ≡ 0
nothing_deleted [] = refl
nothing_deleted (row ∷ rows) = nothing_deleted rows

occurrences-tail :
    (b : Row) (batch_rows rows : List Row)
    → all_of (λ r. leb (occurrences r.id (b ∷ batch_rows)) 1) rows ≡ true
    → all_of (λ r. leb (occurrences r.id batch_rows) 1) rows ≡ true
occurrences-tail b batch_rows [] h = refl
occurrences-tail b batch_rows (r ∷ rows) h =
    let later = occurrences-tail b batch_rows rows (ground arith) in ground arith

-- Each id of a list of distinct rows, all of them in the table, finds one row.
deleted_count-length :
    (batch_rows rows : List Row)
    → all_of (λ b. leb (occurrences b.id batch_rows) 1) batch_rows ≡ true
    → all_of (λ b. occurrences b.id rows == 1) batch_rows ≡ true
    → deleted_count (row_ids batch_rows) rows ≡ length (row_ids batch_rows)
deleted_count-length [] rows hb hr = nothing_deleted rows
deleted_count-length (b ∷ batch_rows) rows hb hr =
    let own = same_text_refl b.id in
    let alone : occurrences b.id batch_rows ≡ 0 = ground arith in
    let found : occurrences b.id rows ≡ 1 = ground arith in
    let later =
      deleted_count-length batch_rows rows (occurrences-tail b batch_rows batch_rows (ground arith))
        (ground arith) in
    let step = deleted_count-cons b batch_rows rows alone in omega arith

module _ (size limit : ℕ) (rows : List Row) where
  batch-once :
      (some_rows : List Row)
      → all_of (λ r. occurrences r.id rows == 1) some_rows ≡ true
      → all_of (λ r. leb (occurrences r.id (batch size limit rows)) 1) some_rows ≡ true
  batch-once [] h = refl
  batch-once (r ∷ some_rows) h =
      let later = batch-once some_rows (ground arith) in
      let bound = occurrences-batch r.id size limit rows in
      let once : leb (occurrences r.id (batch size limit rows)) 1 ≡ true = ground arith in
      rw (once, later) refl

  weaken :
      (p : Row → Bool) (some_rows : List Row)
      → all_of p some_rows ≡ true
      → all_of (λ r. not (is_eligible limit r) || p r) some_rows ≡ true
  weaken p [] h = refl
  weaken p (r ∷ some_rows) h = let later = weaken p some_rows in ground arith

  batch-all_of : (p : Row → Bool) → all_of p rows ≡ true → all_of p (batch size limit rows) ≡ true
  unfolding batch
  batch-all_of p h =
      take-all_of p size _
        (sort_rows-all_of p _ (keep-all_of p (is_eligible limit) rows (weaken p rows h)))

  -- A deletion by the ids of a batch deletes as many rows as the batch has.
  pub deleted_count-batch :
      is_distinct rows ≡ true
      → deleted_count (row_ids (batch size limit rows)) rows
        ≡ length (row_ids (batch size limit rows))
  deleted_count-batch h =
      let distinct = batch-all_of (λ r. occurrences r.id rows == 1) h in
      deleted_count-length (batch size limit rows) rows
        (batch-once (batch size limit rows) distinct) distinct
