-- ===== src/Retention.antt =====
-- backend/app/services/retention.py: the purge of old events and audit rows. A row is its id and its
-- time of creation, which is all that the service reads of the rows that it counts and deletes; a
-- text is the list of its bytes. The clock is a natural number, so that `_cutoffs` never refuses it.
pub mod Rows
pub mod Distinct
pub mod Purge
mod Examples
use zangpu.Base.{
  ℕ, ◌+◌, ◌-◌, ◌*◌, min, Bool, true, false, not, ◌&&◌, ◌||◌, List, [], ◌∷◌, ◌==◌, map, take, keep,
  any_of, length, ltb, leb, between, Result, ok, err, ◌>>=◌, ◌>>◌, raise_if, if◌then◌else◌,
}
use zangpu.Signing.Canonical.{same_text, text_le}

pub record Row : Type 0 where
  pub id : List ℕ
  pub created_at : ℕ

pub record Tables : Type 0 where
  pub events : List Row
  pub audits : List Row

pub record RetentionService : Type 0 where
  pub event_retention_days : ℕ
  pub admin_audit_retention_days : ℕ
  pub batch_size : ℕ

-- What `__init__` accepts.
abbrev pub is_service : RetentionService → Bool
is_service s =
    between 30 3650 s.event_retention_days
    && between 365 3650 s.admin_audit_retention_days
    && leb s.event_retention_days s.admin_audit_retention_days
    && between 1 10000 s.batch_size

pub data RetentionError : Type 0 where
  confirmation_error snapshot_conflict nothing_to_purge : RetentionError

-- `max(0, now - days * SECONDS_PER_DAY)`
abbrev pub cutoff : ℕ → ℕ → ℕ
cutoff days now = now - days * 86400

abbrev pub is_eligible : ℕ → Row → Bool
is_eligible limit row = ltb row.created_at limit

-- `_event_count` and `_audit_count`
unfoldable pub count : ℕ → List Row → ℕ
count limit rows = length (keep (is_eligible limit) rows)

abbrev pub row_le : Row → Row → Bool
row_le a b = ltb a.created_at b.created_at || (a.created_at == b.created_at && text_le a.id b.id)

unfoldable pub insert_row : Row → List Row → List Row
insert_row row [] = row ∷ []
insert_row row (next ∷ rows) =
    let later = insert_row row rows in if row_le row next then row ∷ next ∷ rows else next ∷ later

unfoldable pub sort_rows : List Row → List Row
sort_rows [] = []
sort_rows (row ∷ rows) = insert_row row (sort_rows rows)

-- The oldest eligible rows, at most a batch of them.
unfoldable pub batch : ℕ → ℕ → List Row → List Row
batch size limit rows = take size (sort_rows (keep (is_eligible limit) rows))

abbrev pub row_ids : List Row → List (List ℕ)
row_ids rows = map (λ row. row.id) rows

abbrev pub is_listed : List (List ℕ) → Row → Bool
is_listed ids row = any_of (same_text row.id) ids

-- What `_delete_events` and `_delete_audits` leave, and the count that they return.
abbrev pub left_after : List (List ℕ) → List Row → List Row
left_after ids rows = keep (λ row. not (is_listed ids row)) rows

abbrev pub deleted_count : List (List ℕ) → List Row → ℕ
deleted_count ids rows = length (keep (is_listed ids) rows)

pub record RetentionPreview : Type 0 where
  pub event_cutoff : ℕ
  pub audit_cutoff : ℕ
  pub event_eligible_count : ℕ
  pub audit_eligible_count : ℕ
  pub event_batch_count : ℕ
  pub audit_batch_count : ℕ

pub record RetentionPurgeResult : Type 0 where
  pub event_deleted_count : ℕ
  pub audit_deleted_count : ℕ
  pub event_remaining_count : ℕ
  pub audit_remaining_count : ℕ

module _ (s : RetentionService) where
  abbrev pub event_cutoff_at : ℕ → ℕ
  event_cutoff_at now = cutoff s.event_retention_days now

  abbrev pub audit_cutoff_at : ℕ → ℕ
  audit_cutoff_at now = cutoff s.admin_audit_retention_days now

  -- `preview`
  unfoldable pub preview : ℕ → Tables → RetentionPreview
  preview now t = record {
    event_cutoff = event_cutoff_at now;
    audit_cutoff = audit_cutoff_at now;
    event_eligible_count = count (event_cutoff_at now) t.events;
    audit_eligible_count = count (audit_cutoff_at now) t.audits;
    event_batch_count = min (count (event_cutoff_at now) t.events) s.batch_size;
    audit_batch_count = min (count (audit_cutoff_at now) t.audits) s.batch_size;
  }

  abbrev pub event_ids : ℕ → Tables → List (List ℕ)
  event_ids now t = row_ids (batch s.batch_size (event_cutoff_at now) t.events)

  abbrev pub audit_ids : ℕ → Tables → List (List ℕ)
  audit_ids now t = row_ids (batch s.batch_size (audit_cutoff_at now) t.audits)

  -- The tables after the deletions, with the audit row of the purge.
  abbrev pub purged : List ℕ → ℕ → Tables → Tables
  purged audit_id now t = record {
    events = left_after (event_ids now t) t.events;
    audits = record { id = audit_id; created_at = now } ∷ left_after (audit_ids now t) t.audits;
  }

  abbrev pub purge_result : ℕ → Tables → RetentionPurgeResult
  purge_result now t = record {
    event_deleted_count = deleted_count (event_ids now t) t.events;
    audit_deleted_count = deleted_count (audit_ids now t) t.audits;
    event_remaining_count =
        count (event_cutoff_at now) t.events - deleted_count (event_ids now t) t.events;
    audit_remaining_count =
        count (audit_cutoff_at now) t.audits - deleted_count (audit_ids now t) t.audits;
  }

  -- `purge` with the id that `new_uuid` gave.
  unfoldable pub purge :
      List ℕ → ℕ → ℕ → ℕ → Bool → Tables → Result RetentionError (Tables × RetentionPurgeResult)
  purge audit_id now expected_events expected_audits confirmed t = do
    raise_if (not confirmed) confirmation_error
    raise_if
        (not (
          count (event_cutoff_at now) t.events == expected_events
          && count (audit_cutoff_at now) t.audits == expected_audits))
        snapshot_conflict
    raise_if
        (count (event_cutoff_at now) t.events == 0 && count (audit_cutoff_at now) t.audits == 0)
        nothing_to_purge
    raise_if
        (not (
          deleted_count (event_ids now t) t.events == length (event_ids now t)
          && deleted_count (audit_ids now t) t.audits == length (audit_ids now t)))
        snapshot_conflict
    ok (purged audit_id now t, purge_result now t)
