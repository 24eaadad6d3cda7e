-- ===== src/Retention/Purge.antt =====
-- What `purge` of backend/app/services/retention.py does to the tables.
use zangpu.Base.{ℕ, ◌≡◌, refl, true, false, not, ◌&&◌, List, ◌∷◌, ◌==◌, keep, length, ok, arith}
use zangpu.Retention.{
  Row, Tables, RetentionService, RetentionPurgeResult, is_eligible, count, event_cutoff_at,
  audit_cutoff_at, event_ids, audit_ids, purged, purge_result, preview, purge,
}
use zangpu.Retention.Distinct.{is_distinct, deleted_count-batch}

-- The rows at or after the cutoff.
abbrev pub recent : ℕ → List Row → List Row
recent limit rows = keep (λ r. not (is_eligible limit r)) rows

-- The effect of a purge.
pub record Purged (s : RetentionService) (now : ℕ) (audit_id : List ℕ) (t t' : Tables)
    (r : RetentionPurgeResult) : Type 0 where
  pub events_kept :
      recent (event_cutoff_at s now) t'.events ≡ recent (event_cutoff_at s now) t.events
  pub audits_kept :
      recent (audit_cutoff_at s now) t'.audits
      ≡ record { id = audit_id; created_at = now } ∷ recent (audit_cutoff_at s now) t.audits
  pub events_deleted : r.event_deleted_count ≡ (preview s now t).event_batch_count
  pub audits_deleted : r.audit_deleted_count ≡ (preview s now t).audit_batch_count
  pub events_remaining : count (event_cutoff_at s now) t'.events ≡ r.event_remaining_count
  pub audits_remaining : count (audit_cutoff_at s now) t'.audits ≡ r.audit_remaining_count

==_refl : (n : ℕ) → (n == n) ≡ true
==_refl n = ground arith

module _ (s : RetentionService) where
  -- In tables whose ids are distinct: a confirmed purge with the counts of a preview of the same
  -- tables at the same time succeeds, unless the preview counted no row at all.
  pub preview_then_purge :
      (audit_id : List ℕ) (now : ℕ) (t : Tables)
      → is_distinct t.events ≡ true
      → is_distinct t.audits ≡ true
      → ((preview s now t).event_eligible_count == 0 && (preview s now t).audit_eligible_count == 0)
        ≡ false
      → purge s audit_id now
          (preview s now t).event_eligible_count
          (preview s now t).audit_eligible_count
          true
          t
        ≡ ok (purged s audit_id now t, purge_result s now t)
  unfolding purge preview
  preview_then_purge audit_id now t he ha some_rows =
      let events = deleted_count-batch s.batch_size (event_cutoff_at s now) t.events he in
      let audits = deleted_count-batch s.batch_size (audit_cutoff_at s now) t.audits ha in
      let same_events = ==_refl (count (event_cutoff_at s now) t.events) in
      let same_audits = ==_refl (count (audit_cutoff_at s now) t.audits) in
      let exact_events = ==_refl (length (event_ids s now t)) in
      let exact_audits = ==_refl (length (audit_ids s now t)) in
      rw (same_events, same_audits, some_rows, events, audits, exact_events, exact_audits) refl
