-- ===== src/Retention/Examples.antt =====
-- A concrete purge.
use zangpu.Base.{ℕ, ◌≡◌, refl, true, List, [], ◌∷◌, codes, ok}
use zangpu.Signing.Canonical.{text_le}
use zangpu.Retention.{
  Row, Tables, RetentionService, RetentionPurgeResult, count, insert_row, sort_rows, batch, preview,
  purge,
}
use zangpu.Retention.Purge.{preview_then_purge}

abbrev service : RetentionService
service = record { event_retention_days = 30; admin_audit_retention_days = 365; batch_size = 1 }

-- Day 400.
abbrev today : ℕ
today = 34560000

abbrev row_of : List ℕ → ℕ → Row
row_of id at = record { id = id; created_at = at }

abbrev tables : Tables
tables = record {
  events = row_of (codes "e3") 34000000 ∷ row_of (codes "e2") 500 ∷ row_of (codes "e1") 100 ∷ [];
  audits = row_of (codes "a1") 200 ∷ [];
}

abbrev purged_tables : Tables
purged_tables = record {
  events = row_of (codes "e3") 34000000 ∷ row_of (codes "e2") 500 ∷ [];
  audits = row_of (codes "new") today ∷ [];
}

abbrev purged_counts : RetentionPurgeResult
purged_counts = record {
  event_deleted_count = 1;
  audit_deleted_count = 1;
  event_remaining_count = 1;
  audit_remaining_count = 0;
}

-- Two events and an audit row are eligible.
preview_then_purge_example :
    purge service (codes "new") today 2 1 true tables ≡ ok (purged_tables, purged_counts)
unfolding preview count batch sort_rows insert_row text_le
preview_then_purge_example = preview_then_purge service (codes "new") today tables refl refl refl
