-- ===== src/Outbox/Claim.antt =====
-- `BifrostOutboxWorker.__init__` and `_claim` of backend/app/workers/outbox.py.
use zangpu.Base.{
  ℕ, ◌+◌, Bool, false, not, ◌&&◌, ◌||◌, List, [], ◌∷◌, Option, none, some, map, take, keep, any_of,
  leb, ltb, between, ◌==◌, if◌then◌else◌,
}
use zangpu.Signing.Canonical.{same_text, text_le}
use zangpu.Outbox.{Text, ItemStatus, ControlOutbox, Control, is_bifrost, is_waiting, is_processing}

pub record WorkerConfig : Type 0 where
  pub max_attempts : ℕ
  pub base_retry_seconds : ℕ
  pub max_retry_seconds : ℕ
  pub claim_timeout_seconds : ℕ
  pub batch_size : ℕ

-- The bounds that `__init__` accepts.
abbrev pub is_config : WorkerConfig → Bool
is_config w =
    between 1 100 w.max_attempts
    && between 1 100 w.batch_size
    && leb 1 w.base_retry_seconds
    && leb w.base_retry_seconds w.max_retry_seconds
    && leb 1 w.claim_timeout_seconds

-- `locked_at <= now - claim_timeout_seconds`
abbrev pub is_stale : WorkerConfig → ℕ → Option ℕ → Bool
is_stale w now none = false
is_stale w now (some locked_at) = leb (locked_at + w.claim_timeout_seconds) now

-- The `where` of the selection.
abbrev pub is_claimable : WorkerConfig → ℕ → ControlOutbox → Bool
is_claimable w now item =
    is_bifrost item.target
    && ltb item.attempt_count w.max_attempts
    && (is_waiting item.status && leb item.available_at now
        || is_processing item.status && is_stale w now item.locked_at)

-- The order by `available_at` and `id`.
abbrev pub comes_before : ControlOutbox → ControlOutbox → Bool
comes_before a b =
    ltb a.available_at b.available_at || (a.available_at == b.available_at && text_le a.id b.id)

unfoldable pub insert_item : ControlOutbox → List ControlOutbox → List ControlOutbox
insert_item item [] = item ∷ []
insert_item item (next ∷ items) =
    let later = insert_item item items in
    if comes_before item next then item ∷ next ∷ items else next ∷ later

unfoldable pub sort_items : List ControlOutbox → List ControlOutbox
sort_items [] = []
sort_items (item ∷ items) = insert_item item (sort_items items)

-- The rows that other transactions hold are skipped: `with_for_update(skip_locked=True)`.
abbrev pub is_free : (Text → Bool) → ControlOutbox → Bool
is_free held item = not (held item.id)

-- The rows that `_claim` selects.
unfoldable pub selected : WorkerConfig → ℕ → (Text → Bool) → List ControlOutbox → List ControlOutbox
selected w now held items =
    take w.batch_size
      (sort_items (keep (λ item. is_claimable w now item && is_free held item) items))

abbrev pub ids : List ControlOutbox → List Text
ids items = map (λ item. item.id) items

abbrev pub mark : ℕ → ControlOutbox → ControlOutbox
mark now item = record item {
  status = ItemStatus.processing;
  attempt_count = item.attempt_count + 1;
  locked_at = some now;
  updated_at = now;
}

-- A selected row is claimable and its id is among the selected ones.
abbrev pub is_chosen : WorkerConfig → ℕ → List Text → ControlOutbox → Bool
is_chosen w now chosen item = is_claimable w now item && any_of (same_text item.id) chosen

abbrev pub claim_item : WorkerConfig → ℕ → List Text → ControlOutbox → ControlOutbox
claim_item w now chosen item = if is_chosen w now chosen item then mark now item else item

-- The ids that `_claim` returns, and what it commits.
abbrev pub claimed_ids : WorkerConfig → ℕ → (Text → Bool) → Control → List Text
claimed_ids w now held s = ids (selected w now held s.items)

unfoldable pub claim : WorkerConfig → ℕ → (Text → Bool) → Control → Control
claim w now held s = record s { items = map (claim_item w now (claimed_ids w now held s)) s.items }
