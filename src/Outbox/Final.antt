-- ===== src/Outbox/Final.antt =====
-- What may still change a completed row of backend/app/workers/outbox.py.
use mathlib.Core.Path.{subst}
use zangpu.Base.{
  ℕ, ◌≡◌, refl, sym, ap, ◌∙◌, inl, inr, Bool, true, false, ◌&&◌, List, [], ◌∷◌, Option, none, some,
  all_of, not, leb, arith, Bool-cases, Result, ok, err, if-true, if-false,
}
use zangpu.Signing.Canonical.{same_text}
use zangpu.Signing.Genuine.{same_text-eq}
use zangpu.Signing.Crypto.{Crypto}
use zangpu.Signing.Keyring.{CredentialKeyring}
use zangpu.Outbox.{
  Text, ItemStatus, ControlOutbox, Control, is_waiting, is_processing, is_completed, find_item,
  change_item, change_at,
}
use zangpu.Outbox.Binding.{Envelope}
use zangpu.Outbox.Claim.{WorkerConfig, is_stale, is_chosen, mark, claim_item, claim, claimed_ids}
use zangpu.Outbox.Execute.{Failure, BifrostBindingClient, WorkResult}
use zangpu.Outbox.Process.{completed_item, complete_item, complete, failed_item, fail_item, fail}
use zangpu.Outbox.Queue.{add_item, add_absent}
use zangpu.Outbox.Rows.{find_item-id, find_item-map, claim_item-id, change_at-id}
use zangpu.Outbox.History.{complete_found-rows}
use zangpu.Outbox.Bounds.{
  Event, claimed, completing, failing, queued, rebound, or_unchanged, perform, perform_all,
}

abbrev shows_processing : Option ControlOutbox → Bool
shows_processing none = false
shows_processing (some item) = is_processing item.status

-- The transaction ends the processing of the row, and has read it while it was processing.
abbrev pub has_read_open : Text → Event → Bool
has_read_open id (completing item_id result fresh now read) =
    same_text id item_id && shows_processing (find_item item_id read.items)
has_read_open id (failing item_id code retryable now read) =
    same_text id item_id && shows_processing (find_item item_id read.items)
has_read_open id (claimed now held) = false
has_read_open id (queued item_id aggregate_id target action payload now) = false
has_read_open id (rebound bindings) = false

completed-unclaimable :
    (status : ItemStatus) (due stale : Bool)
    → is_completed status ≡ true
    → (is_waiting status && due) ≡ false × (is_processing status && stale) ≡ false
completed-unclaimable ItemStatus.completed due stale h = (refl, refl)
completed-unclaimable ItemStatus.pending due stale h = cc
completed-unclaimable ItemStatus.processing due stale h = cc
completed-unclaimable ItemStatus.failed due stale h = cc

-- Another row's change leaves the row.
change_item-other :
    (id other : Text) (change : ControlOutbox → ControlOutbox) (items : List ControlOutbox)
    (item : ControlOutbox)
    → ((one : ControlOutbox) → (change one).id ≡ one.id)
    → find_item id items ≡ some item
    → same_text item.id other ≡ false
    → find_item id (change_item other change items) ≡ some item
unfolding change_item
change_item-other id other change items item hc hi h =
    find_item-map (change_at other change) id items item (change_at-id other change hc) hi
    ∙ ap some (if-false _ _ _ h)

module _ (w : WorkerConfig) (crypto : Crypto) (envelope : Envelope) (keyring : CredentialKeyring)
    (client : BifrostBindingClient) where
  complete_item-keeps :
      (o : Option ControlOutbox) (id other : Text) (item : ControlOutbox) (result : WorkResult)
      (fresh : Text) (now : ℕ) (read s s' : Control)
      → (same_text id other && shows_processing o) ≡ false
      → find_item id s.items ≡ some item
      → complete_item w crypto envelope keyring client o other result fresh now read s ≡ ok s'
      → find_item id s'.items ≡ some item
  complete_item-keeps none id other item result fresh now read s s' hr hi h =
      let same : s ≡ s' = cc in subst (λ x. find_item id x.items ≡ some item) same hi
  complete_item-keeps (some row) id other item result fresh now read s s' hr hi h =
      elim (Bool-cases (is_processing row.status)) [
        | inl e ↦
            let rows =
              complete_found-rows w crypto envelope keyring client row other result fresh now read s
                s' (sym (if-true _ _ _ e) ∙ h) in
            let apart : same_text id other ≡ false = ground arith in
            rw (← rows) (
              change_item-other id other (completed_item now) s.items item (λ one. refl) hi
                (ap (λ i. same_text i other) (find_item-id id s.items item hi) ∙ apart))
        | inr e ↦
            let done : ok s ≡ ok s' = sym (if-false _ _ _ e) ∙ h in
            let same : s ≡ s' = cc in subst (λ x. find_item id x.items ≡ some item) same hi
      ]

  fail_item-keeps :
      (o : Option ControlOutbox) (id other code : Text) (item : ControlOutbox) (retryable : Bool)
      (now : ℕ) (read s : Control)
      → (same_text id other && shows_processing o) ≡ false
      → find_item id s.items ≡ some item
      → find_item id
          (fail_item w crypto envelope keyring client o other code retryable now read s).items
        ≡ some item
  fail_item-keeps none id other code item retryable now read s hr hi = hi
  fail_item-keeps (some row) id other code item retryable now read s hr hi =
      elim (Bool-cases (is_processing row.status)) [
        | inl e ↦
            let apart : same_text id other ≡ false = ground arith in
            let change = failed_item w crypto envelope keyring client code retryable now row in
            rw e (
              change_item-other id other change s.items item (λ one. refl) hi
                (ap (λ i. same_text i other) (find_item-id id s.items item hi) ∙ apart))
        | inr e ↦ rw e hi
      ]

  or_unchanged-keeps :
      (id : Text) (item : ControlOutbox) (s : Control) (r : Result Failure Control)
      → find_item id s.items ≡ some item
      → ((s' : Control) → r ≡ ok s' → find_item id s'.items ≡ some item)
      → find_item id (or_unchanged w crypto envelope keyring client s r).items ≡ some item
  or_unchanged-keeps id item s (ok s') hi h = h s' refl
  or_unchanged-keeps id item s (err e) hi h = hi

  claim-keeps :
      (now : ℕ) (held : Text → Bool) (s : Control) (id : Text) (item : ControlOutbox)
      → find_item id s.items ≡ some item
      → is_completed item.status ≡ true
      → find_item id (claim w now held s).items ≡ some item
  unfolding claim
  claim-keeps now held s id item hi hc =
      let chosen = claimed_ids w now held s in
      let kept =
        find_item-map (claim_item w now chosen) id s.items item (claim_item-id w now chosen) hi in
      let (waits, stays) =
        completed-unclaimable item.status (leb item.available_at now)
          (is_stale w now item.locked_at) hc in
      let refused : is_chosen w now chosen item ≡ false = ground arith in
      kept ∙ ap some (if-false _ (mark now item) item refused)

  add_absent-keeps :
      (o : Option ControlOutbox) (new : ControlOutbox) (items : List ControlOutbox) (id : Text)
      (item : ControlOutbox)
      → find_item new.id items ≡ o
      → find_item id items ≡ some item
      → find_item id (add_absent o new items) ≡ some item
  unfolding find_item
  add_absent-keeps (some other) new items id item ho hi = hi
  add_absent-keeps none new items id item ho hi = elim (Bool-cases (same_text new.id id)) [
    | inl e ↦
        let gone : find_item id items ≡ none =
          ap (λ i. find_item i items) (sym (same_text-eq _ _ e)) ∙ ho in
        cc
    | inr e ↦ if-false _ (some new) _ e ∙ hi
  ]

  perform-keeps :
      (event : Event) (s : Control) (id : Text) (item : ControlOutbox)
      → has_read_open id event ≡ false
      → find_item id s.items ≡ some item
      → is_completed item.status ≡ true
      → find_item id (perform w crypto envelope keyring client event s).items ≡ some item
  unfolding perform add_item complete fail
  perform-keeps (claimed now held) s id item hr hi hc = claim-keeps now held s id item hi hc
  perform-keeps (completing other result fresh now read) s id item hr hi hc =
      or_unchanged-keeps id item s _ hi (λ s'.
        complete_item-keeps (find_item other read.items) id other item result fresh now read s s' hr
          hi)
  perform-keeps (failing other code retryable now read) s id item hr hi hc =
      fail_item-keeps (find_item other read.items) id other code item retryable now read s hr hi
  perform-keeps (queued item_id aggregate_id target action payload now) s id item hr hi hc =
      add_absent-keeps _ _ s.items id item refl hi
  perform-keeps (rebound bindings) s id item hr hi hc = hi

  -- A completed row is the same after any sequence of transactions in which every completion or
  -- failure of that row reads it when it is not processing: claims, new items, writes to bindings and
  -- transactions of other rows never change it.
  pub completed_is_final :
      (events : List Event) (s : Control) (id : Text) (item : ControlOutbox)
      → all_of (λ event. not (has_read_open id event)) events ≡ true
      → find_item id s.items ≡ some item
      → is_completed item.status ≡ true
      → find_item id (perform_all w crypto envelope keyring client events s).items ≡ some item
  unfolding perform_all
  completed_is_final [] s id item hr hi hc = hi
  completed_is_final (event ∷ events) s id item hr hi hc =
      completed_is_final events (perform w crypto envelope keyring client event s) id item
        (ground arith) (perform-keeps event s id item (ground arith) hi hc) hc
