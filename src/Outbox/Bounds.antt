-- ===== src/Outbox/Bounds.antt =====
-- Sequences of the outbox's transactions, those of the workers of backend/app/workers/outbox.py and of
-- the services that queue items, in any order. A worker that dies simply has no further event. A claim
-- locks its rows, so it is one step; a completion and a failure come with the tables that they read
-- before, which need not be the ones they write to.
use mathlib.Core.Path.{subst}
use zangpu.Base.{
  ℕ, ◌+◌, ◌≡◌, refl, sym, ap, ◌∙◌, ◌≤◌, Bool, true, false, List, [], ◌∷◌, Option, none, some, map,
  arith, Bool-cases, Option-cases, inl, inr, Result, ok, err, if◌then◌else◌, if-true, if-false,
}
use zangpu.Signing.Canonical.{same_text}
use zangpu.Signing.Genuine.{same_text-eq}
use zangpu.Signing.Crypto.{Crypto}
use zangpu.Signing.Keyring.{CredentialKeyring}
use zangpu.Outbox.{
  Text, Target, Action, Payload, ControlOutbox, Control, ApiClientBinding, find_item,
}
use zangpu.Outbox.Binding.{Envelope}
use zangpu.Outbox.Claim.{WorkerConfig, is_config, is_chosen, mark, claim_item, claim, claimed_ids}
use zangpu.Outbox.Execute.{Failure, BifrostBindingClient, WorkResult}
use zangpu.Outbox.Process.{complete, fail}
use zangpu.Outbox.Queue.{pending_item, add_item, add_absent}
use zangpu.Outbox.Moves.{is_fit, Moves-refl}
use zangpu.Outbox.Rows.{find_item-map, claim_item-id}
use zangpu.Outbox.History.{Carries, Carries-refl, complete-Carries, fail-Carries, claim-Carries}

-- One transaction: a claim, a `_complete` with any result, a `_fail` with any code, each of them with
-- the tables that it read, a new item, or a write to the bindings by another service.
pub data Event : Type 0 where
  claimed : ℕ → (Text → Bool) → Event
  completing : Text → WorkResult → Text → ℕ → Control → Event
  failing : Text → Text → Bool → ℕ → Control → Event
  queued : Text → Text → Target → Action → Payload → ℕ → Event
  rebound : (Text → Option ApiClientBinding) → Event

-- Every row is as its status says, with its attempts within the bound.
abbrev pub IsSound : WorkerConfig → Control → Type 0
IsSound w s = (id : Text) (a : ControlOutbox) → find_item id s.items ≡ some a → is_fit w a ≡ true

pending_item-is_fit :
    (w : WorkerConfig) (id aggregate_id : Text) (target : Target) (action : Action)
    (payload : Payload) (now : ℕ)
    → is_fit w (pending_item id aggregate_id target action payload now) ≡ true
pending_item-is_fit w id aggregate_id target action payload now = ground arith

add_absent-Carries :
    (w : WorkerConfig) (o : Option ControlOutbox) (item : ControlOutbox)
    (items : List ControlOutbox)
    → find_item item.id items ≡ o
    → is_fit w item ≡ true
    → Carries w items (add_absent o item items)
unfolding find_item
add_absent-Carries w (some other) item items ho hf = Carries-refl w items
add_absent-Carries w none item items ho hf = record {
  moves = λ id a ha ka. elim (Bool-cases (same_text item.id id)) [
    | inl e ↦
        let gone : find_item id items ≡ none =
          ap (λ i. find_item i items) (sym (same_text-eq _ _ e)) ∙ ho in
        cc
    | inr e ↦ (a, if-false _ (some item) _ e ∙ ha, Moves-refl w a ka)
  ];
  new = λ id b h k. elim (Bool-cases (same_text item.id id)) [
    | inl e ↦
        let found : some item ≡ some b = sym (if-true _ _ (find_item id items) e) ∙ k in
        let same : item ≡ b = cc in subst (λ x. is_fit w x ≡ true) same hf
    | inr e ↦ let found : find_item id items ≡ some b = sym (if-false _ (some item) _ e) ∙ k in cc
  ];
}

abbrev attempts_of : Option ControlOutbox → ℕ
attempts_of none = 0
attempts_of (some item) = item.attempt_count

module _ (w : WorkerConfig) (crypto : Crypto) (envelope : Envelope) (keyring : CredentialKeyring)
    (client : BifrostBindingClient) where
  -- A transaction that raises is rolled back.
  abbrev pub or_unchanged : Control → Result Failure Control → Control
  or_unchanged s (ok s') = s'
  or_unchanged s (err e) = s

  unfoldable pub perform : Event → Control → Control
  perform (claimed now held) s = claim w now held s
  perform (completing id result fresh now read) s =
      or_unchanged s (complete w crypto envelope keyring client id result fresh now read s)
  perform (failing id code retryable now read) s =
      fail w crypto envelope keyring client id code retryable now read s
  perform (queued id aggregate_id target action payload now) s = record s {
    items = add_item (pending_item id aggregate_id target action payload now) s.items;
  }
  perform (rebound bindings) s = record s { bindings = bindings }

  unfoldable pub perform_all : List Event → Control → Control
  perform_all [] s = s
  perform_all (event ∷ events) s = perform_all events (perform event s)

  -- Whether the transaction claims the row.
  abbrev row_chosen : ℕ → List Text → Option ControlOutbox → ℕ
  row_chosen now chosen none = 0
  row_chosen now chosen (some item) = if is_chosen w now chosen item then 1 else 0

  abbrev pub claims_by : Event → Text → Control → ℕ
  claims_by (claimed now held) id s =
      row_chosen now (claimed_ids w now held s) (find_item id s.items)
  claims_by (completing item_id result fresh now read) id s = 0
  claims_by (failing item_id code retryable now read) id s = 0
  claims_by (queued item_id aggregate_id target action payload now) id s = 0
  claims_by (rebound bindings) id s = 0

  -- How often the events claim the row.
  unfoldable pub claims : List Event → Text → Control → ℕ
  claims [] id s = 0
  claims (event ∷ events) id s = claims_by event id s + claims events id (perform event s)

  -- A row that has used all its attempts is left as it is by every claim at every time, also when
  -- it is in processing and its lock is out of date.
  pub exhausted_never_claimed :
      (s : Control) (id : Text) (item : ControlOutbox) (now : ℕ) (held : Text → Bool)
      → find_item id s.items ≡ some item
      → w.max_attempts ≤ item.attempt_count
      → find_item id (claim w now held s).items ≡ some item
  unfolding claim
  exhausted_never_claimed s id item now held hi hm =
      let chosen = claimed_ids w now held s in
      let kept =
        find_item-map (claim_item w now chosen) id s.items item (claim_item-id w now chosen) hi in
      let refused : is_chosen w now chosen item ≡ false = ground arith in
      kept ∙ ap some (if-false _ (mark now item) item refused)

  module _ (hw : is_config w ≡ true) where
    or_unchanged-Carries :
        (s : Control) (r : Result Failure Control)
        → ((s' : Control) → r ≡ ok s' → Carries w s.items s'.items)
        → Carries w s.items (or_unchanged s r).items
    or_unchanged-Carries s (ok s') h = h s' refl
    or_unchanged-Carries s (err e) h = Carries-refl w s.items

    perform-Carries : (event : Event) (s : Control) → Carries w s.items (perform event s).items
    unfolding perform add_item
    perform-Carries (claimed now held) s = claim-Carries w now held s
    perform-Carries (completing id result fresh now read) s =
        or_unchanged-Carries s _
          (complete-Carries w crypto envelope keyring client id result fresh now read s)
    perform-Carries (failing id code retryable now read) s =
        fail-Carries w crypto envelope keyring client id code retryable now read s
    perform-Carries (queued id aggregate_id target action payload now) s =
        add_absent-Carries w _ _ s.items refl
          (pending_item-is_fit w id aggregate_id target action payload now)
    perform-Carries (rebound bindings) s = Carries-refl w s.items

    perform-IsSound : (event : Event) (s : Control) → IsSound w s → IsSound w (perform event s)
    perform-IsSound event s hs id b hb = elim (Option-cases (find_item id s.items)) [
      | inl gone ↦ (perform-Carries event s).new id b gone hb
      | inr (a, ha) ↦
          let (b', hb', m) = (perform-Carries event s).moves id a ha (hs id a ha) in
          let same : b' ≡ b = cc in subst (λ x. is_fit w x ≡ true) same m.fit
    ]

    -- With bounds that the worker accepts: if every row has its attempts within the bound, is locked
    -- exactly while it is processing, has a completion time when it is completed, and has none while
    -- it is pending, every sequence of transactions keeps it so, also where the unlocked reads of
    -- completions and failures are out of date in any way.
    pub perform_all-IsSound :
        (events : List Event) (s : Control) → IsSound w s → IsSound w (perform_all events s)
    unfolding perform_all
    perform_all-IsSound [] s hs = hs
    perform_all-IsSound (event ∷ events) s hs =
        perform_all-IsSound events (perform event s) (perform-IsSound event s hs)

    row_chosen-counts :
        (now : ℕ) (chosen : List Text) (a : ControlOutbox)
        → a.attempt_count + row_chosen now chosen (some a)
          ≡ (claim_item w now chosen a).attempt_count
    row_chosen-counts now chosen a = elim (Bool-cases (is_chosen w now chosen a)) [
      | inl h ↦ rw h refl
      | inr h ↦ rw h (omega arith)
    ]

    -- A transaction never takes an attempt back.
    attempts-grow :
        (before after : List ControlOutbox) (id : Text)
        → Carries w before after
        → ((a : ControlOutbox) → find_item id before ≡ some a → is_fit w a ≡ true)
        → attempts_of (find_item id before) ≤ attempts_of (find_item id after)
    attempts-grow before after id c hs = elim (Option-cases (find_item id before)) [
      | inl gone ↦ rw gone (omega arith)
      | inr (a, ha) ↦ let (b, hb, m) = c.moves id a ha (hs a ha) in rw (ha, hb) m.attempts
    ]

    claim-attempts :
        (now : ℕ) (chosen : List Text) (id : Text) (items : List ControlOutbox)
        → attempts_of (find_item id items) + row_chosen now chosen (find_item id items)
          ≤ attempts_of (find_item id (map (claim_item w now chosen) items))
    claim-attempts now chosen id items = elim (Option-cases (find_item id items)) [
      | inl gone ↦ rw gone (omega arith)
      | inr (a, ha) ↦
          let after =
            find_item-map (claim_item w now chosen) id items a (claim_item-id w now chosen) ha in
          let counts = row_chosen-counts now chosen a in rw (ha, after, counts) (omega arith)
    ]

    claims_by-attempts :
        (event : Event) (id : Text) (s : Control)
        → IsSound w s
        → attempts_of (find_item id s.items) + claims_by event id s
          ≤ attempts_of (find_item id (perform event s).items)
    unfolding perform claim
    claims_by-attempts (claimed now held) id s hs =
        claim-attempts now (claimed_ids w now held s) id s.items
    claims_by-attempts (completing item_id result fresh now read) id s hs =
        let more =
          attempts-grow s.items _ id (perform-Carries (completing item_id result fresh now read) s)
            (hs id) in
        omega arith
    claims_by-attempts (failing item_id code retryable now read) id s hs =
        let more =
          attempts-grow s.items _ id (perform-Carries (failing item_id code retryable now read) s)
            (hs id) in
        omega arith
    claims_by-attempts (queued item_id aggregate_id target action payload now) id s hs =
        let more =
          attempts-grow s.items _ id
            (perform-Carries (queued item_id aggregate_id target action payload now) s) (hs id) in
        omega arith
    claims_by-attempts (rebound bindings) id s hs = omega arith

    claims-attempts :
        (events : List Event) (id : Text) (s : Control)
        → IsSound w s
        → attempts_of (find_item id s.items) + claims events id s
          ≤ attempts_of (find_item id (perform_all events s).items)
    unfolding claims perform_all
    claims-attempts [] id s hs = omega arith
    claims-attempts (event ∷ events) id s hs =
        let now = claims_by-attempts event id s hs in
        let later = claims-attempts events id (perform event s) (perform-IsSound event s hs) in
        omega arith

    attempts-bound :
        (s : Control) (id : Text)
        → IsSound w s
        → attempts_of (find_item id s.items) ≤ w.max_attempts
    attempts-bound s id hs = elim (Option-cases (find_item id s.items)) [
      | inl gone ↦ rw gone (omega arith)
      | inr (a, ha) ↦ let fit = hs id a ha in rw ha (ground arith)
    ]

    -- With bounds that the worker accepts, from a sound table: over every sequence of transactions,
    -- which includes every crash of a worker, a row is claimed at most `max_attempts` times.
    pub claims_bounded :
        (events : List Event) (id : Text) (s : Control)
        → IsSound w s
        → claims events id s ≤ w.max_attempts
    claims_bounded events id s hs =
        let grown = claims-attempts events id s hs in
        let bound = attempts-bound (perform_all events s) id (perform_all-IsSound events s hs) in
        omega arith
