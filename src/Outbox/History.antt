-- ===== src/Outbox/History.antt =====
-- Histories of the outbox: any sequence of transactions of workers and of the services that queue
-- items, in any order. A worker that dies simply has no further event.
use zangpu.Base.{
  ℕ, ◌≡◌, refl, sym, ◌∙◌, Bool, true, false, List, Option, none, some, Bool-cases, inl, inr, Result,
  ok, err, bind-eq-ok, of_option, if-true, if-false, codes,
}
use zangpu.Signing.Crypto.{Crypto}
use zangpu.Signing.Keyring.{CredentialKeyring}
use zangpu.Outbox.{Text, ControlOutbox, Control, is_processing, find_item, change_item}
use zangpu.Outbox.Binding.{Envelope}
use zangpu.Outbox.Claim.{WorkerConfig, claim_item, claim, claimed_ids}
use zangpu.Outbox.Execute.{
  Failure, upstream, value_error, uncaught, BifrostBindingClient, WorkResult,
}
use zangpu.Outbox.Process.{
  completed_item, completed_binding, complete_found, complete_item, complete, failed_item,
  fail_item, fail, caught, committed, conclude, read_payload,
}
use zangpu.Outbox.Moves.{
  is_fit, Moves, Moves-refl, completed_item-Moves, failed_item-Moves, claim_item-Moves,
  change_item-Moves,
}
use zangpu.Outbox.Rows.{find_item-map, find_item-map-none, change_item-none, claim_item-id}

-- What a transaction does to every row.
pub record Carries (w : WorkerConfig) (before after : List ControlOutbox) : Type 0 where
  pub moves :
      (id : Text) (a : ControlOutbox)
      → find_item id before ≡ some a
      → is_fit w a ≡ true
      → (b : ControlOutbox) × (find_item id after ≡ some b) × Moves w a b
  pub new :
      (id : Text) (b : ControlOutbox)
      → find_item id before ≡ none
      → find_item id after ≡ some b
      → is_fit w b ≡ true

pub Carries-refl : (w : WorkerConfig) (items : List ControlOutbox) → Carries w items items
Carries-refl w items = record { moves = λ id a h k. (a, h, Moves-refl w a k); new = λ id b h k. cc }

-- What a completion writes to the items.
pub complete_found-rows :
    (w : WorkerConfig) (crypto : Crypto) (envelope : Envelope) (keyring : CredentialKeyring)
    (client : BifrostBindingClient) (item : ControlOutbox) (id : Text) (result : WorkResult)
    (fresh : Text) (now : ℕ) (read s s' : Control)
    → complete_found w crypto envelope keyring client item id result fresh now read s ≡ ok s'
    → change_item id (completed_item now) s.items ≡ s'.items
unfolding complete_found
complete_found-rows w crypto envelope keyring client item id result fresh now read s s' h =
    let (binding, e1, h1) =
      bind-eq-ok (of_option (read.bindings item.aggregate_id) value_error) _ h in
    let (payload, e2, h2) = bind-eq-ok (read_payload item.payload) _ h1 in
    let (next, e3, h3) =
      bind-eq-ok
        (completed_binding w crypto envelope keyring client item.action result fresh now binding) _
        h2 in
    cc

-- A relation of tables that holds of a table and itself, and when a row is completed or fails, holds
-- for both transactions that end a `_process`, whatever they have read.
module _ (w : WorkerConfig) (crypto : Crypto) (envelope : Envelope) (keyring : CredentialKeyring)
    (client : BifrostBindingClient) (Related : List ControlOutbox → List ControlOutbox → Type 0)
    (same : (items : List ControlOutbox) → Related items items)
    (completing : (id : Text) (now : ℕ) (items : List ControlOutbox)
      → Related items (change_item id (completed_item now) items))
    (failing : (id code : Text) (retryable : Bool) (now : ℕ) (items : List ControlOutbox)
        (row : ControlOutbox)
      → Related items (
          change_item id
            (failed_item w crypto envelope keyring client code retryable now row)
            items)) where
  fail_item-Related :
      (o : Option ControlOutbox) (id code : Text) (retryable : Bool) (now : ℕ) (read s : Control)
      → Related s.items
          (fail_item w crypto envelope keyring client o id code retryable now read s).items
  fail_item-Related none id code retryable now read s = same s.items
  fail_item-Related (some item) id code retryable now read s =
      elim (Bool-cases (is_processing item.status)) [
        | inl e ↦ rw e (failing id code retryable now s.items item)
        | inr e ↦ rw e (same s.items)
      ]

  pub fail-Related :
      (id code : Text) (retryable : Bool) (now : ℕ) (read s : Control)
      → Related s.items (fail w crypto envelope keyring client id code retryable now read s).items
  unfolding fail
  fail-Related id code retryable now read s =
      fail_item-Related (find_item id read.items) id code retryable now read s

  caught-Related :
      (e : Failure) (id : Text) (now : ℕ) (s : Control)
      → Related s.items ((caught w crypto envelope keyring client e id now s).0).items
  caught-Related (upstream e) id now s = fail-Related id e.code e.retryable now s s
  caught-Related value_error id now s =
      fail-Related id (codes "BIFROST_RECONCILIATION_FAILED") false now s s
  caught-Related uncaught id now s = same s.items

  complete_item-Related :
      (o : Option ControlOutbox) (id : Text) (result : WorkResult) (fresh : Text) (now : ℕ)
      (read s s' : Control)
      → complete_item w crypto envelope keyring client o id result fresh now read s ≡ ok s'
      → Related s.items s'.items
  complete_item-Related none id result fresh now read s s' h =
      let unchanged : s.items ≡ s'.items = cc in rw (← unchanged) (same s.items)
  complete_item-Related (some item) id result fresh now read s s' h =
      elim (Bool-cases (is_processing item.status)) [
        | inl e ↦
            let rows =
              complete_found-rows w crypto envelope keyring client item id result fresh now read s
                s' (sym (if-true _ _ _ e) ∙ h) in
            rw (← rows) (completing id now s.items)
        | inr e ↦
            let done : ok s ≡ ok s' = sym (if-false _ _ _ e) ∙ h in
            let unchanged : s.items ≡ s'.items = cc in rw (← unchanged) (same s.items)
      ]

  pub complete-Related :
      (id : Text) (result : WorkResult) (fresh : Text) (now : ℕ) (read s s' : Control)
      → complete w crypto envelope keyring client id result fresh now read s ≡ ok s'
      → Related s.items s'.items
  unfolding complete
  complete-Related id result fresh now read s s' =
      complete_item-Related (find_item id read.items) id result fresh now read s s'

  committed-Related :
      (r : Result Failure Control) (id : Text) (now : ℕ) (s : Control)
      → ((s' : Control) → r ≡ ok s' → Related s.items s'.items)
      → Related s.items ((committed w crypto envelope keyring client r id now s).0).items
  committed-Related (ok s') id now s h = h s' refl
  committed-Related (err e) id now s h = caught-Related e id now s

  pub conclude-Related :
      (outcome : Result Failure WorkResult) (id fresh : Text) (now : ℕ) (s : Control)
      → Related s.items ((conclude w crypto envelope keyring client outcome id fresh now s).0).items
  unfolding conclude
  conclude-Related (ok result) id fresh now s =
      committed-Related _ id now s (λ s'. complete-Related id result fresh now s s s')
  conclude-Related (err e) id fresh now s = caught-Related e id now s

change-Carries :
    (w : WorkerConfig) (id : Text) (change : ControlOutbox → ControlOutbox)
    (items : List ControlOutbox)
    → ((one : ControlOutbox) → (change one).id ≡ one.id)
    → ((one : ControlOutbox) → is_fit w one ≡ true → Moves w one (change one))
    → Carries w items (change_item id change items)
change-Carries w id change items hc m = record {
  moves = λ other a ha hf. change_item-Moves w id change items hc m other a ha hf;
  new = λ other b h k. let gone = change_item-none id change items other hc h in cc;
}

module _ (w : WorkerConfig) (crypto : Crypto) (envelope : Envelope) (keyring : CredentialKeyring)
    (client : BifrostBindingClient) where
  completed-Carries :
      (id : Text) (now : ℕ) (items : List ControlOutbox)
      → Carries w items (change_item id (completed_item now) items)
  completed-Carries id now items =
      change-Carries w id (completed_item now) items (λ one. refl)
        (λ one. completed_item-Moves w one now)

  failed-Carries :
      (id code : Text) (retryable : Bool) (now : ℕ) (items : List ControlOutbox)
      (row : ControlOutbox)
      → Carries w items (
          change_item id
            (failed_item w crypto envelope keyring client code retryable now row)
            items)
  failed-Carries id code retryable now items row =
      change-Carries w id _ items (λ one. refl)
        (λ one. failed_item-Moves w crypto envelope keyring client row one code retryable now)

  pub complete-Carries :
      (id : Text) (result : WorkResult) (fresh : Text) (now : ℕ) (read s s' : Control)
      → complete w crypto envelope keyring client id result fresh now read s ≡ ok s'
      → Carries w s.items s'.items
  complete-Carries =
      complete-Related w crypto envelope keyring client (Carries w) (Carries-refl w)
        completed-Carries failed-Carries

  pub fail-Carries :
      (id code : Text) (retryable : Bool) (now : ℕ) (read s : Control)
      → Carries w s.items (fail w crypto envelope keyring client id code retryable now read s).items
  fail-Carries =
      fail-Related w crypto envelope keyring client (Carries w) (Carries-refl w) completed-Carries
        failed-Carries

pub claim-Carries :
    (w : WorkerConfig) (now : ℕ) (held : Text → Bool) (s : Control)
    → Carries w s.items (claim w now held s).items
unfolding claim
claim-Carries w now held s =
    let chosen = claimed_ids w now held s in
    record {
      moves = λ id a ha hf. (
        claim_item w now chosen a,
        find_item-map (claim_item w now chosen) id s.items a (claim_item-id w now chosen) ha,
        claim_item-Moves w now chosen a hf,
      );
      new = λ id b h k.
          let gone =
            find_item-map-none (claim_item w now chosen) id s.items (claim_item-id w now chosen)
              h in
          cc;
    }
