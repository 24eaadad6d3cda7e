-- ===== src/Outbox/Reached.antt =====
-- What `_execute` of backend/app/workers/outbox.py accepts from Bifrost.
use zangpu.Base.{
  ◌≡◌, refl, sym, ◌∙◌, Bool-cases, if-true, if-false, Bool, true, false, Option, none, some, arith,
  inl, inr, Result, ok, err, bind-eq-ok, ◌>>◌, ◌⊎◌, raise_if, of_option, if◌then◌else◌, codes,
}
use zangpu.Signing.Canonical.{same_text}
use zangpu.Signing.Genuine.{same_text-eq}
use zangpu.Signing.Paths.{raise_if-passed}
use zangpu.Signing.Secrets.{of_option-ok}
use zangpu.Outbox.{
  Text, Action, VirtualKeySpec, VirtualKeyState, VirtualKeyCreationResult, BifrostOutboxPayload,
  ApiClientBinding,
}
use zangpu.Outbox.Binding.{is_given}
use zangpu.Outbox.Execute.{
  BifrostUpstreamError, Failure, upstream, value_error, BifrostBindingClient, WorkResult, created,
  changed, nothing, asked, get_text, protocol_error, differs_from, verify_desired, disabled_answer,
  disable, found_or_created, create, update, execute,
}

-- The state of a remote key is the desired one.
pub record Matches (state : VirtualKeyState) (desired : VirtualKeySpec) : Type 0 where
  pub name : state.name ≡ desired.name
  pub provider : state.provider ≡ desired.provider
  pub model : state.model ≡ desired.model
  pub is_active : state.is_active ≡ true

verify_desired-Matches :
    (state : VirtualKeyState) (desired : VirtualKeySpec) (u : Unit {0})
    → verify_desired state desired ≡ ok u
    → Matches state desired
verify_desired-Matches state desired u h =
    let same = raise_if-passed (differs_from state desired) _ u h in
    record {
      name = same_text-eq _ _ (ground arith);
      provider = same_text-eq _ _ (ground arith);
      model = same_text-eq _ _ (ground arith);
      is_active = ground arith;
    }

-- The item's binding has no key to disable, or Bifrost answers that it does not have it.
abbrev pub Missing : BifrostBindingClient → Option Text → Type 0
Missing client none = Unit {0}
Missing client (some key_id) =
    (e : BifrostUpstreamError) × (client.disable_virtual_key key_id ≡ err e)
    × (e.code ≡ codes "BIFROST_NOT_FOUND")

-- The key of the item's binding is one that Bifrost answers to have made inactive.
abbrev pub Disabled : BifrostBindingClient → Option Text → VirtualKeyState → Type 0
Disabled client none state = ⊥
Disabled client (some key_id) state =
    (client.disable_virtual_key key_id ≡ ok state) × (state.is_active ≡ false)

-- What a result says of the remote key.
abbrev pub Reached :
    BifrostBindingClient → Action → ApiClientBinding → BifrostOutboxPayload → WorkResult → Type 0
Reached client Action.disable binding payload r =
    ((r ≡ nothing) × Missing client binding.bifrost_virtual_key_id)
    ⊎ ((state : VirtualKeyState) × (r ≡ changed state)
        × Disabled client binding.bifrost_virtual_key_id state)
Reached client Action.create binding payload r =
    (desired : VirtualKeySpec) × (payload.desired ≡ some desired)
    × (result : VirtualKeyCreationResult) × (r ≡ created result)
    × Matches result.state desired
Reached client Action.update binding payload r =
    (desired : VirtualKeySpec) × (payload.desired ≡ some desired)
    × (state : VirtualKeyState) × (r ≡ changed state)
    × Matches state desired
Reached client Action.compensate binding payload r = ⊥

if-ok {ℓ} :
    {A : Type ℓ} (b : Bool) (m n : Result Failure A) (a : A)
    → (if b then m else n) ≡ ok a
    → (m ≡ ok a) ⊎ (n ≡ ok a)
if-ok true m n a h = inl h
if-ok false m n a h = inr h

module _ (client : BifrostBindingClient) where
  verified-result :
      (state : VirtualKeyState) (desired : VirtualKeySpec) (result r : WorkResult)
      → (verify_desired state desired >> ok result) ≡ ok r
      → (r ≡ result) × Matches state desired
  verified-result state desired result r h =
      let (u, good, h1) = bind-eq-ok (verify_desired state desired) _ h in
      (cc, verify_desired-Matches state desired u good)

  create-Matches :
      (binding : ApiClientBinding) (desired : VirtualKeySpec) (r : WorkResult)
      → create client binding desired ≡ ok r
      → (result : VirtualKeyCreationResult) × (r ≡ created result) × Matches result.state desired
  unfolding create
  create-Matches binding desired r h =
      elim (if-ok (is_given binding.bifrost_virtual_key_id) _ _ r h) [
        | inl stored ↦
            let (result, e1, h1) =
              bind-eq-ok
                (asked (
                  client.get_virtual_key_material (get_text client binding.bifrost_virtual_key_id)))
                _ stored in
            let (e, m) = verified-result result.state desired (created result) r h1 in
            (result, e, m)
        | inr fresh ↦
            let (existing, e1, h1) =
              bind-eq-ok (asked (client.find_virtual_key_by_name desired.name)) _ fresh in
            let (result, e2, h2) = bind-eq-ok (found_or_created client desired existing) _ h1 in
            let (e, m) = verified-result result.state desired (created result) r h2 in
            (result, e, m)
      ]

  update-Matches :
      (binding : ApiClientBinding) (desired : VirtualKeySpec) (r : WorkResult)
      → update client binding desired ≡ ok r
      → (state : VirtualKeyState) × (r ≡ changed state) × Matches state desired
  unfolding update
  update-Matches binding desired r h =
      elim (if-ok (is_given binding.bifrost_virtual_key_id) _ _ r h) [
        | inl stored ↦
            let (state, e1, h1) =
              bind-eq-ok
                (asked (
                  client.update_virtual_key (get_text client binding.bifrost_virtual_key_id)
                    desired))
                _ stored in
            let (e, m) = verified-result state desired (changed state) r h1 in (state, e, m)
        | inr none_stored ↦ cc
      ]

  disabled_answer-Reached :
      (key_id : Text) (answer : Result BifrostUpstreamError VirtualKeyState) (r : WorkResult)
      → client.disable_virtual_key key_id ≡ answer
      → disabled_answer client answer ≡ ok r
      → ((r ≡ nothing) × Missing client (some key_id))
        ⊎ ((state : VirtualKeyState) × (r ≡ changed state) × Disabled client (some key_id) state)
  disabled_answer-Reached key_id (ok state) r asked_for h =
      let (u, idle, h1) = bind-eq-ok (raise_if state.is_active protocol_error) _ h in
      inr (state, cc, (asked_for, raise_if-passed state.is_active _ u idle))
  disabled_answer-Reached key_id (err e) r asked_for h =
      elim (Bool-cases (same_text e.code (codes "BIFROST_NOT_FOUND"))) [
        | inl missing ↦
            let done : ok nothing ≡ ok r = sym (if-true _ _ (err (upstream e)) missing) ∙ h in
            inl (cc, (e, asked_for, same_text-eq _ _ missing))
        | inr other ↦
            let raised : err (upstream e) ≡ ok r = sym (if-false _ (ok nothing) _ other) ∙ h in cc
      ]

  disable-Reached :
      (key_id : Option Text) (r : WorkResult)
      → disable client key_id ≡ ok r
      → ((r ≡ nothing) × Missing client key_id)
        ⊎ ((state : VirtualKeyState) × (r ≡ changed state) × Disabled client key_id state)
  disable-Reached none r h = inl (cc, tt)
  disable-Reached (some key_id) r h =
      disabled_answer-Reached key_id (client.disable_virtual_key key_id) r refl h

  -- What `_execute` accepts is what the item asks: for a creation or an update the payload desires a
  -- key, and the key that Bifrost reports has the desired name, provider and model and is active; for
  -- a disabling the binding has no key, or Bifrost answers that it does not have the key, or it
  -- reports it inactive; and no other action succeeds.
  pub execute_reaches :
      (action : Action) (binding : ApiClientBinding) (payload : BifrostOutboxPayload)
      (r : WorkResult)
      → execute client action binding payload ≡ ok r
      → Reached client action binding payload r
  unfolding execute
  execute_reaches Action.disable binding payload r h =
      disable-Reached binding.bifrost_virtual_key_id r h
  execute_reaches Action.create binding payload r h =
      let (desired, e, h1) = bind-eq-ok (of_option payload.desired value_error) _ h in
      let (result, same, m) = create-Matches binding desired r h1 in
      (desired, of_option-ok payload.desired _ desired e, result, same, m)
  execute_reaches Action.update binding payload r h =
      let (desired, e, h1) = bind-eq-ok (of_option payload.desired value_error) _ h in
      let (state, same, m) = update-Matches binding desired r h1 in
      (desired, of_option-ok payload.desired _ desired e, state, same, m)
  execute_reaches Action.compensate binding payload r h = cc
