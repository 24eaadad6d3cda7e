-- ===== src/Outbox/Caught.antt =====
-- Which exceptions `_process` of backend/app/workers/outbox.py lets through.
use zangpu.Base.{
  ◌≡◌, refl, ℕ, Bool, true, false, not, ◌||◌, Option, none, some, Bool-cases, inl, inr, Result, ok,
  err, bind, raise_if, of_option, length, ◌==◌, any_of, if◌then◌else◌,
}
use zangpu.Signing.Crypto.{Crypto}
use zangpu.Signing.Keyring.{CredentialKeyring, HoldsActive, encrypt, bad_value, aad_values}
use zangpu.Outbox.{
  Text, Action, VirtualKeySpec, VirtualKeyState, VirtualKeyCreationResult, BifrostOutboxPayload,
  Payload, valid, invalid, ApiClientBinding, ControlOutbox, Control, is_processing, is_bifrost,
  find_item,
}
use zangpu.Outbox.Binding.{Envelope, is_given, binding_aad, persist_created_binding}
use zangpu.Outbox.Claim.{WorkerConfig}
use zangpu.Outbox.Execute.{
  BifrostUpstreamError, Failure, upstream, value_error, uncaught, BifrostBindingClient, WorkResult,
  created, changed, nothing, asked, protocol_error, differs_from, verify_desired, disabled_answer,
  disable, found_or_created, create, update, execute,
}
use zangpu.Outbox.Process.{
  load, completed_binding, complete_found, complete_item, read_payload, kept, attempt,
}

-- A value, or an exception that `_process` catches.
abbrev pub is_caught {ℓ} : {A : Type ℓ} → Result Failure A → Bool
is_caught (ok a) = true
is_caught (err (upstream e)) = true
is_caught (err value_error) = true
is_caught (err uncaught) = false

is_caught-bind {ℓ κ} :
    {A : Type ℓ} {B : Type κ} (m : Result Failure A) (f : A → Result Failure B)
    → is_caught m ≡ true
    → ((a : A) → is_caught (f a) ≡ true)
    → is_caught (bind m f) ≡ true
is_caught-bind (ok a) f hm hf = hf a
is_caught-bind (err (upstream e)) f hm hf = refl
is_caught-bind (err value_error) f hm hf = refl
is_caught-bind (err uncaught) f hm hf = cc

is_caught-raise_if :
    (b : Bool) (e : Failure)
    → is_caught {A = Unit {0}} (err e) ≡ true
    → is_caught (raise_if b e) ≡ true
is_caught-raise_if true e h = h
is_caught-raise_if false e h = refl

is_caught-of_option {ℓ} : {A : Type ℓ} (o : Option A) → is_caught (of_option o value_error) ≡ true
is_caught-of_option none = refl
is_caught-of_option (some a) = refl

is_caught-asked {ℓ} :
    {A : Type ℓ} (answer : Result BifrostUpstreamError A) → is_caught (asked answer) ≡ true
is_caught-asked (ok a) = refl
is_caught-asked (err e) = refl

is_caught-if {ℓ} :
    {A : Type ℓ} (b : Bool) (m n : Result Failure A)
    → is_caught m ≡ true
    → is_caught n ≡ true
    → is_caught (if b then m else n) ≡ true
is_caught-if true m n hm hn = hm
is_caught-if false m n hm hn = hn

is_caught-read_payload : (payload : Payload) → is_caught (read_payload payload) ≡ true
is_caught-read_payload (valid payload) = refl
is_caught-read_payload (invalid version) = refl

module _ (client : BifrostBindingClient) where
  is_caught-verified :
      (state : VirtualKeyState) (desired : VirtualKeySpec) (result : WorkResult)
      → is_caught (bind (verify_desired state desired) (λ u. ok result)) ≡ true
  is_caught-verified state desired result =
      is_caught-bind (verify_desired state desired) (λ u. ok result)
        (is_caught-raise_if (differs_from state desired) protocol_error refl) (λ u. refl)

  is_caught-found_or_created :
      (desired : VirtualKeySpec) (existing : Option VirtualKeyCreationResult)
      → is_caught (found_or_created client desired existing) ≡ true
  is_caught-found_or_created desired none = is_caught-asked (client.create_virtual_key desired)
  is_caught-found_or_created desired (some result) = refl

  is_caught-create :
      (binding : ApiClientBinding) (desired : VirtualKeySpec)
      → is_caught (create client binding desired) ≡ true
  unfolding create
  is_caught-create binding desired =
      is_caught-if (is_given binding.bifrost_virtual_key_id) _ _
        (is_caught-bind (asked (client.get_virtual_key_material _)) _ (is_caught-asked _)
          (λ result. is_caught-verified result.state desired (created result)))
        (is_caught-bind (asked (client.find_virtual_key_by_name desired.name)) _ (is_caught-asked _)
          (λ existing.
            is_caught-bind (found_or_created client desired existing) _
              (is_caught-found_or_created desired existing)
              (λ result. is_caught-verified result.state desired (created result))))

  is_caught-update :
      (binding : ApiClientBinding) (desired : VirtualKeySpec)
      → is_caught (update client binding desired) ≡ true
  unfolding update
  is_caught-update binding desired =
      is_caught-if (is_given binding.bifrost_virtual_key_id) _ _
        (is_caught-bind (asked (client.update_virtual_key _ desired)) _ (is_caught-asked _)
          (λ state. is_caught-verified state desired (changed state)))
        refl

  is_caught-disabled_answer :
      (answer : Result BifrostUpstreamError VirtualKeyState)
      → is_caught (disabled_answer client answer) ≡ true
  is_caught-disabled_answer (ok state) =
      is_caught-bind (raise_if state.is_active protocol_error) _
        (is_caught-raise_if state.is_active protocol_error refl) (λ u. refl)
  is_caught-disabled_answer (err e) = is_caught-if _ (ok nothing) (err (upstream e)) refl refl

  is_caught-disable : (key_id : Option Text) → is_caught (disable client key_id) ≡ true
  is_caught-disable none = refl
  is_caught-disable (some key_id) = is_caught-disabled_answer (client.disable_virtual_key key_id)

  pub is_caught-execute :
      (action : Action) (binding : ApiClientBinding) (payload : BifrostOutboxPayload)
      → is_caught (execute client action binding payload) ≡ true
  unfolding execute
  is_caught-execute Action.disable binding payload =
      is_caught-disable binding.bifrost_virtual_key_id
  is_caught-execute Action.create binding payload =
      is_caught-bind (of_option payload.desired value_error) _ (is_caught-of_option payload.desired)
        (is_caught-create binding)
  is_caught-execute Action.update binding payload =
      is_caught-bind (of_option payload.desired value_error) _ (is_caught-of_option payload.desired)
        (is_caught-update binding)
  is_caught-execute Action.compensate binding payload = refl

is_caught-load : (item_id : Text) (s : Control) → is_caught (load item_id s) ≡ true
unfolding load
is_caught-load item_id s =
    is_caught-bind (of_option (find_item item_id s.items) value_error) _ (is_caught-of_option _)
      (λ item.
        is_caught-bind
          (raise_if (not (is_processing item.status) || not (is_bifrost item.target)) value_error) _
          (is_caught-raise_if _ value_error refl)
          (λ u.
            is_caught-bind (of_option (s.bindings item.aggregate_id) value_error) _
              (is_caught-of_option _)
              (λ binding.
                is_caught-bind (raise_if (not item.aggregate_is_binding) value_error) _
                  (is_caught-raise_if _ value_error refl)
                  (λ v.
                    is_caught-bind (read_payload item.payload) _
                      (is_caught-read_payload item.payload) (λ payload. refl)))))

module _ (w : WorkerConfig) (crypto : Crypto) (envelope : Envelope) (keyring : CredentialKeyring)
    (client : BifrostBindingClient) where
  pub is_caught-attempt :
      (item_id : Text) (s : Control)
      → is_caught (attempt w crypto envelope keyring client item_id s) ≡ true
  is_caught-attempt item_id s =
      is_caught-bind (load item_id s) _ (is_caught-load item_id s)
        (λ loaded. is_caught-execute client (loaded.0) (loaded.1) (loaded.2))

  is_caught-kept :
      HoldsActive keyring
      → (binding : ApiClientBinding) (result : VirtualKeyCreationResult) (fresh : Text) (now : ℕ)
      → is_caught (kept (persist_created_binding crypto envelope keyring binding result fresh now))
        ≡ true
  unfolding persist_created_binding binding_aad encrypt
  is_caught-kept (key, hk) binding result fresh now =
      elim (Bool-cases (
        any_of bad_value
          (aad_values binding.id binding.api_client_id result.state.id keyring.active_key_id))) [
            | inl bad ↦ rw bad refl
            | inr good ↦ elim (Bool-cases (length result.value == 0)) [
              | inl blank ↦ rw (good, blank) refl
              | inr filled ↦ rw (good, filled, hk) refl
            ]
          ]

  is_caught-completed_binding :
      HoldsActive keyring
      → (action : Action) (result : WorkResult) (fresh : Text) (now : ℕ)
        (binding : ApiClientBinding)
      → is_caught
          (completed_binding w crypto envelope keyring client action result fresh now binding)
        ≡ true
  unfolding completed_binding
  is_caught-completed_binding hk action (created result) fresh now binding =
      is_caught-kept hk binding result fresh now
  is_caught-completed_binding hk action (changed state) fresh now binding = refl
  is_caught-completed_binding hk action nothing fresh now binding = refl

  is_caught-complete_found :
      HoldsActive keyring
      → (item : ControlOutbox) (item_id : Text) (result : WorkResult) (fresh : Text) (now : ℕ)
        (read s : Control)
      → is_caught
          (complete_found w crypto envelope keyring client item item_id result fresh now read s)
        ≡ true
  unfolding complete_found
  is_caught-complete_found hk item item_id result fresh now read s =
      is_caught-bind (of_option (read.bindings item.aggregate_id) value_error) _
        (is_caught-of_option _)
        (λ binding.
          is_caught-bind (read_payload item.payload) _ (is_caught-read_payload item.payload)
            (λ payload.
              is_caught-bind
                (completed_binding w crypto envelope keyring client item.action result fresh now
                  binding)
                _ (is_caught-completed_binding hk item.action result fresh now binding)
                (λ next. refl)))

  pub is_caught-complete_item :
      HoldsActive keyring
      → (o : Option ControlOutbox) (item_id : Text) (result : WorkResult) (fresh : Text) (now : ℕ)
        (read s : Control)
      → is_caught (complete_item w crypto envelope keyring client o item_id result fresh now read s)
        ≡ true
  is_caught-complete_item hk none item_id result fresh now read s = refl
  is_caught-complete_item hk (some item) item_id result fresh now read s =
      is_caught-if (is_processing item.status) _ (ok s)
        (is_caught-complete_found hk item item_id result fresh now read s) refl
