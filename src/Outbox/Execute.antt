-- ===== src/Outbox/Execute.antt =====
-- `_execute` of backend/app/workers/outbox.py, with `_verify_desired`. Bifrost's answers are functions
-- of what the worker asks.
use zangpu.Base.{
  Bool, true, not, ◌||◌, [], Option, none, some, codes, Result, ok, err, ◌>>=◌, ◌>>◌, raise_if,
  of_option, if◌then◌else◌,
}
use zangpu.Signing.Canonical.{same_text}
use zangpu.Outbox.{
  Text, Action, VirtualKeySpec, VirtualKeyState, VirtualKeyCreationResult, BifrostOutboxPayload,
  ApiClientBinding,
}
use zangpu.Outbox.Binding.{is_given}

pub record BifrostUpstreamError : Type 0 where
  pub code : Text
  pub retryable : Bool

-- What `_process` catches: an upstream error, or a `ValueError` or `RuntimeError`; and what it does
-- not catch.
pub data Failure : Type 0 where
  upstream : BifrostUpstreamError → Failure
  value_error uncaught : Failure

pub record BifrostBindingClient : Type 0 where
  pub find_virtual_key_by_name :
      Text → Result BifrostUpstreamError (Option VirtualKeyCreationResult)
  pub create_virtual_key : VirtualKeySpec → Result BifrostUpstreamError VirtualKeyCreationResult
  pub get_virtual_key_material : Text → Result BifrostUpstreamError VirtualKeyCreationResult
  pub update_virtual_key : Text → VirtualKeySpec → Result BifrostUpstreamError VirtualKeyState
  pub disable_virtual_key : Text → Result BifrostUpstreamError VirtualKeyState

-- `VirtualKeyCreationResult | VirtualKeyState | None`
pub data WorkResult : Type 0 where
  created : VirtualKeyCreationResult → WorkResult
  changed : VirtualKeyState → WorkResult
  nothing : WorkResult

abbrev pub asked {ℓ} : {A : Type ℓ} → Result BifrostUpstreamError A → Result Failure A
asked (ok a) = ok a
asked (err e) = err (upstream e)

abbrev pub protocol_error : Failure
protocol_error = upstream (record { code = codes "BIFROST_PROTOCOL_ERROR"; retryable = true })

abbrev pub differs_from : VirtualKeyState → VirtualKeySpec → Bool
differs_from state desired =
    not (same_text state.name desired.name)
    || not (same_text state.provider desired.provider)
    || not (same_text state.model desired.model)
    || not state.is_active

-- `_verify_desired`
abbrev pub verify_desired : VirtualKeyState → VirtualKeySpec → Result Failure (Unit {0})
verify_desired state desired = raise_if (differs_from state desired) protocol_error

module _ (client : BifrostBindingClient) where
  -- The answer to a disabling: a missing key counts as disabled.
  abbrev pub disabled_answer :
      Result BifrostUpstreamError VirtualKeyState → Result Failure WorkResult
  disabled_answer (ok state) = raise_if state.is_active protocol_error >> ok (changed state)
  disabled_answer (err e) =
      if same_text e.code (codes "BIFROST_NOT_FOUND") then ok nothing else err (upstream e)

  abbrev pub disable : Option Text → Result Failure WorkResult
  disable none = ok nothing
  disable (some key_id) = disabled_answer (client.disable_virtual_key key_id)

  abbrev pub found_or_created :
      VirtualKeySpec → Option VirtualKeyCreationResult → Result Failure VirtualKeyCreationResult
  found_or_created desired (some result) = ok result
  found_or_created desired none = asked (client.create_virtual_key desired)

  abbrev pub get_text : Option Text → Text
  get_text none = []
  get_text (some text) = text

  unfoldable pub create : ApiClientBinding → VirtualKeySpec → Result Failure WorkResult
  create binding desired =
      if is_given binding.bifrost_virtual_key_id
      then (do
        result ← asked (client.get_virtual_key_material (get_text binding.bifrost_virtual_key_id))
        verify_desired result.state desired
        ok (created result))
      else (do
        existing ← asked (client.find_virtual_key_by_name desired.name)
        result ← found_or_created desired existing
        verify_desired result.state desired
        ok (created result))

  unfoldable pub update : ApiClientBinding → VirtualKeySpec → Result Failure WorkResult
  update binding desired =
      if is_given binding.bifrost_virtual_key_id
      then (do
        state ← asked (client.update_virtual_key (get_text binding.bifrost_virtual_key_id) desired)
        verify_desired state desired
        ok (changed state))
      else err value_error

  -- `_execute`
  unfoldable pub execute :
      Action → ApiClientBinding → BifrostOutboxPayload → Result Failure WorkResult
  execute Action.disable binding payload = disable binding.bifrost_virtual_key_id
  execute Action.create binding payload = of_option payload.desired value_error >>= create binding
  execute Action.update binding payload = of_option payload.desired value_error >>= update binding
  execute Action.compensate binding payload = err value_error
