-- ===== src/Outbox/Trial.antt =====
-- A worker, a client, items and histories, for running the definitions.
use zangpu.Base.{
  ℕ, zero, suc, ◌≡◌, refl, ap, arith, take, length, ◌++◌, if◌then◌else◌, Bool, true, false, List,
  [], ◌∷◌, Option, none, some, codes, ok, err,
}
use zangpu.Signing.Canonical.{same_text}
use zangpu.Signing.Keyring.{CredentialKeyring, HoldsActive, get_key}
use zangpu.Outbox.{
  Text, Target, Action, ItemStatus, SyncStatus, VirtualKeySpec, VirtualKeyState,
  VirtualKeyCreationResult, BifrostOutboxPayload, valid, ApiClientBinding, ControlOutbox, Control,
  find_item,
}
use zangpu.Outbox.Binding.{Envelope}
use zangpu.Outbox.Claim.{WorkerConfig}
use zangpu.Outbox.Execute.{BifrostUpstreamError, BifrostBindingClient, created}
use zangpu.Outbox.Bounds.{Event, claimed, completing, failing, queued, IsSound}
use zangpu.Outbox.Protected.{Faithful}

abbrev pub drop : ℕ → Text → Text
drop zero text = text
drop (suc n) [] = []
drop (suc n) (c ∷ text) = drop n text

-- The length of the ciphertext, the ciphertext and the nonce.
abbrev pub unframed : Text → Option (Text × Text)
unframed [] = none
unframed (n ∷ text) = some (take n text, drop n text)

abbrev pub frame_envelope : Envelope
frame_envelope = record {
  dump = λ ciphertext nonce. length ciphertext ∷ ciphertext ++ nonce;
  load = unframed;
}

take-length : (text rest : Text) → take (length text) (text ++ rest) ≡ text
take-length [] rest = refl
take-length (c ∷ text) rest = ap (λ t. c ∷ t) (take-length text rest)

drop-length : (text rest : Text) → drop (length text) (text ++ rest) ≡ rest
drop-length [] rest = refl
drop-length (c ∷ text) rest = drop-length text rest

pub frame_envelope-Faithful : Faithful frame_envelope
frame_envelope-Faithful = record {
  back = λ ciphertext nonce. rw (take-length ciphertext nonce, drop-length ciphertext nonce) refl;
  filled = λ ciphertext nonce. ground arith;
}

abbrev pub ring : CredentialKeyring
ring = record { keys = (codes "k1", codes "key one") ∷ []; active_key_id = codes "k1" }

pub ring-HoldsActive : HoldsActive ring
unfolding get_key
ring-HoldsActive = (codes "key one", refl)

abbrev pub worker : WorkerConfig
worker = record {
  max_attempts = 2;
  base_retry_seconds = 5;
  max_retry_seconds = 300;
  claim_timeout_seconds = 120;
  batch_size = 25;
}

abbrev pub desired_key : VirtualKeySpec
desired_key = record {
  name = codes "managed";
  description = [];
  provider = codes "openai";
  model = codes "gpt";
  provider_key_ids = [];
}

abbrev pub key_state : VirtualKeyState
key_state = record {
  id = codes "vk1";
  name = codes "managed";
  description = [];
  is_active = true;
  provider = codes "openai";
  model = codes "gpt";
  config_hash = [];
}

abbrev pub new_key : VirtualKeyCreationResult
new_key = record { state = key_state; value = codes "value" }

abbrev pub upstream_failure : BifrostUpstreamError
upstream_failure = record { code = codes "BIFROST_UNAVAILABLE"; retryable = true }

abbrev pub bifrost : BifrostBindingClient
bifrost = record {
  find_virtual_key_by_name = λ name. ok none;
  create_virtual_key = λ spec. ok new_key;
  get_virtual_key_material = λ key. ok new_key;
  update_virtual_key = λ key spec. ok key_state;
  disable_virtual_key = λ key. err upstream_failure;
}

abbrev pub wanted : BifrostOutboxPayload
wanted = record { config_hash = codes "h"; binding_version = 2; desired = some desired_key }

abbrev pub client_binding : ApiClientBinding
client_binding = record {
  id = codes "b1";
  api_client_id = codes "c1";
  zangpu_service_user_id = some (codes "u1");
  bifrost_virtual_key_id = none;
  bifrost_value_ciphertext = none;
  bifrost_value_key_version = none;
  bifrost_config_hash = codes "h";
  sync_status = SyncStatus.pending;
  last_sync_error_code = none;
  version = 2;
  updated_at = 1;
}

abbrev pub bindings_of : Text → Option ApiClientBinding
bindings_of id = if same_text id (codes "b1") then some client_binding else none

abbrev pub start : Control
start = record { items = []; bindings = bindings_of }

pub start-IsSound : IsSound worker start
unfolding find_item
start-IsSound id a h = cc

abbrev pub nothing_held : Text → Bool
nothing_held id = false

-- An item is queued.
abbrev pub queue_events : List Event
queue_events = queued (codes "i1") (codes "b1") Target.bifrost Action.create (valid wanted) 10 ∷ []

abbrev pub base_item : ControlOutbox
base_item = record {
  id = codes "i1";
  aggregate_is_binding = true;
  aggregate_id = codes "b1";
  target = Target.bifrost;
  action = Action.create;
  payload = valid wanted;
  status = ItemStatus.pending;
  attempt_count = 0;
  available_at = 10;
  locked_at = none;
  completed_at = none;
  last_error_code = none;
  updated_at = 10;
}

abbrev pub claimed_item : ControlOutbox
claimed_item = record base_item {
  status = ItemStatus.processing;
  attempt_count = 1;
  locked_at = some 10;
}

-- The table in which the worker finds the row that it claims at 10.
abbrev pub claimed_table : Control
claimed_table = record { items = claimed_item ∷ []; bindings = bindings_of }

-- It is claimed, fails, is claimed again, and the worker dies.
abbrev pub dying_events : List Event
dying_events =
    claimed 10 nothing_held
    ∷ failing (codes "i1") (codes "BIFROST_UNAVAILABLE") true 11 claimed_table
    ∷ claimed 20 nothing_held
    ∷ []

-- It is claimed and completed.
abbrev pub good_events : List Event
good_events =
    claimed 10 nothing_held
    ∷ completing (codes "i1") (created new_key) (codes "twelve bytes") 11 claimed_table
    ∷ []

abbrev pub dead_item : ControlOutbox
dead_item = record base_item {
  status = ItemStatus.processing;
  attempt_count = 2;
  available_at = 16;
  locked_at = some 20;
  last_error_code = some (codes "BIFROST_UNAVAILABLE");
  updated_at = 20;
}

-- A second worker that claimed the same row fails when the first one has completed it: it reads the
-- completed row, or has read the row before that.
abbrev pub late_events : Control → List Event
late_events read = failing (codes "i1") (codes "E") true 30 read ∷ []

abbrev pub done_item : ControlOutbox
done_item = record base_item {
  status = ItemStatus.completed;
  attempt_count = 1;
  completed_at = some 11;
  updated_at = 11;
}

-- The completed row after a failure that read it before its completion.
abbrev pub undone_item : ControlOutbox
undone_item = record done_item {
  status = ItemStatus.failed;
  available_at = 35;
  last_error_code = some (codes "E");
  updated_at = 30;
}
