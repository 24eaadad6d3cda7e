-- ===== src/Chat/Payload.antt =====
-- The parts of ChatCompletionRequest in backend/app/api/external_models.py that admission reads.
use zangpu.Base.{
  ℕ, ◌+◌, String, Bool, Option, none, some, List, [], ◌∷◌, Result, ok, err, ◌>>◌, raise_if, min,
  ltb, ◌||◌, if◌then◌else◌, ◌==◌,
}

pub data Role : Type 0 where
  system user assistant : Role

abbrev role_bytes : Role → ℕ
role_bytes system = 6
role_bytes user = 4
role_bytes assistant = 9

-- A message, with its content as UTF-8 bytes.
pub record ChatMessageRequest : Type 0 where
  pub role : Role
  pub content : List ℕ

pub record ChatCompletionRequest : Type 0 where
  pub model : String
  pub messages : List ChatMessageRequest
  pub stream : Bool
  pub max_tokens : Option ℕ
  pub max_completion_tokens : Option ℕ

-- ExternalPayloadError("INVALID_REQUEST") and ValueError.
pub data PayloadError : Type 0 where
  invalid_request invalid_limits : PayloadError

-- `self.max_tokens or self.max_completion_tokens`: Python's `or` passes over `None` and 0.
abbrev pub requested_tokens : ChatCompletionRequest → Option ℕ
requested_tokens request = elim request.max_tokens [
  | none ↦ request.max_completion_tokens
  | some n ↦ if n == 0 then request.max_completion_tokens else some n
]

within_limit : ℕ → Option ℕ → Result PayloadError ℕ
within_limit limit none = ok limit
within_limit limit (some requested) =
    if ltb limit requested then err invalid_request else ok requested

unfoldable pub admitted_output_tokens : ChatCompletionRequest → ℕ → ℕ → Result PayloadError ℕ
unfolding within_limit
admitted_output_tokens request client_limit global_limit = do
  raise_if (client_limit == 0 || global_limit == 0) invalid_limits
  within_limit (min client_limit global_limit) (requested_tokens request)

byte_count : List ℕ → ℕ
byte_count [] = 0
byte_count (b ∷ bytes) = 1 + byte_count bytes

sum_messages : List ChatMessageRequest → ℕ
unfolding byte_count
sum_messages [] = 0
sum_messages (message ∷ messages) =
    role_bytes message.role + byte_count message.content + 8 + sum_messages messages

unfoldable pub estimate_prompt_tokens : ChatCompletionRequest → ℕ
unfolding sum_messages
estimate_prompt_tokens request = sum_messages request.messages
