-- ===== src/Chat.antt =====
-- backend/app/services/chat.py: the external chat service, with the errors of
-- backend/app/api/errors.py, the payload of backend/app/api/external_models.py and the caller policy
-- of backend/app/services/callers.py. Redis, Open WebUI and Bifrost are outside: what they answer is
-- the environment's choice at every call.
pub mod Errors
pub mod Payload
pub mod Callers
pub mod Action
pub mod Environment
pub mod Pool
pub mod Ledger
pub mod Operation
pub mod Execute
pub mod Steps
pub mod Entry
pub mod Leases
pub mod Success
pub mod Order
mod Examples
