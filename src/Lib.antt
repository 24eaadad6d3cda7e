-- ===== src/Lib.antt =====
-- Zangpu: the control plane of an external model API, a Python service under backend/app. A signed
-- request from a caller passes distributed limits in Redis, reserves quota in the service's own
-- database and credit in Open WebUI, is forwarded to a model through Bifrost, and is settled. This
-- library models the core of it and proves what makes it correct.
--
-- The parts and how they interact:
-- * The quota ledger (backend/app/services/quota.py) keeps two quota rows per client (the day's and
--   the lifetime's), the operations, and an event for each operation that has ended. Quota.antt has
--   its errors and rows; Quota/Reserve, Quota/Record and Quota/Finalize have `reserve_operation`,
--   `record_credit_reservation`, `record_provider_usage`, `touch_pending_operation` and
--   `finalize_operation`, each a function from the database to its result and the new database, or
--   an error. Quota/Transaction is `session.begin()`: commit on return, roll back on an exception.
--   Quota/Lifecycle has sequences of transactions; since the database runs transactions that lock
--   the same rows one after the other, a sequence stands for any interleaving. The tables are in
--   Models and Models/Database (backend/app/models/*.py): clients, credentials and quota rows as
--   functions of their keys, operations and events as lists.
-- * The limiters (backend/app/limits/*.py): Limits/Replies has `fail_closed` and
--   `parse_integer_sequence`, Limits/Windows the nonce guard, the rate and the concurrency limiter,
--   Limits/ModelPool the model pool with its queue. A method is a function of Redis's raw reply.
-- * The chat service (backend/app/services/chat.py): Chat/Execute has `execute` up to its outer
--   `try` and its `finally`, Chat/Operation the body of that `try`, Chat/Pool `_acquire_model_pool`,
--   Chat/Ledger the service's transactions, Chat/Callers `load_caller_policy`
--   (backend/app/services/callers.py), Chat/Errors the error table (backend/app/api/errors.py) and
--   the error mappings, Chat/Payload the token estimate (backend/app/api/external_models.py).
--   Chat/Action is the state that a request threads: the log of its calls, the ledger and the flag
--   `terminal_committed`. Chat/Environment has everything outside as functions of that log, so a
--   theorem for every environment holds for every sequence of answers: Redis's replies, Open
--   WebUI's and Bifrost's answers, the clock, the outcome of awaiting under the leases (done, lost
--   heartbeat, cancelled, each before or after the task took effect), and the ledger transactions of
--   other requests and of workers before each of its own.
--   Chat/Action/Triple has the rules for reasoning about actions; Chat/Steps, Chat/Entry,
--   Chat/Order/Steps and Chat/Order/Operation apply them to each step.
-- * The recovery worker (backend/app/workers/recovery.py): Recovery.antt has `_process` with
--   `_validate_identity`, `_finalize` and `_finalize_without_credit`, as a function of Open WebUI's
--   answers and the ledger; Recovery/Ending reasons about it.
-- * Request signing (backend/app/security and sdk/python/src/zangpu_sdk/signing.py):
--   Signing/Percent, Signing/Split and Signing/Canonical have `canonical.py`, which the SDK
--   repeats; Signing/Client `ZangpuSigner.sign`; Signing/Headers `parse_external_auth_headers` and
--   Signing/Authentication `ExternalAuthenticator.authenticate` (dependencies.py); Signing/Keyring
--   the key ring with the additional data (keyring.py), Signing/Credentials the creation of
--   credentials (credentials.py). Signing/Crypto has the primitives as parameters, with what they
--   document. The other modules of Signing reason about them. A text is a list of UTF-8 bytes here
--   and in the parts below, and a literal's bytes are its code points.
-- * The outbox (backend/app/workers/outbox.py, models/outbox.py,
--   integrations/bifrost/binding_service.py): Outbox.antt has the rows, Outbox/Claim `_claim`,
--   Outbox/Execute `_execute`, Outbox/Process `_load`, `_complete`, `_fail`, `_process` and
--   `run_once`, Outbox/Queue `queue_binding_sync`, Outbox/Binding the protected value of a
--   binding, by the key ring of Signing. `_complete` and `_fail` read their rows without a lock,
--   so each has the tables that it read and those that it writes, and an UPDATE writes every
--   column that the code assigns. Outbox/Bounds has sequences of transactions of any number of
--   workers, each completion and failure with any tables as what it read: a worker that dies has
--   no further transaction. `_process` and `run_once` are modelled with no other transaction in
--   between. Outbox/History, Outbox/Moves, Outbox/Final and Outbox/Reopened reason about
--   sequences, Outbox/Caught and Outbox/Settles about one run.
-- * Retention (backend/app/services/retention.py): Retention.antt has `preview` and `purge` on the
--   ids and times of the rows; Retention/Rows, Retention/Distinct and Retention/Purge reason about
--   them.
-- * The stream decoder (backend/app/services/streaming.py): Streaming.antt has `feed`,
--   `_finish_event` and `finish`; Streaming/Chunks and Streaming/Frames reason about them.
-- * Base has what the parts share: Boolean tests, texts, signed integers and error results.
--
-- Bounds and fuel. Counters are natural numbers and the checks against a signed 64-bit column are
-- written out; numbers that Redis sends are signed. The one loop on a clock, the queue of the model
-- pool, runs over the environment's list of turns before the deadline, which has any finite length.
-- The decimal text of a number has the number itself as fuel, which bounds its digits. The other
-- loops run over lists.
--
-- Outside the model: response headers and bodies, the Lua scripts and the keys that they run on,
-- cryptography and base64 (parameters), the JSON reader and writer (parameters), the check
-- constraints of the tables, and the cancellation of a request while it awaits Redis: it is modelled
-- in the queue's sleep, under the leases and in the releases of the clean-up. A row of the outbox whose change the database refuses
-- is outside too. Not modelled: streaming in the chat service, the recovery worker's choice of
-- candidates, the summaries of a purge's audit row, the test of outbox payloads for sensitive keys,
-- and the administrative and read-only services, which are separate components over the same tables;
-- the HTTP routes, which only call the services.
pub mod Base
pub mod Models
pub mod Quota
pub mod Limits
pub mod Chat
pub mod Recovery
pub mod Outbox
pub mod Retention
pub mod Signing
pub mod Streaming
