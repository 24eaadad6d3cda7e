-- ===== src/Signing.antt =====
-- Request signing: backend/app/security/canonical.py and dependencies.py on the server, and
-- sdk/python/src/zangpu_sdk/signing.py on the client. A text is the list of its UTF-8 bytes. SHA-256,
-- HMAC-SHA256 and the decryption of a credential's secret are parameters.
pub mod Percent
pub mod Split
pub mod Canonical
pub mod Quoted
pub mod Binding
pub mod Paths
pub mod Crypto
pub mod Keyring
pub mod Headers
pub mod Authentication
pub mod Genuine
pub mod Secrets
pub mod Client
pub mod Decimal
pub mod Sent
pub mod RoundTrip
pub mod Credentials
pub mod Trial
mod Examples
