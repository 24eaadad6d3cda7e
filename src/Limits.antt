-- ===== src/Limits.antt =====
-- backend/app/limits/*.py: what the control plane makes of Redis's replies. Redis itself and the Lua
-- scripts that it runs are outside: a call takes the raw reply as an argument.
pub mod Replies
pub mod Windows
pub mod ModelPool
pub mod Consistent
mod Examples
