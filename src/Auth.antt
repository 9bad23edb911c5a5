-- ===== src/Auth.antt =====
-- The bearer tokens of src/mcm_engine/tokens.py and the middleware of src/mcm_engine/transport.py that
-- asks for one.
pub mod Tokens
pub mod Middleware
pub mod Revoked
pub mod Valid
mod Tests
