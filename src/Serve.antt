-- ===== src/Serve.antt =====
-- Package internal/serve: who may connect, how often, and with what credential.
pub mod RateLimiter
pub mod ConnGate
pub mod Auth
