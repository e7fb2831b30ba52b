-- ===== src/Upstream.antt =====
-- Package internal/upstream: the data that Herdr's socket hands to the server.
pub mod Model
