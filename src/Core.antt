-- ===== src/Core.antt =====
-- Package internal/core: targets, scopes, the session store, the wire format and the output plane.
pub mod Target
pub mod Scope
pub mod Wire
pub mod Coalescer
pub mod Ansi
pub mod Sessions
pub mod Seen
pub mod Viewport
pub mod Pollers
pub mod Summary
pub mod Transcript
pub mod Hub
pub mod Cleaner
