-- ===== src/Tests.antt =====
-- The properties at concrete inputs.
mod Wires
mod Scopes
mod Outputs
mod Credentials
mod Gates
mod Messages
mod Sessions
mod Texts
mod Viewers
