-- ===== src/Chat.antt =====
-- Package internal/chat: the chat adapters.
pub mod Supervisor
