-- ===== src/Msg.antt =====
-- Package internal/msg: messages between agents, their store and their delivery.
pub mod Store
pub mod Service
