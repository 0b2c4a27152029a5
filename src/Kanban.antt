-- ===== src/Kanban.antt =====
-- Kanban messages, their streams in Redis, and the servers that write and read them.
pub mod Types
pub mod Keys
pub mod KeyLaws
pub mod Store
pub mod Queue
pub mod Refines
pub mod Drains
