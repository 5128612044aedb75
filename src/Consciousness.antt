-- ===== src/Consciousness.antt =====
-- The consciousness runtime, consciousness/.
pub mod Memory
pub mod Senses
pub mod Text
pub mod Action
pub mod Llm
pub mod Life
