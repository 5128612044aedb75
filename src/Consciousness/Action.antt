-- ===== src/Consciousness/Action.antt =====
-- Parsing and executing actions, consciousness/core/action.c.
pub mod Params
pub mod Results
pub mod Handlers
pub mod Dispatch
mod Tests
