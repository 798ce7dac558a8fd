-- ===== src/Ap.antt =====
-- src/mth/core/ap: the client's view of the Archipelago room, the coordinator that feeds it, and the
-- durable state of a run.
pub mod Events
pub mod State
pub mod Coordinator
pub mod SaveState
