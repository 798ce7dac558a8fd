-- ===== src/Gates.antt =====
-- The small state machines of src/mth/core that decide when the client may act.
pub mod Death
pub mod Startup
pub mod Resend
pub mod Takeover
pub mod Burrow
