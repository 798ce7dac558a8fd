-- ===== src/Ids.antt =====
-- The id spaces of src/mth/core/ap/ap_ids.hpp: item ids and location ids are ranges of the
-- integers, one segment for each kind. The children follow the order of that header.
pub mod Vanilla
pub mod Progressive
pub mod Blocks
pub mod Segments
pub mod Locks
