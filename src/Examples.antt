-- ===== src/Examples.antt =====
-- A small seed on which the theorems are tried: two locations, one more that the seed prunes, and
-- three received items.
pub mod Room
pub mod Archive
pub mod Commits
pub mod Torn
pub mod Scans
pub mod Queues
pub mod Locks
pub mod Checks
pub mod Machines
pub mod Derived
pub mod Net
pub mod Spells
use mth_apclient.Base.{true, List, [], ◌∷◌, ℤ, pos, negsuc, codes}
use mth_apclient.Ap.SaveState.{ApSaveState}
use mth_apclient.Ap.State.{launch, apply, ApState}
use mth_apclient.Ap.Events.{default_config, ap_connected, ReceivedItem, SlotDataConfig, ApConnected}

abbrev pub seed_config : SlotDataConfig
seed_config = record default_config { removed_locations = pos 9 ∷ pos 5 ∷ [] }

abbrev pub room : ApConnected
room = record {
  seed = codes "seed";
  slot_data = [];
  player_slot = pos 1;
  checked_locations = pos 4 ∷ [];
  missing_locations = pos 5 ∷ [];
  config = seed_config;
}

abbrev pub receipt : ℤ → ℤ → ReceivedItem
receipt item_id index = record { item_id = item_id; index = index; player_from = pos 2; flags = 1 }

abbrev pub receipts : List ReceivedItem
receipts = receipt (pos 14) (pos 0) ∷ receipt (pos 70) (pos 1) ∷ receipt (pos 1000) (pos 2) ∷ []

abbrev pub joined : ApState
joined = apply (ap_connected room) launch

abbrev pub save : ApSaveState
save = record {
  checked = pos 4 ∷ pos 7 ∷ [];
  granted = negsuc 2 ∷ pos 0 ∷ [];
  game_slot = pos 3;
  has_store = true;
  staged = [];
}
