-- ===== src/Ap/Events.antt =====
-- src/mth/core/ap/slot_data.hpp, ap_events.hpp, and the structs of broadcast.hpp and
-- scout_registry.hpp that events carry. Texts are their bytes; a vector is a list.
use mth_apclient.Base.{
  ℕ, ◌-◌, ◌^◌, Bool, true, false, List, [], if◌then◌else◌, ℤ, pos, eqb_ℤ, Bytes,
}

pub data KearMode : Type 0 where
  vanilla ap_items area_ap_items : KearMode

unfoldable pub kear_mode_from_slot_data : ℤ → KearMode
kear_mode_from_slot_data value =
    if eqb_ℤ value (pos 0) then vanilla else if eqb_ℤ value (pos 2) then area_ap_items else ap_items

pub record SlotDataConfig : Type 0 where
  pub ossex_start : Bool
  pub kear_mode : KearMode
  pub burrow_rando : Bool
  pub swim_rando : Bool
  pub rope_rando : Bool
  pub puff_rando : Bool
  pub spring_rando : Bool
  pub carry_rando : Bool
  pub train_rando : Bool
  pub train_pass_cost : ℤ
  pub deathlink : Bool
  pub max_stat_level : ℤ
  pub goal_config : ℤ
  pub goal_generators : ℤ
  pub broken_generator_mask : ℕ
  pub goal_bosses : ℤ
  pub wallet_cap : Bool
  pub mirror_switch_rando : Bool
  pub lit_generator_lamp_mask : ℕ
  pub removed_locations : List ℤ

-- The initializers of the fields.
unfoldable pub default_config : SlotDataConfig
default_config = record {
  ossex_start = false;
  kear_mode = ap_items;
  burrow_rando = false;
  swim_rando = false;
  rope_rando = false;
  puff_rando = false;
  spring_rando = false;
  carry_rando = false;
  train_rando = true;
  train_pass_cost = pos 1000;
  deathlink = false;
  max_stat_level = pos 99;
  goal_config = pos 0;
  goal_generators = pos 99;
  broken_generator_mask = 2 ^ 64 - 1;
  goal_bosses = pos 99;
  wallet_cap = false;
  mirror_switch_rando = false;
  lit_generator_lamp_mask = 0;
  removed_locations = [];
}

pub record ReceivedItem : Type 0 where
  pub item_id : ℤ
  pub index : ℤ
  pub player_from : ℤ
  pub flags : ℕ

pub record BannerSegment : Type 0 where
  pub text : Bytes
  pub rgba : ℕ

pub record ScoutInfo : Type 0 where
  pub collection_slot : ℤ
  pub item_name : Bytes
  pub player_alias : Bytes
  pub player_game : Bytes
  pub item_flags : ℕ
  pub is_self : Bool

pub record ApConnected : Type 0 where
  pub seed : Bytes
  pub slot_data : Bytes
  pub player_slot : ℤ
  pub checked_locations : List ℤ
  pub missing_locations : List ℤ
  pub config : SlotDataConfig

pub data ApEvent : Type 0 where
  ap_connected : ApConnected → ApEvent
  ap_connecting : ApEvent
  ap_item_received : ReceivedItem → ApEvent
  ap_locations_checked : List ℤ → ApEvent
  ap_disconnected : ApEvent
  ap_connection_refused : List Bytes → ApEvent
  ap_status_changed : Bytes → ApEvent
  ap_death_received : Bytes → Bytes → ApEvent
  ap_print_broadcast : List BannerSegment → ApEvent
  ap_scout_info : List ScoutInfo → ApEvent
  ap_session_ended : ApEvent
