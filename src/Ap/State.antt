-- ===== src/Ap/State.antt =====
-- src/mth/core/ap/ap_state.hpp and ap_state.cpp: `ApState`, the game thread's view of the room.
-- `std::visit` is a function by clauses on the event. The mutex and the atomic guard single reads
-- and writes of `status_`, `detail_` and `phase_`; each of these is one step here. Logging is left
-- out. Item indices are `int`: the console's index falls by one for each injected item, and the
-- 2^31 injections that would wrap it are out of scope.
pub mod Cursor
pub mod Stream
pub mod Locations
use mth_apclient.Base.IntSet
use mth_apclient.Base.{
  Bool, true, false, ◌||◌, not, List, [], ◌∷◌, ◌++◌, if◌then◌else◌, ℤ, pos, negsuc, ◌-ℤ◌, ltb_ℤ,
  eqb_ℤ, codes, Bytes,
}
use mth_apclient.Ap.Events.{
  ap_item_received, KearMode, ap_disconnected, ap_print_broadcast, ap_scout_info, ReceivedItem,
  ap_connected, SlotDataConfig, ap_death_received, ap_connecting, ap_session_ended, ApConnected,
  ap_locations_checked, ApEvent, default_config, ap_connection_refused, ap_status_changed, vanilla,
}

pub data ConnectionPhase : Type 0 where
  disconnected connecting connected error : ConnectionPhase

pub record ApState : Type 0 where
  pub authenticated : Bool
  pub status : Bytes
  pub phase : ConnectionPhase
  pub detail : Bytes
  pub seed : Bytes
  pub slot_data : Bytes
  pub player_slot : ℤ
  pub config : SlotDataConfig
  pub valid_locations : List ℤ
  pub removed_locations : List ℤ
  pub received_items : List ReceivedItem
  pub server_checked_pending : List ℤ
  pub last_item_index : ℤ
  pub console_index : ℤ

-- -1000000, where the console's indices start.
abbrev pub console_index_start : ℤ
console_index_start = negsuc 999999

-- The member initializers.
unfoldable pub launch : ApState
launch = record {
  authenticated = false;
  status = codes "Idle";
  phase = disconnected;
  detail = [];
  seed = [];
  slot_data = [];
  player_slot = negsuc 0;
  config = default_config;
  valid_locations = [];
  removed_locations = [];
  received_items = [];
  server_checked_pending = [];
  last_item_index = negsuc 0;
  console_index = console_index_start;
}

unfoldable pub push_received : ReceivedItem → ApState → ApState
push_received item s = record s { received_items = s.received_items ++ item ∷ [] }

unfoldable pub set_phase : ConnectionPhase → ApState → ApState
set_phase p s = record s { phase = p; detail = [] }

unfoldable pub set_status : Bytes → ApState → ApState
set_status text s = record s { status = text }

unfoldable pub reset_session : ApState → ApState
reset_session s = record s {
  received_items = [];
  server_checked_pending = [];
  removed_locations = [];
  last_item_index = negsuc 0;
  console_index = console_index_start;
  authenticated = false;
}

unfoldable pub inject_received_item : ℤ → ApState → ApState
unfolding push_received
inject_received_item item_id s = record (push_received item s) {
  console_index = s.console_index -ℤ pos 1;
}
  where
    item : ReceivedItem
    item = record {
      item_id = item_id;
      index = s.console_index;
      player_from = s.player_slot;
      flags = 0;
    }

-- The loop over the pruned ids: one that the server lists stays a real location.
unfoldable pub prune : List ℤ → List ℤ → List ℤ → List ℤ
prune valid [] removed = removed
prune valid (id ∷ ids) removed =
    prune valid ids (if IntSet.contains valid id then removed else IntSet.insert id removed)

unfoldable pub apply_connected : ApConnected → ApState → ApState
unfolding prune set_phase set_status
apply_connected e s =
    let valid = IntSet.insert_all e.missing_locations (IntSet.insert_all e.checked_locations []) in
    set_phase connected (
      set_status (codes "Connected") (record s {
        seed = e.seed;
        slot_data = e.slot_data;
        player_slot = e.player_slot;
        config = e.config;
        valid_locations = valid;
        removed_locations = prune valid e.config.removed_locations [];
        authenticated = true;
      }))

unfoldable pub apply_item : ReceivedItem → ApState → ApState
unfolding push_received
apply_item item s =
    if ltb_ℤ s.last_item_index item.index
    then record (push_received item s) { last_item_index = item.index }
    else s

-- `"Refused:"`, and each error behind a blank.
refused_status : Bytes → List Bytes → Bytes
refused_status msg [] = msg
refused_status msg (err ∷ errors) = refused_status (msg ++ b' ' ∷ err) errors

-- The errors behind ", ", the first one bare.
refused_detail : Bool → Bytes → List Bytes → Bytes
refused_detail first detail [] = detail
refused_detail first detail (err ∷ errors) =
    refused_detail false (detail ++ ((if first then [] else codes ", ") ++ err)) errors

unfoldable pub apply : ApEvent → ApState → ApState
unfolding apply_connected apply_item set_phase set_status refused_status refused_detail
apply (ap_connected e) s = apply_connected e s
apply ap_connecting s = set_phase connecting (set_status (codes "Connecting...") s)
apply (ap_item_received item) s = apply_item item s
apply (ap_locations_checked ids) s = record s {
  server_checked_pending = s.server_checked_pending ++ ids;
}
apply ap_disconnected s =
    set_phase disconnected (set_status (codes "Disconnected") (record s { authenticated = false }))
apply (ap_connection_refused errors) s =
    record (set_status (refused_status (codes "Refused:") errors) s) {
      authenticated = false;
      phase = error;
      detail = refused_detail true [] errors;
    }
apply (ap_status_changed text) s = set_status text s
apply (ap_death_received source cause) s = s
apply (ap_print_broadcast segments) s = s
apply (ap_scout_info locations) s = s
apply ap_session_ended s = s

abbrev pub is_valid_location : ApState → ℤ → Bool
is_valid_location s id = IntSet.contains s.valid_locations id

abbrev pub is_removed_location : ApState → ℤ → Bool
is_removed_location s id = IntSet.contains s.removed_locations id

abbrev pub is_vanilla_mode : KearMode → Bool
is_vanilla_mode vanilla = true
is_vanilla_mode _ = false

abbrev pub kear_keys_suppressed : ApState → Bool
kear_keys_suppressed s = not (is_vanilla_mode s.config.kear_mode)

-- What was pending, and the state with nothing pending.
unfoldable pub take_server_checked_pending : ApState → List ℤ × ApState
take_server_checked_pending s = (s.server_checked_pending, record s { server_checked_pending = [] })

has_item : ℤ → List ReceivedItem → Bool
has_item item_id [] = false
has_item item_id (it ∷ items) = eqb_ℤ it.item_id item_id || has_item item_id items

unfoldable pub has_received : ApState → ℤ → Bool
unfolding has_item
has_received s item_id = has_item item_id s.received_items
