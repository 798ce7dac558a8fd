-- ===== src/Bridge.antt =====
-- src/mth/core/rando_bridge.hpp and rando_bridge.cpp: `RandoBridge`, which turns collected slots into
-- location checks. The link (src/mth/core/ap/ap_link.hpp) is its connection flag and the log of the
-- calls made on it, newest first. The bridge holds references to the room's state and to the save;
-- both are fields here.
pub mod Dedup
pub mod Delivery
pub mod Removed
pub mod Durable
use mth_apclient.Base.IntSet
use mth_apclient.Base.{
  Bool, true, false, ◌&&◌, ◌||◌, not, Option, none, some, List, [], ◌∷◌, if◌then◌else◌, ℤ, pos,
  ltb_ℤ, leb_ℤ,
}
use mth_apclient.Ids.Blocks.{ap_loc_id}
use mth_apclient.Ap.SaveState.{is_checked, ApSaveState, mark_checked, stage}
use mth_apclient.Ap.State.{ApState, is_valid_location, is_removed_location}

pub data LinkCall : Type 0 where
  send_locations scout_locations : List ℤ → LinkCall
  set_goal : LinkCall

pub record Link : Type 0 where
  pub connected : Bool
  pub calls : List LinkCall

pub record RandoBridge : Type 0 where
  pub link : Link
  pub state : ApState
  pub save : Option ApSaveState
  pub sent : List ℤ
  pub goal_sent : Bool

unfoldable pub call_link : LinkCall → RandoBridge → RandoBridge
call_link c b = record b {
  link = record { connected = b.link.connected; calls = c ∷ b.link.calls };
}

unfoldable pub construct_bridge : Link → ApState → RandoBridge
construct_bridge link state = record {
  link = link;
  state = state;
  save = none;
  sent = [];
  goal_sent = false;
}

unfoldable pub attach_save_state : ApSaveState → RandoBridge → RandoBridge
attach_save_state save b = record b { save = some save; sent = [] }

unfoldable pub detach_save_state : RandoBridge → RandoBridge
detach_save_state b = elim b.save [ none ↦ b | some save ↦ record b { save = none; sent = [] } ]

unfoldable pub reset_bridge : RandoBridge → RandoBridge
unfolding detach_save_state
reset_bridge b = record (detach_save_state b) { goal_sent = false }

abbrev pub is_removed : RandoBridge → ℤ → Bool
is_removed b slot = leb_ℤ (pos 0) slot && is_removed_location b.state (ap_loc_id slot)

abbrev pub is_ap_location : RandoBridge → ℤ → Bool
is_ap_location b slot =
    if ltb_ℤ slot (pos 0)
    then false
    else is_valid_location b.state (ap_loc_id slot) || is_removed_location b.state (ap_loc_id slot)

-- What dedups a slot: the save if one is attached, and the session's set otherwise.
abbrev pub is_recorded : Option ApSaveState → List ℤ → ℤ → Bool
is_recorded (some save) sent slot = is_checked save slot
is_recorded none sent slot = IntSet.contains sent (ap_loc_id slot)

unfoldable pub bridge_is_checked : RandoBridge → ℤ → Bool
bridge_is_checked b slot =
    if ltb_ℤ slot (pos 0)
    then false
    else if is_removed_location b.state (ap_loc_id slot)
    then true
    else is_recorded b.save b.sent slot

-- The part of `on_location_collected` between the guards and the send: `none` for a slot that is
-- recorded already.
unfoldable pub record_slot : ℤ → RandoBridge → Option RandoBridge
record_slot slot b =
    if is_recorded b.save b.sent slot
    then none
    else some (elim b.save [
      | some save ↦ record b { save = some (stage (mark_checked slot save)) }
      | none ↦ record b { sent = IntSet.insert (ap_loc_id slot) b.sent }
    ])

unfoldable pub send_if_connected : ℤ → RandoBridge → RandoBridge
unfolding call_link
send_if_connected slot b =
    if b.link.connected then call_link (send_locations (ap_loc_id slot ∷ [])) b else b

unfoldable pub on_location_collected : ℤ → RandoBridge → RandoBridge
unfolding record_slot send_if_connected
on_location_collected slot b =
    if not (is_ap_location b slot)
    then b
    else if is_removed b slot
    then b
    else elim (record_slot slot b) [ none ↦ b | some b' ↦ send_if_connected slot b' ]

-- The new bridge, and whether the slot was newly checked.
unfoldable pub reconcile_server_checked : ℤ → RandoBridge → RandoBridge × Bool
reconcile_server_checked slot b = elim b.save [
  | none ↦ (b, false)
  | some save ↦
      if not (is_ap_location b slot)
      then (b, false)
      else if is_removed b slot
      then (b, false)
      else if is_checked save slot
      then (b, false)
      else (record b { save = some (mark_checked slot save) }, true)
]

unfoldable pub unremoved_slots : RandoBridge → List ℤ → List ℤ
unremoved_slots b [] = []
unremoved_slots b (slot ∷ slots) =
    let rest = unremoved_slots b slots in
    if not (is_removed b slot) then ap_loc_id slot ∷ rest else rest

unfoldable pub unremoved_ids : RandoBridge → List ℤ → List ℤ
unremoved_ids b [] = []
unremoved_ids b (id ∷ ids) =
    let rest = unremoved_ids b ids in
    if not (is_removed_location b.state id) then id ∷ rest else rest

abbrev pub is_empty : List ℤ → Bool
is_empty [] = true
is_empty (id ∷ ids) = false

unfoldable pub flush_ids : RandoBridge → List ℤ
unfolding unremoved_slots unremoved_ids
flush_ids b = elim b.save [
  | some save ↦ unremoved_slots b save.checked
  | none ↦ unremoved_ids b b.sent
]

unfoldable pub flush : RandoBridge → RandoBridge
unfolding flush_ids call_link
flush b =
    if not b.link.connected
    then b
    else if not (is_empty (flush_ids b))
    then call_link (send_locations (flush_ids b)) b
    else b

unfoldable pub scout_ids : RandoBridge → List ℤ → List ℤ
scout_ids b [] = []
scout_ids b (slot ∷ slots) =
    let rest = scout_ids b slots in
    if is_ap_location b slot && not (is_removed b slot) then ap_loc_id slot ∷ rest else rest

unfoldable pub request_scouts : List ℤ → RandoBridge → RandoBridge
unfolding scout_ids call_link
request_scouts slots b =
    if not (is_empty (scout_ids b slots))
    then call_link (scout_locations (scout_ids b slots)) b
    else b

unfoldable pub send_goal : RandoBridge → RandoBridge
unfolding call_link
send_goal b =
    if b.goal_sent
    then b
    else if not b.state.authenticated
    then b
    else call_link set_goal (record b { goal_sent = true })
