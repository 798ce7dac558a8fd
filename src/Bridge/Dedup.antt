-- ===== src/Bridge/Dedup.antt =====
-- Repeated collections in a session of src/mth/core/rando_bridge.cpp.
use mth_apclient.Base.IntSet.{contains-insert}
use mth_apclient.Base.{
  ◌≡◌, ◌∙◌, Bool, true, false, ◌&&◌, ◌||◌, not, Option, none, some, arith, ℤ, eqb_ℤ, inl, inr, refl,
  Option-cases, eqb_ℤ_iff, List, [], ◌∷◌, Bool-cases, eqb_ℤ_refl,
}
use mth_apclient.Bridge.{
  record_slot, on_location_collected, is_ap_location, RandoBridge, is_removed, is_recorded,
  send_if_connected, call_link, request_scouts, flush, send_goal, reconcile_server_checked,
}
use mth_apclient.Ap.SaveState.{stage, ApSaveState, is_checked, mark_checked}
use mth_apclient.Ids.Blocks.{ap_loc_id}

abbrev pub recorded : RandoBridge → ℤ → Bool
recorded b slot = is_recorded b.save b.sent slot

-- A location of the seed that the seed has not pruned.
abbrev pub is_open : RandoBridge → ℤ → Bool
is_open b slot = is_ap_location b slot && not (is_removed b slot)

contains-stage :
    (save : ApSaveState) (slot : ℤ) → is_checked (stage save) slot ≡ is_checked save slot
unfolding stage
contains-stage save slot = ground arith

is_checked-mark :
    (save : ApSaveState) (a slot : ℤ)
    → is_checked (stage (mark_checked a save)) slot ≡ (eqb_ℤ a slot || is_checked save slot)
unfolding mark_checked
is_checked-mark save a slot =
    contains-stage (mark_checked a save) slot ∙ contains-insert a slot save.checked

-- A collection writes to the room's state, the connection flag and the goal latch nothing.
pub collect_keeps :
    (slot : ℤ) (b : RandoBridge)
    → let b' = on_location_collected slot b in
      (b'.state ≡ b.state) × (b'.link.connected ≡ b.link.connected) × (b'.goal_sent ≡ b.goal_sent)
unfolding on_location_collected
collect_keeps slot b = ground arith

pub collect_closed :
    (slot : ℤ) (b : RandoBridge) → is_open b slot ≡ false → on_location_collected slot b ≡ b
unfolding on_location_collected
collect_closed slot b h = ground arith

pub collect_recorded :
    (slot : ℤ) (b : RandoBridge) → recorded b slot ≡ true → on_location_collected slot b ≡ b
unfolding on_location_collected record_slot
collect_recorded slot b h = ground arith

loc_id_eqb : (a slot : ℤ) → eqb_ℤ (ap_loc_id a) (ap_loc_id slot) ≡ eqb_ℤ a slot
loc_id_eqb a slot = ground arith

-- What a collection of `a` does to what is recorded.
record_slot-recorded :
    (a slot : ℤ) (save : Option ApSaveState) (b b' : RandoBridge)
    → b.save ≡ save
    → record_slot a b ≡ some b'
    → recorded b' slot ≡ (eqb_ℤ a slot || recorded b slot)
unfolding record_slot
record_slot-recorded a slot none b b' e h =
    ground (arith, contains-insert (ap_loc_id a) (ap_loc_id slot) b.sent, loc_id_eqb a slot)
record_slot-recorded a slot (some save) b b' e h = ground (arith, is_checked-mark save a slot)

record_slot-none :
    (a slot : ℤ) (b : RandoBridge)
    → record_slot a b ≡ none
    → (eqb_ℤ a slot || recorded b slot) ≡ recorded b slot
unfolding record_slot
record_slot-none a slot b e = ground (arith, eqb_ℤ_iff a slot)

pub recorded-collect :
    (a slot : ℤ) (b : RandoBridge)
    → recorded (on_location_collected a b) slot ≡ ((is_open b a && eqb_ℤ a slot) || recorded b slot)
unfolding on_location_collected send_if_connected call_link
recorded-collect a slot b = elim (Option-cases (record_slot a b)) [
  | inl e ↦ ground (arith, e, record_slot-none a slot b e)
  | inr (b', e) ↦ ground (arith, e, record_slot-recorded a slot b.save b b' refl e)
]

-- What a session does with a bridge between two of its boundaries.
pub data Operation : Type 0 where
  collects reconciles : ℤ → Operation
  flushes sends_goal : Operation
  scouts : List ℤ → Operation

unfoldable pub perform : Operation → RandoBridge → RandoBridge
perform (collects slot) b = on_location_collected slot b
perform (reconciles slot) b = (reconcile_server_checked slot b).0
perform flushes b = flush b
perform sends_goal b = send_goal b
perform (scouts slots) b = request_scouts slots b

unfoldable pub perform_all : List Operation → RandoBridge → RandoBridge
perform_all [] b = b
perform_all (op ∷ ops) b = perform_all ops (perform op b)

pub perform-state : (op : Operation) (b : RandoBridge) → (perform op b).state ≡ b.state
unfolding perform reconcile_server_checked flush send_goal request_scouts call_link
perform-state (collects slot) b = (collect_keeps slot b).0
perform-state (reconciles slot) b = ground arith
perform-state _ b = ground arith

pub perform_all-state :
    (ops : List Operation) (b : RandoBridge) → (perform_all ops b).state ≡ b.state
unfolding perform_all
perform_all-state [] b = refl
perform_all-state (op ∷ ops) b = perform_all-state ops (perform op b) ∙ perform-state op b

reconcile-recorded :
    (a slot : ℤ) (save : Option ApSaveState) (b : RandoBridge)
    → b.save ≡ save
    → recorded b slot ≡ true
    → recorded (reconcile_server_checked a b).0 slot ≡ true
unfolding reconcile_server_checked mark_checked
reconcile-recorded a slot none b e h = ground arith
reconcile-recorded a slot (some save) b e h = ground (arith, contains-insert a slot save.checked)

pub perform-recorded :
    (op : Operation) (slot : ℤ) (b : RandoBridge)
    → recorded b slot ≡ true
    → recorded (perform op b) slot ≡ true
unfolding perform flush send_goal request_scouts call_link
perform-recorded (collects a) slot b h = ground (arith, recorded-collect a slot b)
perform-recorded (reconciles a) slot b h = reconcile-recorded a slot b.save b refl h
perform-recorded _ slot b h = ground arith

pub perform_all-recorded :
    (ops : List Operation) (slot : ℤ) (b : RandoBridge)
    → recorded b slot ≡ true
    → recorded (perform_all ops b) slot ≡ true
unfolding perform_all
perform_all-recorded [] slot b h = h
perform_all-recorded (op ∷ ops) slot b h =
    perform_all-recorded ops slot (perform op b) (perform-recorded op slot b h)

pub collect-recorded :
    (slot : ℤ) (b : RandoBridge)
    → is_open b slot ≡ true
    → recorded (on_location_collected slot b) slot ≡ true
collect-recorded slot b h = ground (arith, recorded-collect slot slot b, eqb_ℤ_refl slot)

-- A slot that is collected again in the same session, whatever collections, reconciliations,
-- flushes, scouts and goals come in between, changes nothing: no call on the link, no new record.
pub collect_once :
    (slot : ℤ) (ops : List Operation) (b : RandoBridge)
    → on_location_collected slot (perform_all ops (on_location_collected slot b))
      ≡ perform_all ops (on_location_collected slot b)
collect_once slot ops b = elim (Bool-cases (is_open b slot)) [
  | inl opened ↦ collect_recorded slot (perform_all ops (on_location_collected slot b)) (
      perform_all-recorded ops slot (on_location_collected slot b) (collect-recorded slot b opened))
  | inr closed ↦
      collect_closed slot (perform_all ops (on_location_collected slot b))
        (rw (perform_all-state ops (on_location_collected slot b), (collect_keeps slot b).0) closed)
]
