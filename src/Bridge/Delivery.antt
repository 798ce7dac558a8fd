-- ===== src/Bridge/Delivery.antt =====
-- `on_location_collected` and a later `flush` of src/mth/core/rando_bridge.cpp.
use mth_apclient.Base.IntSet
use mathlib.Core.Bool.{false≢true}
use mth_apclient.Base.{
  ◌≡◌, refl, true, false, Bool, ◌∙◌, Option, none, some, List, [], ◌∷◌, arith, ℤ, eqb_ℤ_iff,
}
use mth_apclient.Bridge.{
  is_empty, flush_ids, on_location_collected, unremoved_slots, unremoved_ids, call_link,
  send_locations, attach_save_state, detach_save_state, reset_bridge, is_recorded, is_removed,
  RandoBridge, flush,
}
use mth_apclient.Ids.Blocks.{ap_loc_id}
use mth_apclient.Bridge.Dedup.{
  collect_keeps, collect-recorded, perform-recorded, is_open, perform-state, Operation, recorded,
  perform,
}
use mth_apclient.Ap.SaveState.{ApSaveState, is_checked}
use mth_apclient.Ap.State.{is_removed_location}

unremoved_slots-contains :
    (b : RandoBridge) (slots : List ℤ) (slot : ℤ)
    → IntSet.contains slots slot ≡ true
    → is_removed b slot ≡ false
    → IntSet.contains (unremoved_slots b slots) (ap_loc_id slot) ≡ true
unfolding unremoved_slots IntSet.contains
unremoved_slots-contains b [] slot h k = cc
unremoved_slots-contains b (x ∷ slots) slot h k = ground (
  arith,
  eqb_ℤ_iff x slot,
  eqb_ℤ_iff (ap_loc_id x) (ap_loc_id slot),
  unremoved_slots-contains b slots slot,
)

unremoved_ids-contains :
    (b : RandoBridge) (ids : List ℤ) (id : ℤ)
    → IntSet.contains ids id ≡ true
    → is_removed_location b.state id ≡ false
    → IntSet.contains (unremoved_ids b ids) id ≡ true
unfolding unremoved_ids IntSet.contains
unremoved_ids-contains b [] id h k = cc
unremoved_ids-contains b (x ∷ ids) id h k =
    ground (arith, eqb_ℤ_iff x id, unremoved_ids-contains b ids id)

flush_ids-contains :
    (b : RandoBridge) (slot : ℤ) (save : Option ApSaveState)
    → b.save ≡ save
    → is_recorded save b.sent slot ≡ true
    → is_open b slot ≡ true
    → IntSet.contains (flush_ids b) (ap_loc_id slot) ≡ true
unfolding flush_ids
flush_ids-contains b slot none e h k =
    ground (arith, unremoved_ids-contains b b.sent (ap_loc_id slot))
flush_ids-contains b slot (some save) e h k =
    ground (arith, unremoved_slots-contains b save.checked slot)

is_empty-contains : (ids : List ℤ) (id : ℤ) → IntSet.contains ids id ≡ true → is_empty ids ≡ false
unfolding IntSet.contains
is_empty-contains [] id h = cc
is_empty-contains (x ∷ ids) id h = refl

-- The link comes up: its flag is the network's to change.
abbrev pub reconnected : RandoBridge → RandoBridge
reconnected b = record b { link = record { connected = true; calls = b.link.calls } }

-- What a session does with a bridge, and the changes of the save that it holds.
pub data SessionEvent : Type 0 where
  does : Operation → SessionEvent
  attaches : ApSaveState → SessionEvent
  detaches resets : SessionEvent

unfoldable pub happen : SessionEvent → RandoBridge → RandoBridge
unfolding perform attach_save_state detach_save_state reset_bridge
happen (does op) b = perform op b
happen (attaches save) b = attach_save_state save b
happen detaches b = detach_save_state b
happen resets b = reset_bridge b

unfoldable pub happen_all : List SessionEvent → RandoBridge → RandoBridge
unfolding happen
happen_all [] b = b
happen_all (ev ∷ events) b = happen_all events (happen ev b)

-- Whether the bridge still knows of a slot behind these events, having known of it before them: an
-- attached save counts for what it has checked itself, and a save that goes takes all with it.
unfoldable pub survives : ℤ → List SessionEvent → Bool → Bool
survives slot [] known = known
survives slot (does op ∷ events) known = survives slot events known
survives slot (attaches save ∷ events) known = survives slot events (is_checked save slot)
survives slot (detaches ∷ events) known = survives slot events false
survives slot (resets ∷ events) known = survives slot events false

happen-state : (ev : SessionEvent) (b : RandoBridge) → (happen ev b).state ≡ b.state
unfolding happen attach_save_state detach_save_state reset_bridge
happen-state (does op) b = perform-state op b
happen-state (attaches save) b = refl
happen-state detaches b = ground arith
happen-state resets b = ground arith

happen_all-state :
    (events : List SessionEvent) (b : RandoBridge) → (happen_all events b).state ≡ b.state
unfolding happen_all
happen_all-state [] b = refl
happen_all-state (ev ∷ events) b = happen_all-state events (happen ev b) ∙ happen-state ev b

happen_all-recorded :
    (slot : ℤ) (events : List SessionEvent) (known : Bool) (b : RandoBridge)
    → (known ≡ true → recorded b slot ≡ true)
    → survives slot events known ≡ true
    → recorded (happen_all events b) slot ≡ true
unfolding happen_all survives happen attach_save_state
happen_all-recorded slot [] known b h e = h e
happen_all-recorded slot (does op ∷ events) known b h e =
    happen_all-recorded slot events known (perform op b) (λ up. perform-recorded op slot b (h up)) e
happen_all-recorded slot (attaches save ∷ events) known b h e =
    happen_all-recorded slot events (is_checked save slot) (attach_save_state save b) (λ up. up) e
happen_all-recorded slot (detaches ∷ events) known b h e =
    happen_all-recorded slot events false (detach_save_state b) (λ up. absurd (false≢true up)) e
happen_all-recorded slot (resets ∷ events) known b h e =
    happen_all-recorded slot events false (reset_bridge b) (λ up. absurd (false≢true up)) e

-- No check is lost: a slot that is collected while it is a location that the seed did not prune is
-- in the batch that a later flush sends, whether the link was up at the collection or not and
-- whatever the session did in between: further collections, reconciliations, flushes, scouts and
-- goals, and saves attached, saves detached and resets, where the last of these three, if there is
-- one, attached a save that has the slot checked.
pub collect_delivered :
    (slot : ℤ) (events : List SessionEvent) (b : RandoBridge)
    → is_open b slot ≡ true
    → survives slot events true ≡ true
    → let later = reconnected (happen_all events (on_location_collected slot b)) in
      ((flush later).link.calls ≡ send_locations (flush_ids later) ∷ later.link.calls)
      × (IntSet.contains (flush_ids later) (ap_loc_id slot) ≡ true)
unfolding flush call_link
collect_delivered slot events b h kept =
    let after = on_location_collected slot b in
    let later = reconnected (happen_all events after) in
    let held =
      flush_ids-contains later slot later.save refl
        (happen_all-recorded slot events true after (λ up. collect-recorded slot b h) kept)
        (rw (happen_all-state events after, (collect_keeps slot b).0) h) in
    (rw (is_empty-contains (flush_ids later) (ap_loc_id slot) held) refl, held)
