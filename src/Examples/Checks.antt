-- ===== src/Examples/Checks.antt =====
-- The bridge and the granter on the small seed.
use mth_apclient.Base.IntSet
use mth_apclient.Base.{
  ℕ, suc, ◌≤◌, ◌≡◌, ◌⊎◌, inl, inr, refl, true, false, none, some, List, [], ◌∷◌, arith, ltb,
  if◌then◌else◌, ℤ, pos, negsuc,
}
use mth_apclient.Bridge.{
  send_locations, flush, RandoBridge, flush_ids, on_location_collected, attach_save_state,
  construct_bridge,
}
use mth_apclient.Examples.{receipts, save, joined}
use mth_apclient.Ids.Blocks.{ap_loc_id}
use mth_apclient.Bridge.Delivery.{
  collect_delivered, reconnected, SessionEvent, does, attaches, detaches, resets, happen_all,
  survives,
}
use mth_apclient.Bridge.Durable.{collect_staged}
use mth_apclient.Bridge.Dedup.{
  collect_once, is_open, collects, sends_goal, flushes, reconciles, scouts, Operation, perform_all,
}
use mth_apclient.Granter.Receipts.{InboundGranter, Effects, armed, handled}
use mth_apclient.Examples.Room.{save-IsStored}
use mth_apclient.Ap.SaveState.{mark_checked, serialize, stage, is_checked, deserialize}
use mth_apclient.Ap.State.{apply_connected, set_phase, set_status, ApState, apply, launch, prune}
use mth_apclient.Ap.State.Stream.{apply_items}
use mth_apclient.Granter.Once.{receipts_once, run_granter}
use mth_apclient.Granter.Logs.{times}

abbrev offline : RandoBridge
offline = construct_bridge (record { connected = false; calls = [] }) joined

abbrev saved : RandoBridge
saved = attach_save_state save offline

abbrev session : List Operation
session =
    scouts (pos 4 ∷ pos 5 ∷ []) ∷ reconciles (pos 4) ∷ sends_goal ∷ flushes ∷ collects (pos 9) ∷ []

offline_open : is_open offline (pos 5) ≡ true
offline_open =
    unfold construct_bridge apply apply_connected set_phase set_status launch prune IntSet.contains
      IntSet.insert_all IntSet.insert in
    refl

saved_open : is_open saved (pos 5) ≡ true
saved_open =
    unfold attach_save_state construct_bridge apply apply_connected set_phase set_status launch
      prune IntSet.contains IntSet.insert_all IntSet.insert in
    refl

collect_once_example :
    on_location_collected (pos 5) (perform_all session (on_location_collected (pos 5) saved))
    ≡ perform_all session (on_location_collected (pos 5) saved)
collect_once_example = collect_once (pos 5) session saved

-- A save that knows the slot replaces the one that was attached first.
abbrev visit : List SessionEvent
visit =
    does (collects (pos 9))
    ∷ resets
    ∷ attaches save
    ∷ does flushes
    ∷ detaches
    ∷ attaches (mark_checked (pos 5) save)
    ∷ does sends_goal
    ∷ []

visit_kept : survives (pos 5) visit true ≡ true
visit_kept = unfold survives mark_checked IntSet.contains IntSet.insert in refl

collect_delivered_example :
    let later = reconnected (happen_all visit (on_location_collected (pos 5) offline)) in
    ((flush later).link.calls ≡ send_locations (flush_ids later) ∷ later.link.calls)
    × (IntSet.contains (flush_ids later) (ap_loc_id (pos 5)) ≡ true)
collect_delivered_example = collect_delivered (pos 5) visit offline offline_open visit_kept

collect_staged_example :
    let after = stage (mark_checked (pos 5) save) in
    ((on_location_collected (pos 5) saved).save ≡ some after)
    × (after.staged ≡ serialize (mark_checked (pos 5) save) ∷ save.staged)
    × (is_checked (deserialize (serialize (mark_checked (pos 5) save)) save) (pos 5) ≡ true)
unfolding IntSet.contains
collect_staged_example =
    collect_staged (pos 5) saved save save (unfold attach_save_state in refl) refl save-IsStored
      (ground arith) saved_open refl

-- An item granter that counts its calls and refuses the first: the second is acknowledged at once.
abbrev counting_effects : Effects ℕ
counting_effects = record {
  grant = λ game_type index n. (suc n, ltb 0 n, (if ltb 0 n then index ∷ [] else []));
  credit_kear_key = none;
  arm_trap = some (λ modifier_index n. (n, armed));
}

abbrev new_granter : InboundGranter ℕ
new_granter = record {
  world = 0;
  save = save;
  in_flight = [];
  last_handled = negsuc 0;
  last_ungrantable = negsuc 0;
  last_in_flight = negsuc 0;
  stuck_ticks = 0;
  stuck_warned = false;
  trap_notready_ticks = 0;
  trap_notready_warned = false;
  log = [];
}

abbrev granter_events : List (ApState ⊎ ℤ)
granter_events =
    inl (apply_items receipts joined) ∷ inr (pos 1) ∷ inl (apply_items receipts joined) ∷ []

receipts_once_example :
    times (pos 1) (run_granter counting_effects granter_events new_granter).log
    ≤ (if handled (run_granter counting_effects granter_events new_granter) (pos 1) then 1 else 0)
receipts_once_example = receipts_once counting_effects granter_events new_granter (pos 1) refl

-- An item granter that only queues.
abbrev queueing_effects : Effects ℕ
queueing_effects = record {
  grant = λ game_type index n. (suc n, true, []);
  credit_kear_key = none;
  arm_trap = some (λ modifier_index n. (n, armed));
}
