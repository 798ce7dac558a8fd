-- ===== src/Examples/Room.antt =====
-- The item ids, the room's state and the save on the small seed.
use mth_apclient.Base.{ℕ, suc, ◌≡◌, refl, none, some, List, [], ◌∷◌, arith, pos}
use mth_apclient.Examples.{receipt, room, save}
use mth_apclient.Ids.Progressive.{owned_mask, weapon_itemtype, empty_tally, tally_add}
use mth_apclient.Ids.Segments.{owned_bit, owned_mask-tally_add, tally_run}
use mth_apclient.Ap.SaveState.{serialize, deserialize, mark_checked}
use mth_apclient.Ap.Coordinator.{Callbacks, App, after_apply, before_apply}
use mth_apclient.Ap.State.{launch, reset_session}
use mth_apclient.Ap.Events.{
  ap_print_broadcast, ap_session_ended, ap_item_received, ap_connected, ap_connection_refused,
  ap_connecting, ap_locations_checked, ap_scout_info, ApEvent, ap_death_received, ap_disconnected,
  ap_status_changed,
}
use mth_apclient.Ap.SaveState.RoundTrip.{deserialize-serialize, IsStored, kept_slot}
use mth_apclient.Ap.State.Cursor.{
  takes, applies, HasCursor, injects, received_items-HasCursor, Operation, perform_all,
}
use mth_apclient.Ap.State.Locations.{IsDisjoint, locations-IsDisjoint}
use mth_apclient.Ap.Coordinator.Session.{ResetsAtEnd}

owned_mask-tally_add_example :
    owned_bit (weapon_itemtype (pos 0) (pos 2)) (
      owned_mask
        (tally_run
          (tally_add (tally_run empty_tally (pos 1000 ∷ [])) (pos 1000)).0
          (pos 1001 ∷ pos 1000 ∷ []))
        (pos 0))
    ≡ 1
unfolding tally_add weapon_itemtype tally_run
owned_mask-tally_add_example =
    owned_mask-tally_add (pos 1000 ∷ []) (pos 1001 ∷ pos 1000 ∷ []) 1000 refl (ground arith)

abbrev life : List Operation
life =
    applies (ap_connected room)
    ∷ applies (ap_item_received (receipt (pos 14) (pos 0)))
    ∷ injects (pos 70)
    ∷ applies (ap_item_received (receipt (pos 14) (pos 0)))
    ∷ injects (pos 14)
    ∷ takes
    ∷ []

received_items-HasCursor_example : HasCursor (perform_all life launch)
received_items-HasCursor_example = received_items-HasCursor life

locations-IsDisjoint_example : IsDisjoint (perform_all life launch)
locations-IsDisjoint_example = locations-IsDisjoint life

-- The application's callback at the end of a session, beside a banner counter.
abbrev installed_callbacks : Callbacks ℕ
installed_callbacks = record {
  on_death = none;
  on_broadcast = some (λ segments a. record a { rest = suc a.rest });
  on_scout = none;
  on_session_reset = some (λ a. record a { rest = 0 });
  on_session_end = some (λ a. record a { state = reset_session a.state });
}

after_apply-keeps :
    (ev : ApEvent) (a : App ℕ) → (after_apply installed_callbacks ev a).state ≡ a.state
unfolding after_apply
after_apply-keeps (ap_connected e) a = refl
after_apply-keeps ap_connecting a = refl
after_apply-keeps (ap_item_received item) a = refl
after_apply-keeps (ap_locations_checked ids) a = refl
after_apply-keeps ap_disconnected a = refl
after_apply-keeps (ap_connection_refused errors) a = refl
after_apply-keeps (ap_status_changed text) a = refl
after_apply-keeps (ap_death_received source cause) a = refl
after_apply-keeps (ap_print_broadcast segments) a = refl
after_apply-keeps (ap_scout_info locations) a = refl
after_apply-keeps ap_session_ended a = refl

installed_resets : ResetsAtEnd installed_callbacks
unfolding before_apply
installed_resets = record { end_resets = λ a. refl; others_keep = after_apply-keeps }

pub save-IsStored : IsStored save
save-IsStored = record {
  checked_sorted = ground arith;
  granted_sorted = ground arith;
  checked_ints = ground arith;
  granted_ints = ground arith;
  slot_int = ground arith;
}

deserialize-serialize_example :
    deserialize (serialize save) (mark_checked (pos 2) save) ≡ record (mark_checked (pos 2) save) {
      checked = save.checked;
      granted = save.granted;
      game_slot = kept_slot save.game_slot;
    }
deserialize-serialize_example = deserialize-serialize save (mark_checked (pos 2) save) save-IsStored
