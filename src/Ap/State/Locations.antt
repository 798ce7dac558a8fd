-- ===== src/Ap/State/Locations.antt =====
-- The location sets of `ApState` (src/mth/core/ap/ap_state.cpp) after a connect.
use mth_apclient.Base.IntSet
use mth_apclient.Base.IntSet.{contains-insert, contains-insert_all, insert_all}
use mth_apclient.Base.{◌≡◌, ◌&&◌, ◌||◌, not, List, [], ◌∷◌, arith, ℤ, eqb_ℤ_iff, refl, false}
use mth_apclient.Ap.State.{
  apply_connected, apply, is_removed_location, is_valid_location, prune, ApState, set_phase,
  set_status, inject_received_item, launch, take_server_checked_pending, push_received, apply_item,
  reset_session,
}
use mth_apclient.Ap.Events.{ApConnected, ap_connected, ApEvent, ap_connecting, ap_item_received}
use mth_apclient.Ap.State.Cursor.{injects, Operation, perform, takes, applies, perform_all, resets}

contains-prune :
    (valid ids removed : List ℤ) (id : ℤ)
    → IntSet.contains (prune valid ids removed) id
      ≡ (IntSet.contains removed id || (IntSet.contains ids id && not (IntSet.contains valid id)))
unfolding prune IntSet.contains
contains-prune valid [] removed id = ground arith
contains-prune valid (x ∷ ids) removed id = ground (
  arith,
  contains-prune valid ids removed id,
  contains-prune valid ids (IntSet.insert x removed) id,
  contains-insert x id removed,
  eqb_ℤ_iff x id,
)

-- After a connect, a location is valid exactly if the server lists it as checked or missing, and
-- removed exactly if the seed prunes it and the server does not list it, whatever was there before.
pub apply_connected-locations :
    (e : ApConnected) (s : ApState) (id : ℤ)
    → (is_valid_location (apply (ap_connected e) s) id
        ≡ (IntSet.contains e.checked_locations id || IntSet.contains e.missing_locations id))
      × (is_removed_location (apply (ap_connected e) s) id ≡ (
          IntSet.contains e.config.removed_locations id
          && not
              (IntSet.contains e.checked_locations id || IntSet.contains e.missing_locations id)))
unfolding apply apply_connected set_phase set_status IntSet.contains
apply_connected-locations e s id =
    let checked = insert_all e.checked_locations [] in
    ground (
      arith,
      contains-insert_all e.missing_locations checked id,
      contains-insert_all e.checked_locations [] id,
      contains-prune (insert_all e.missing_locations checked) e.config.removed_locations [] id,
    )

abbrev pub IsDisjoint : ApState → Type 0
IsDisjoint s = (id : ℤ) → (is_valid_location s id && is_removed_location s id) ≡ false

apply-IsDisjoint : (ev : ApEvent) (s : ApState) → IsDisjoint s → IsDisjoint (apply ev s)
unfolding apply set_phase set_status apply_item push_received
apply-IsDisjoint (ap_connected e) s d id = ground (arith, apply_connected-locations e s id)
apply-IsDisjoint (ap_item_received item) s d id = ground (arith, d id)
apply-IsDisjoint ap_connecting s d id = d id
apply-IsDisjoint _ s d id = d id

perform-IsDisjoint : (op : Operation) (s : ApState) → IsDisjoint s → IsDisjoint (perform op s)
unfolding perform take_server_checked_pending inject_received_item reset_session push_received
    IntSet.contains
perform-IsDisjoint (applies ev) s d id = apply-IsDisjoint ev s d id
perform-IsDisjoint (injects item_id) s d id = d id
perform-IsDisjoint resets s d id = ground arith
perform-IsDisjoint takes s d id = d id

perform_all-IsDisjoint :
    (ops : List Operation) (s : ApState) → IsDisjoint s → IsDisjoint (perform_all ops s)
unfolding perform_all
perform_all-IsDisjoint [] s d = d
perform_all-IsDisjoint (op ∷ ops) s d = perform_all-IsDisjoint ops _ (perform-IsDisjoint op s d)

-- After any sequence of events, console injections, resets and drains from launch, no location is
-- both valid and removed.
pub locations-IsDisjoint : (ops : List Operation) → IsDisjoint (perform_all ops launch)
locations-IsDisjoint ops = perform_all-IsDisjoint ops launch launch_disjoint
  where
    launch_disjoint : IsDisjoint launch
    launch_disjoint id = unfold launch IntSet.contains in refl
