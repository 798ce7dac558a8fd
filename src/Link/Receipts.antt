-- ===== src/Link/Receipts.antt =====
-- The receipts that src/mth/net/ap_link_apclient.cpp pushes, as the game thread takes them up in
-- `ApCoordinator::tick` (src/mth/core/ap/ap_coordinator.cpp).
use mth_apclient.Base.{◌≡◌, true, List, [], ◌∷◌, ◌++◌, ℤ, ltb_ℤ, and_parts, arith}
use mth_apclient.Link.Monitor.{Monitor, track, track_all, fresh_monitor, track_all-append}
use mth_apclient.Ap.Coordinator.{Callbacks, App, handle_event, tick, before_apply}
use mth_apclient.Ap.State.{
  ApState, apply_item, push_received, apply, set_phase, set_status, apply_connected, launch,
  reset_session,
}
use mth_apclient.Ap.Events.{ap_session_ended, ap_item_received, ReceivedItem, ApEvent, ap_connected}
use mth_apclient.Ap.Coordinator.Session.{ResetsAtEnd, handle_event_lem}
use mth_apclient.SlotData.Library.{JsonLibrary}
use mth_apclient.Link.Loop.{launched, Step, perform_all}
use mth_apclient.Link.Stream.{perform_all-stream}

-- The items pushed behind the last marker, after `items` that came before.
abbrev pub note_item : ApEvent → List ReceivedItem → List ReceivedItem
note_item ap_session_ended items = []
note_item (ap_item_received it) items = items ++ it ∷ []
note_item _ items = items

unfoldable pub since_marker : List ApEvent → List ReceivedItem → List ReceivedItem
since_marker [] items = items
since_marker (ev ∷ events) items = since_marker events (note_item ev items)

-- What rose in the end rose all along.
rising-track : (ev : ApEvent) (m : Monitor) → (track ev m).rising ≡ true → m.rising ≡ true
rising-track (ap_item_received it) m h = (and_parts _ _ h).0
rising-track ap_session_ended m h = h
rising-track (ap_connected e) m h = h
rising-track _ m h = h

rising-track_all :
    (events : List ApEvent) (m : Monitor) → (track_all events m).rising ≡ true → m.rising ≡ true
unfolding track_all
rising-track_all [] m h = h
rising-track_all (ev ∷ events) m h = rising-track ev m (rising-track_all events (track ev m) h)

-- The part of the room's state that the receipts make up.
abbrev HasReceipts : ApState → ℤ → List ReceivedItem → Type 0
HasReceipts s cursor items = (s.last_item_index ≡ cursor) × (s.received_items ≡ items)

module _ {R : Type 0} {cb : Callbacks R} (installed : ResetsAtEnd cb) where
  handle_event-HasReceipts :
      (ev : ApEvent) (m : Monitor) (a : App R) (items : List ReceivedItem)
      → (track ev m).rising ≡ true
      → HasReceipts a.state m.cursor items
      → HasReceipts (handle_event cb ev a).state (track ev m).cursor (note_item ev items)
  unfolding before_apply reset_session apply apply_item apply_connected push_received set_phase
      set_status
  handle_event-HasReceipts ap_session_ended m a items up h =
      ground (arith, handle_event_lem installed ap_session_ended a, installed.end_resets a)
  handle_event-HasReceipts (ap_item_received it) m a items up h =
      let newer : ltb_ℤ m.cursor it.index ≡ true = (and_parts _ _ up).1 in
      ground (arith, handle_event_lem installed (ap_item_received it) a, h, newer)
  handle_event-HasReceipts ev m a items up h = ground (arith, handle_event_lem installed ev a, h)

  tick-HasReceipts :
      (events : List ApEvent) (m : Monitor) (a : App R) (items : List ReceivedItem)
      → (track_all events m).rising ≡ true
      → HasReceipts a.state m.cursor items
      → HasReceipts (tick cb events a).state (track_all events m).cursor (since_marker events items)
  unfolding tick track_all since_marker
  tick-HasReceipts [] m a items up h = h
  tick-HasReceipts (ev ∷ events) m a items up h =
      tick-HasReceipts events (track ev m) (handle_event cb ev a) (note_item ev items) up
        (handle_event-HasReceipts ev m a items (rising-track_all events (track ev m) up) h)

  drained-perform_all :
      (lib : JsonLibrary) (steps : List (Step lib))
      → (track_all (perform_all lib steps launched).drained fresh_monitor).rising ≡ true
  drained-perform_all lib steps =
      let r = perform_all lib steps launched in
      rising-track_all r.link.events (track_all r.drained fresh_monitor) (
        rw (track_all-append r.drained r.link.events fresh_monitor) at
          (perform_all-stream lib steps).1)

  -- Where the end of a session resets the room's state and no other callback writes to it, the
  -- game thread that starts at launch and takes up all that was drained holds exactly the items
  -- that the net thread pushed behind the last session-ended marker, in their order: its own
  -- cursor drops none of them and lets none in twice.
  pub received-drained :
      (lib : JsonLibrary) (steps : List (Step lib)) (a : App R)
      → a.state ≡ launch
      → let drained = (perform_all lib steps launched).drained in
        (tick cb drained a).state.received_items ≡ since_marker drained []
  unfolding launch
  received-drained lib steps a e =
      (tick-HasReceipts (perform_all lib steps launched).drained fresh_monitor a []
        (drained-perform_all lib steps) (ground (arith, e))).1
