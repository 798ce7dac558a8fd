-- ===== src/Ap/Coordinator/Session.antt =====
-- A session boundary in the events of `ApCoordinator::tick` (src/mth/core/ap/ap_coordinator.cpp).
use mth_apclient.Base.{◌≡◌, List, [], ◌∷◌, ◌∙◌, ap, sym, refl}
use mth_apclient.Ap.Coordinator.{App, Callbacks, tick, before_apply, handle_event, after_apply}
use mth_apclient.Ap.State.{reset_session, apply, ApState, apply_connected, set_status, set_phase}
use mth_apclient.Ap.Events.{ApConnected, ApEvent, ap_session_ended, ap_connected}

-- The callbacks as the application installs them, as far as the room's state goes: the end of a
-- session resets it, and no other callback writes to it.
pub record ResetsAtEnd {R : Type 0} (cb : Callbacks R) : Type 0 where
  pub end_resets : (a : App R) → (before_apply cb ap_session_ended a).state ≡ reset_session a.state
  pub others_keep : (ev : ApEvent) (a : App R) → (after_apply cb ev a).state ≡ a.state

-- A connect writes every field that a reset leaves.
connected_anew :
    (e : ApConnected) (s t : ApState)
    → apply (ap_connected e) (reset_session s) ≡ apply (ap_connected e) (reset_session t)
unfolding apply reset_session set_phase set_status
connected_anew e s t = refl

module _ {R : Type 0} {cb : Callbacks R} (installed : ResetsAtEnd cb) where
  pub handle_event_lem :
      (ev : ApEvent) (a : App R)
      → (handle_event cb ev a).state ≡ apply ev (before_apply cb ev a).state
  unfolding handle_event
  handle_event_lem ev a =
      let b = before_apply cb ev a in
      installed.others_keep ev (record b { state = apply ev b.state })

  before_apply-state :
      (ev : ApEvent) (a b : App R)
      → a.state ≡ b.state
      → (before_apply cb ev a).state ≡ (before_apply cb ev b).state
  unfolding before_apply
  before_apply-state ap_session_ended a b h =
      installed.end_resets a ∙ ap reset_session h ∙ sym (installed.end_resets b)
  before_apply-state _ a b h = h

  tick-state :
      (events : List ApEvent) (a b : App R)
      → a.state ≡ b.state
      → (tick cb events a).state ≡ (tick cb events b).state
  unfolding tick
  tick-state [] a b h = h
  tick-state (ev ∷ events) a b h = tick-state events (handle_event cb ev a) (handle_event cb ev b) (
      handle_event_lem ev a
      ∙ ap (apply ev) (before_apply-state ev a b h)
      ∙ sym (handle_event_lem ev b))

  ended_then_connected :
      (e : ApConnected) (a : App R)
      → (handle_event cb (ap_connected e) (handle_event cb ap_session_ended a)).state
        ≡ apply (ap_connected e) (reset_session a.state)
  unfolding apply before_apply
  ended_then_connected e a =
      handle_event_lem (ap_connected e) (handle_event cb ap_session_ended a)
      ∙ ap (apply_connected e) (handle_event_lem ap_session_ended a ∙ installed.end_resets a)

  -- After a session's end and the connect that follows it, the room's state depends on the events
  -- alone: two runs that differ in all that came before end in one state.
  pub tick_fresh_session :
      (e : ApConnected) (events : List ApEvent) (a b : App R)
      → (tick cb (ap_session_ended ∷ ap_connected e ∷ events) a).state
        ≡ (tick cb (ap_session_ended ∷ ap_connected e ∷ events) b).state
  unfolding tick
  tick_fresh_session e events a b =
      tick-state events _ _ (
        ended_then_connected e a
        ∙ connected_anew e a.state b.state
        ∙ sym (ended_then_connected e b))
