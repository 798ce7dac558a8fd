-- ===== src/Ap/Coordinator.antt =====
-- src/mth/core/ap/ap_coordinator.cpp: `ApCoordinator::tick`. The callbacks are parameters, since the
-- application installs them: each may be absent, and may change the room's state as well as the
-- rest of the application, `R`.
pub mod Session
use mth_apclient.Base.{Option, none, some, List, [], ◌∷◌, Bytes}
use mth_apclient.Ap.State.{ApState, apply}
use mth_apclient.Ap.Events.{
  ap_print_broadcast, ap_scout_info, ap_connected, ScoutInfo, ap_disconnected, ap_session_ended,
  ApEvent, BannerSegment, ap_death_received,
}

pub record App (R : Type 0) : Type 0 where
  pub state : ApState
  pub rest : R

pub record Callbacks (R : Type 0) : Type 0 where
  pub on_death : Option (Bytes → Bytes → App R → App R)
  pub on_broadcast : Option (List BannerSegment → App R → App R)
  pub on_scout : Option (List ScoutInfo → App R → App R)
  pub on_session_reset : Option (App R → App R)
  pub on_session_end : Option (App R → App R)

module _ {R : Type 0} where
  call : Option (App R → App R) → App R → App R
  call none a = a
  call (some f) a = f a

  call_with {ℓ} : {A : Type ℓ} → Option (A → App R → App R) → A → App R → App R
  call_with none x a = a
  call_with (some f) x a = f x a

  call_with_two {ℓ} : {A : Type ℓ} → Option (A → A → App R → App R) → A → A → App R → App R
  call_with_two none x y a = a
  call_with_two (some f) x y a = f x y a

  unfoldable pub before_apply : Callbacks R → ApEvent → App R → App R
  unfolding call
  before_apply cb ap_session_ended a = call cb.on_session_end a
  before_apply cb _ a = a

  unfoldable pub after_apply : Callbacks R → ApEvent → App R → App R
  unfolding call call_with call_with_two
  after_apply cb (ap_death_received source cause) a = call_with_two cb.on_death source cause a
  after_apply cb (ap_print_broadcast segments) a = call_with cb.on_broadcast segments a
  after_apply cb (ap_scout_info locations) a = call_with cb.on_scout locations a
  after_apply cb (ap_connected e) a = call cb.on_session_reset a
  after_apply cb ap_disconnected a = call cb.on_session_reset a
  after_apply cb _ a = a

  -- One round of the loop.
  unfoldable pub handle_event : Callbacks R → ApEvent → App R → App R
  unfolding before_apply after_apply
  handle_event cb ev a =
      let b = before_apply cb ev a in after_apply cb ev (record b { state = apply ev b.state })

  -- `drain_events` is the argument: the link's queue, in order.
  unfoldable pub tick : Callbacks R → List ApEvent → App R → App R
  unfolding handle_event
  tick cb [] a = a
  tick cb (ev ∷ events) a = tick cb events (handle_event cb ev a)
