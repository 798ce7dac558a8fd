-- ===== src/Gates/Burrow/Confirmed.antt =====
-- `BurrowBoundaryGate` of src/mth/core/burrow_boundary.hpp over any events behind a commit.
use mth_apclient.Base.{
  ℕ, suc, ◌+◌, ◌≤◌, ◌≡◌, ◌⊎◌, Bool, true, false, not, List, [], ◌∷◌, if◌then◌else◌, refl, arith,
}
use mth_apclient.Gates.Burrow.{
  unarmed, BoundaryAction, no_action, swim, Reading, arm_gate, eqb_bool, burrow,
  reading_unavailable, observe_burrowing, new_burrow_gate, BurrowGate, emerge, disarm, Mode,
  fall_in, observe_water, is_armed, water_confirm_ticks,
}

-- What reaches the gate between two commits.
pub data Event : Type 0 where
  reads : Reading → Event
  unavailable_reading : Event
  polls : Bool → Event
  disarms : Event

unfoldable pub react : Event → BurrowGate → BurrowGate × BoundaryAction
react (reads r) g = observe_water r g
react unavailable_reading g = (reading_unavailable g, no_action)
react (polls burrowing) g = (observe_burrowing burrowing g, no_action)
react disarms g = (disarm g, no_action)

-- The gate after a run, given from its last event back.
unfoldable pub after_arm : Bool → List Event → BurrowGate
after_arm deep [] = arm_gate deep new_burrow_gate
after_arm deep (e ∷ events) = (react e (after_arm deep events)).0

unfoldable pub acts : BoundaryAction → Bool
acts no_action = false
acts fall_in = true
acts emerge = true

-- How many of the last readings in a row, the polls between them aside, read `deep`.
unfoldable pub agreeing : Bool → List Event → ℕ
agreeing deep [] = 0
agreeing deep (reads r ∷ events) = if eqb_bool deep r.deep then suc (agreeing deep events) else 0
agreeing deep (unavailable_reading ∷ events) = 0
agreeing deep (polls burrowing ∷ events) = agreeing deep events
agreeing deep (disarms ∷ events) = agreeing deep events

unfoldable pub actions : Bool → List Event → ℕ
actions deep [] = 0
actions deep (e ∷ events) =
    actions deep events + (if acts (react e (after_arm deep events)).1 then 1 else 0)

-- The mode the gate's last reading belongs to.
unfoldable pub is_home : Mode → Bool → Bool
is_home unarmed deep = true
is_home burrow deep = not deep
is_home swim deep = deep

IsConfirmed : BurrowGate → List Event → Type 0
IsConfirmed g events =
    (is_home g.mode g.last_deep ≡ true) ⊎ (g.confirmed ≤ agreeing g.last_deep events)

-- A reading, by the mode it finds.
observed-IsConfirmed :
    (mode : Mode) (r : Reading) (g : BurrowGate) (events : List Event)
    → g.mode ≡ mode
    → IsConfirmed g events
    → IsConfirmed (observe_water r g).0 (reads r ∷ events)
unfolding IsConfirmed observe_water is_home agreeing
observed-IsConfirmed unarmed r g events e h = ground (arith, e)
observed-IsConfirmed burrow r g events e h = ground (arith, e)
observed-IsConfirmed swim r g events e h = ground (arith, e)

react-IsConfirmed :
    (e : Event) (g : BurrowGate) (events : List Event)
    → IsConfirmed g events
    → IsConfirmed (react e g).0 (e ∷ events)
unfolding react
react-IsConfirmed (reads r) g events h = observed-IsConfirmed g.mode r g events refl h
react-IsConfirmed unavailable_reading g events h =
    unfold IsConfirmed reading_unavailable is_home agreeing in ground arith
react-IsConfirmed (polls burrowing) g events h =
    unfold IsConfirmed observe_burrowing is_home agreeing in ground arith
react-IsConfirmed disarms g events h = unfold IsConfirmed disarm is_home agreeing in ground arith

after_arm-IsConfirmed :
    (deep : Bool) (events : List Event) → IsConfirmed (after_arm deep events) events
unfolding after_arm
after_arm-IsConfirmed deep [] = unfold IsConfirmed arm_gate is_home in ground arith
after_arm-IsConfirmed deep (e ∷ events) =
    react-IsConfirmed e (after_arm deep events) events (after_arm-IsConfirmed deep events)

action_agrees :
    (mode : Mode) (r : Reading) (g : BurrowGate) (events : List Event)
    → g.mode ≡ mode
    → IsConfirmed g events
    → acts (observe_water r g).1 ≡ true
    → water_confirm_ticks ≤ agreeing r.deep (reads r ∷ events)
unfolding IsConfirmed observe_water is_home agreeing acts
action_agrees unarmed r g events e h k = ground (arith, e)
action_agrees burrow r g events e h k = ground (arith, e)
action_agrees swim r g events e h k = ground (arith, e)

-- An armed gate acts on a crossing only when the last ten water readings in a row agree with the
-- one it acts on, polls between them aside and no reading missing.
pub action_confirmed :
    (armed_deep : Bool) (events : List Event) (r : Reading)
    → acts (observe_water r (after_arm armed_deep events)).1 ≡ true
    → water_confirm_ticks ≤ agreeing r.deep (reads r ∷ events)
action_confirmed armed_deep events r h =
    action_agrees (after_arm armed_deep events).mode r (after_arm armed_deep events) events refl
      (after_arm-IsConfirmed armed_deep events) h

spend : (deep : Bool) (events : List Event) → ℕ
spend deep events = if is_armed (after_arm deep events).mode then 1 else 0

observed_once :
    (mode : Mode) (r : Reading) (g : BurrowGate)
    → g.mode ≡ mode
    → (if is_armed (observe_water r g).0.mode then 1 else 0)
        + (if acts (observe_water r g).1 then 1 else 0)
      ≤ (if is_armed g.mode then 1 else 0)
unfolding observe_water acts
observed_once unarmed r g e = ground (arith, e)
observed_once burrow r g e = ground (arith, e)
observed_once swim r g e = ground (arith, e)

react_once :
    (e : Event) (g : BurrowGate)
    → (if is_armed (react e g).0.mode then 1 else 0) + (if acts (react e g).1 then 1 else 0)
      ≤ (if is_armed g.mode then 1 else 0)
unfolding react
react_once (reads r) g = observed_once g.mode r g refl
react_once unavailable_reading g = unfold reading_unavailable acts in ground arith
react_once (polls burrowing) g = unfold observe_burrowing acts is_armed in ground arith
react_once disarms g = unfold disarm acts is_armed in ground arith

actions-spend : (deep : Bool) (events : List Event) → actions deep events + spend deep events ≤ 1
unfolding actions spend after_arm
actions-spend deep [] = ground arith
actions-spend deep (e ∷ events) =
    omega (arith, react_once e (after_arm deep events), actions-spend deep events)

-- Between two commits the gate acts at most once, and is disarmed by it.
pub actions_once :
    (armed_deep : Bool) (events : List Event)
    → actions armed_deep events + (if is_armed (after_arm armed_deep events).mode then 1 else 0) ≤ 1
unfolding spend
actions_once armed_deep events = actions-spend armed_deep events
