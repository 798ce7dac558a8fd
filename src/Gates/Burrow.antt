-- ===== src/Gates/Burrow.antt =====
-- src/mth/core/burrow_boundary.hpp: `BurrowBoundaryGate`. The counters only rise, one step a tick.
pub mod Confirmed
pub mod Crossing
use mth_apclient.Base.{ℕ, suc, Bool, true, false, not, ltb, leb, if◌then◌else◌}

pub data BoundaryAction : Type 0 where
  no_action : BoundaryAction
  fall_in : BoundaryAction
  emerge : BoundaryAction

pub data Mode : Type 0 where
  unarmed : Mode
  burrow : Mode
  swim : Mode

pub record BurrowGate : Type 0 where
  pub mode : Mode
  pub last_deep : Bool
  pub confirmed : ℕ
  pub not_burrowing : ℕ

abbrev pub water_confirm_ticks : ℕ
water_confirm_ticks = 10

abbrev pub burrow_confirm_grace_ticks : ℕ
burrow_confirm_grace_ticks = 2

unfoldable pub new_burrow_gate : BurrowGate
new_burrow_gate = record { mode = unarmed; last_deep = false; confirmed = 0; not_burrowing = 0 }

unfoldable pub arm_gate : Bool → BurrowGate → BurrowGate
arm_gate deep g = record {
  mode = if deep then swim else burrow;
  last_deep = deep;
  confirmed = water_confirm_ticks;
  not_burrowing = 0;
}

unfoldable pub disarm : BurrowGate → BurrowGate
disarm g = record g { mode = unarmed }

unfoldable pub is_armed : Mode → Bool
is_armed unarmed = false
is_armed burrow = true
is_armed swim = true

unfoldable pub observe_burrowing : Bool → BurrowGate → BurrowGate
unfolding disarm
observe_burrowing burrowing g =
    if burrowing
    then record g { not_burrowing = 0 }
    else let counted = record g { not_burrowing = suc g.not_burrowing } in
      if leb burrow_confirm_grace_ticks counted.not_burrowing then disarm counted else counted

unfoldable pub reading_unavailable : BurrowGate → BurrowGate
reading_unavailable g = record g { confirmed = 0 }

-- The arguments of `observe`.
pub record Reading : Type 0 where
  pub deep : Bool
  pub burrow_blocked : Bool
  pub swim_blocked : Bool

abbrev pub eqb_bool : Bool → Bool → Bool
eqb_bool true b = b
eqb_bool false b = not b

-- The confirmation of a reading.
unfoldable pub confirm : Bool → BurrowGate → BurrowGate
confirm deep g =
    if not (eqb_bool deep g.last_deep)
    then record g { last_deep = deep; confirmed = 1 }
    else if ltb g.confirmed water_confirm_ticks
    then record g { confirmed = suc g.confirmed }
    else g

-- The crossing of an armed gate whose reading is confirmed.
unfoldable pub cross : Mode → Reading → BurrowGate → BurrowGate × BoundaryAction
cross unarmed r g = (g, no_action)
cross burrow r g =
    if r.deep
    then (if r.swim_blocked
        then (record g { mode = unarmed }, fall_in)
        else (record g { mode = swim }, no_action))
    else (g, no_action)
cross swim r g =
    if not r.deep
    then (if r.burrow_blocked
        then (record g { mode = unarmed }, emerge)
        else (record g { mode = burrow }, no_action))
    else (g, no_action)

unfoldable pub observe_water : Reading → BurrowGate → BurrowGate × BoundaryAction
unfolding is_armed confirm cross
observe_water r g =
    if not (is_armed g.mode)
    then (g, no_action)
    else let h = confirm r.deep g in
      if ltb h.confirmed water_confirm_ticks then (h, no_action) else cross h.mode r h
