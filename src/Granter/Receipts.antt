-- ===== src/Granter/Receipts.antt =====
-- src/mth/core/inbound_granter.hpp and inbound_granter.cpp: the state of `InboundGranter`, and how a
-- receipt is offered, acknowledged and recorded. What the application injects is the parameter
-- `Effects`: the item granter of src/mth/core/item_granter_interface.hpp, the kear effect and the
-- trap effect, over a world `W` of theirs. A grant answers whether it took the item, and with which
-- receipts it called the applied sink before it returned; the sink may also be called later, which
-- is `on_applied`. `log` is a ghost: the effects that were asked for, newest first. Tick counters are
-- `int`s that rise by one each tick and are taken not to wrap.
use mth_apclient.Base.IntSet
use mth_apclient.Base.{ℕ, suc, Bool, true, false, ◌||◌, Option, List, [], ◌∷◌, if◌then◌else◌, ℤ}
use mth_apclient.Ids.Progressive.{WeaponTally}
use mth_apclient.Ap.SaveState.{mark_granted, stage, ApSaveState, is_granted}

pub data TrapArm : Type 0 where
  armed not_ready unavailable skipped : TrapArm

pub record Effects (W : Type 0) : Type 0 where
  pub grant : ℤ → ℤ → W → W × Bool × List ℤ
  pub credit_kear_key : Option (W → W × Bool)
  pub arm_trap : Option (ℤ → W → W × TrapArm)

pub data Effect : Type 0 where
  offered : ℤ → ℤ → Bool → Effect
  credited : ℤ → Bool → Effect
  trapped : ℤ → ℤ → TrapArm → Effect
  exceeded : ℤ → Effect

pub record InboundGranter (W : Type 0) : Type 0 where
  pub world : W
  pub save : ApSaveState
  pub in_flight : List ℤ
  pub last_handled : ℤ
  pub last_ungrantable : ℤ
  pub last_in_flight : ℤ
  pub stuck_ticks : ℕ
  pub stuck_warned : Bool
  pub trap_notready_ticks : ℕ
  pub trap_notready_warned : Bool
  pub log : List Effect

-- The locals of `tick`.
pub record Pass : Type 0 where
  pub weapon_tally : WeaponTally
  pub fishing_tier : ℕ
  pub map_tier : ℕ
  pub trap_stalled : Bool
  pub n_handled : ℕ
  pub n_ungrantable : ℕ

-- What a round of the loop leaves; `goes_on` is false behind `break`.
pub record Turn (W : Type 0) : Type 0 where
  pub granter : InboundGranter W
  pub pass : Pass
  pub goes_on : Bool

abbrev pub stuck_tick_warn : ℕ
stuck_tick_warn = 600

abbrev pub count_handled : Pass → Pass
count_handled p = record p { n_handled = suc p.n_handled }

module _ {W : Type 0} where
  unfoldable pub mark : ℤ → InboundGranter W → InboundGranter W
  mark receipt g = record g { save = stage (mark_granted receipt g.save) }

  unfoldable pub on_applied : ℤ → InboundGranter W → InboundGranter W
  unfolding mark
  on_applied receipt g = mark receipt (record g { in_flight = IntSet.remove receipt g.in_flight })

  unfoldable pub acknowledge : List ℤ → InboundGranter W → InboundGranter W
  acknowledge [] g = g
  acknowledge (receipt ∷ receipts) g = acknowledge receipts (on_applied receipt g)

  abbrev pub handled : InboundGranter W → ℤ → Bool
  handled g index = is_granted g.save index || IntSet.contains g.in_flight index

  abbrev pub continue : InboundGranter W → Pass → Turn W
  continue g p = record { granter = g; pass = p; goes_on = true }

  abbrev pub break : InboundGranter W → Pass → Turn W
  break g p = record { granter = g; pass = p; goes_on = false }

  -- A tier beyond the top one is recorded, so that it is not retried.
  unfoldable pub consume : ℤ → InboundGranter W → InboundGranter W
  unfolding mark
  consume index g = mark index (record g { log = exceeded index ∷ g.log })

  -- `offer` behind the insertion and the call: what the call answered is the last argument.
  unfoldable pub offer_answered :
      ℤ → ℤ → InboundGranter W → W × Bool × List ℤ → InboundGranter W × Bool
  offer_answered game_type index g (w, accepted, acked) =
      let asked = record g {
        world = w;
        in_flight = IntSet.insert index g.in_flight;
        log = offered game_type index accepted ∷ g.log;
      } in
      let told = acknowledge acked asked in
      if accepted
      then (told, true)
      else (record told { in_flight = IntSet.remove index told.in_flight }, false)

module _ {W : Type 0} (effects : Effects W) where
  unfoldable pub offer : ℤ → ℤ → InboundGranter W → InboundGranter W × Bool
  unfolding offer_answered
  offer game_type index g = offer_answered game_type index g (effects.grant game_type index g.world)

  unfoldable pub offer_turn : ℤ → ℤ → InboundGranter W → Pass → Turn W
  offer_turn game_type index g p =
      let (g', accepted) = offer game_type index g in if accepted then continue g' p else break g' p
