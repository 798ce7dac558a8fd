-- ===== src/Granter/Once.antt =====
-- The effects that a life of `InboundGranter` (src/mth/core/inbound_granter.cpp) asks for, counted by
-- receipt.
use mathlib.Core.Path.{subst}
use mth_apclient.Base.{
  ◌≤◌, ◌≡◌, sym, ◌⊎◌, inl, inr, refl, Bool, true, false, Option, none, some, List, [], ◌∷◌, arith,
  if◌then◌else◌, ℤ, Bool-cases,
}
use mth_apclient.Granter.{arm, settle_trap, start_pass, credit, tick}
use mth_apclient.Granter.Moves.{Move, crediting, by_tick, springing, spring, offering, consuming}
use mth_apclient.Granter.Receipts.{
  not_ready, armed, handled, credited, trapped, Effects, exceeded, on_applied, skipped, offer,
  TrapArm, consume, mark, unavailable, InboundGranter,
}
use mth_apclient.Granter.Logs.{
  mark-Logs, on_applied-AtMostOnce, note-Logs, Logs-AtMostOnce, offer_answered-Logs, AtMostOnce,
  times,
}
use mth_apclient.Ap.State.{ApState}

module _ {W : Type 0} (effects : Effects W) where
  credit-AtMostOnce :
      (f : Option (W → W × Bool)) (i : ℤ) (g : InboundGranter W)
      → handled g i ≡ false
      → AtMostOnce g
      → AtMostOnce (credit effects f i g).0
  unfolding credit
  credit-AtMostOnce none i g new once = once
  credit-AtMostOnce (some f) i g new once =
      let asked : InboundGranter W = record g {
        world = (f g.world).0;
        log = credited i (f g.world).1 ∷ g.log;
      } in
      elim (Bool-cases (f g.world).1) [
        | inl ok ↦ rw ok (
            Logs-AtMostOnce g (mark i (record asked { log = credited i true ∷ g.log }))
              (mark-Logs i (credited i true) g (record asked { log = credited i true ∷ g.log })
                (λ index. refl) refl refl refl new)
              once)
        | inr refused ↦ rw refused (
            Logs-AtMostOnce g (record asked { log = credited i false ∷ g.log })
              (note-Logs (credited i false) g (record asked { log = credited i false ∷ g.log })
                (λ index. refl) refl refl refl)
              once)
      ]

  settle-AtMostOnce :
      (result : TrapArm) (m i : ℤ) (w : W) (g : InboundGranter W)
      → handled g i ≡ false
      → AtMostOnce g
      → AtMostOnce
          (settle_trap effects result i
            (record g { world = w; log = trapped m i result ∷ g.log })
            start_pass).granter
  unfolding settle_trap
  settle-AtMostOnce not_ready m i w g new once =
      Logs-AtMostOnce g _
        (note-Logs (trapped m i not_ready) g
          (record g { world = w; log = trapped m i not_ready ∷ g.log }) (λ index. refl) refl refl
          refl)
        once
  settle-AtMostOnce armed m i w g new once =
      Logs-AtMostOnce g _
        (mark-Logs i (trapped m i armed) g (record g { world = w; log = trapped m i armed ∷ g.log })
          (λ index. refl) refl refl refl new)
        once
  settle-AtMostOnce unavailable m i w g new once =
      Logs-AtMostOnce g _
        (mark-Logs i (trapped m i unavailable) g
          (record g { world = w; log = trapped m i unavailable ∷ g.log }) (λ index. refl) refl refl
          refl new)
        once
  settle-AtMostOnce skipped m i w g new once =
      Logs-AtMostOnce g _
        (mark-Logs i (trapped m i skipped) g
          (record g { world = w; log = trapped m i skipped ∷ g.log }) (λ index. refl) refl refl refl
          new)
        once

  Move-AtMostOnce : (g h : InboundGranter W) → Move effects g h → AtMostOnce g → AtMostOnce h
  unfolding offer spring consume
  Move-AtMostOnce g h (offering t i new e) once =
      let (w, accepted, acked) = effects.grant t i g.world in
      subst (λ x. AtMostOnce x) (sym e)
        (Logs-AtMostOnce g _ (offer_answered-Logs t i g w accepted acked new) once)
  Move-AtMostOnce g h (crediting i new e) once =
      subst (λ x. AtMostOnce x) (sym e) (credit-AtMostOnce effects.credit_kear_key i g new once)
  Move-AtMostOnce g h (springing m i new e) once =
      let (w, result) = arm effects effects.arm_trap m g.world in
      subst (λ x. AtMostOnce x) (sym e) (settle-AtMostOnce result m i w g new once)
  Move-AtMostOnce g h (consuming i new e) once =
      subst (λ x. AtMostOnce x) (sym e)
        (Logs-AtMostOnce g _
          (mark-Logs i (exceeded i) g (record g { log = exceeded i ∷ g.log }) (λ index. refl) refl
            refl refl new)
          once)

  tick-AtMostOnce :
      (state : ApState) (g : InboundGranter W) → AtMostOnce g → AtMostOnce (tick effects state g)
  tick-AtMostOnce =
      by_tick effects AtMostOnce Move-AtMostOnce
        (λ g h save flying log once index. ground (arith, save, flying, log, once index))

  -- A life of the granter: ticks over whatever the room's state is by then, and receipts that the
  -- item granter acknowledges between them.
  pub run_granter : List (ApState ⊎ ℤ) → InboundGranter W → InboundGranter W
  run_granter [] g = g
  run_granter (inl state ∷ events) g = run_granter events (tick effects state g)
  run_granter (inr receipt ∷ events) g = run_granter events (on_applied receipt g)

  run-AtMostOnce :
      (events : List (ApState ⊎ ℤ)) (g : InboundGranter W)
      → AtMostOnce g
      → AtMostOnce (run_granter events g)
  unfolding run_granter
  run-AtMostOnce [] g once = once
  run-AtMostOnce (inl state ∷ events) g once =
      run-AtMostOnce events (tick effects state g) (tick-AtMostOnce state g once)
  run-AtMostOnce (inr receipt ∷ events) g once =
      run-AtMostOnce events (on_applied receipt g) (on_applied-AtMostOnce receipt g once)

  -- From a granter that has asked for nothing yet, whatever its save holds, no sequence of ticks and
  -- acknowledgements makes an effect go through twice for one receipt, and what went through is
  -- recorded or in flight. The effects may answer as they like, and acknowledge any receipt.
  pub receipts_once :
      (events : List (ApState ⊎ ℤ)) (g : InboundGranter W) (index : ℤ)
      → g.log ≡ []
      → times index (run_granter events g).log
        ≤ (if handled (run_granter events g) index then 1 else 0)
  unfolding times
  receipts_once events g index fresh = run-AtMostOnce events g (λ i. rw fresh (ground arith)) index
