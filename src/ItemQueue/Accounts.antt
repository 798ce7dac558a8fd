-- ===== src/ItemQueue/Accounts.antt =====
-- The receipts that go through the queue of src/mth/features/item_granter.cpp.
use mathlib.Core.Path.{subst}
use mth_apclient.Base.{
  List, ℕ, ◌+◌, ◌≡◌, inl, inr, refl, false, [], ◌∷◌, ◌++◌, arith, if◌then◌else◌, ℤ, eqb_ℤ,
  Bool-cases, sym, Bool, true, ◌&&◌, ◌||◌, not, pos, leb_ℤ, eqb_ℤ_iff, All,
}
use mth_apclient.ItemQueue.{
  picked_up, give_all, PendingGrant, applied, grant, no_receipt, discard_pending, drain_pending,
  Scene, notify_applied, Effect,
}
use mth_apclient.Ids.Vanilla.{is_valid_item_type}

pub data Step : Type 0 where
  granting : Scene → ℤ → ℤ → Step
  draining : Scene → Step
  discarding : Step

-- A receipt's tally: how often it was accepted, reported as applied, and dropped.
pub record Tally : Type 0 where
  pub accepted : ℕ
  pub reported : ℕ
  pub dropped : ℕ

abbrev pub is_receipt : ℤ → ℤ → ℕ
is_receipt r receipt = if eqb_ℤ r receipt then 1 else 0

abbrev pub waiting : ℤ → List PendingGrant → ℕ
waiting r [] = 0
waiting r (p ∷ queued) = is_receipt r p.receipt + waiting r queued

abbrev pub reports : ℤ → List Effect → ℕ
reports r [] = 0
reports r (picked_up item ∷ effects) = reports r effects
reports r (applied receipt ∷ effects) = is_receipt r receipt + reports r effects

abbrev pub tally_step : ℤ → Step → List PendingGrant × Tally → List PendingGrant × Tally
tally_step r (granting scene item receipt) (queued, t) =
    let (ok, next, effects) = grant scene item receipt queued in
    (
      next,
      record t {
        accepted = t.accepted + (if ok then is_receipt r receipt else 0);
        reported = t.reported + reports r effects;
      },
    )
tally_step r (draining scene) (queued, t) =
    let (next, effects) = drain_pending scene queued in
    (next, record t { reported = t.reported + reports r effects })
tally_step r discarding (queued, t) =
    (discard_pending queued, record t { dropped = t.dropped + waiting r queued })

abbrev pub tally_steps : ℤ → List Step → List PendingGrant × Tally → List PendingGrant × Tally
tally_steps r [] state = state
tally_steps r (step ∷ steps) state = tally_steps r steps (tally_step r step state)

abbrev pub IsBalanced : ℤ → List PendingGrant × Tally → Type 0
IsBalanced r (queued, t) = t.accepted ≡ t.reported + waiting r queued + t.dropped

waiting-append :
    (r : ℤ) (xs ys : List PendingGrant) → waiting r (xs ++ ys) ≡ waiting r xs + waiting r ys
waiting-append r [] ys = omega arith
waiting-append r (x ∷ xs) ys = omega (arith, waiting-append r xs ys)

reports-append : (r : ℤ) (xs ys : List Effect) → reports r (xs ++ ys) ≡ reports r xs + reports r ys
reports-append r [] ys = omega arith
reports-append r (picked_up item ∷ xs) ys = reports-append r xs ys
reports-append r (applied receipt ∷ xs) ys = omega (arith, reports-append r xs ys)

-- The steps in which a sink is installed for the receipts that they report.
abbrev pub HasSink : Step → Type 0
HasSink (granting scene item receipt) = scene.has_sink ≡ true
HasSink (draining scene) = scene.has_sink ≡ true
HasSink discarding = Unit

abbrev told : ℤ → Bool → List Effect
told x b = if not b && true then applied x ∷ [] else []

module _ (r : ℤ) (real : eqb_ℤ r no_receipt ≡ false) where
  reports-notify :
      (scene : Scene) (receipt : ℤ)
      → scene.has_sink ≡ true
      → reports r (notify_applied scene receipt) ≡ is_receipt r receipt
  unfolding notify_applied
  reports-notify scene receipt sink = rw sink (elim (Bool-cases (eqb_ℤ receipt no_receipt)) [
    | inl e ↦
        subst (λ x. reports r (told x (eqb_ℤ x no_receipt)) ≡ is_receipt r x)
          (sym ((eqb_ℤ_iff receipt no_receipt).0 e)) (sym (rw real refl))
    | inr e ↦ only receipt (eqb_ℤ receipt no_receipt) e
  ])
    where
      only : (x : ℤ) (b : Bool) → b ≡ false → reports r (told x b) ≡ is_receipt r x
      only x true e = ground arith
      only x false e = omega arith

  reports-give_all :
      (scene : Scene) (batch : List PendingGrant)
      → scene.has_sink ≡ true
      → reports r (give_all scene batch) ≡ waiting r batch
  unfolding give_all
  reports-give_all scene [] sink = refl
  reports-give_all scene (p ∷ batch) sink = omega (
    arith,
    reports-append r (notify_applied scene p.receipt) (give_all scene batch),
    reports-notify scene p.receipt sink,
    reports-give_all scene batch sink,
  )

  abbrev after_grant :
      ℤ → Tally → Bool × List PendingGrant × List Effect → List PendingGrant × Tally
  after_grant receipt t (ok, next, effects) = (
    next,
    record t {
      accepted = t.accepted + (if ok then is_receipt r receipt else 0);
      reported = t.reported + reports r effects;
    },
  )

  granted :
      (a b c : Bool) (scene : Scene) (item receipt : ℤ) (queued : List PendingGrant) (t : Tally)
      → scene.has_sink ≡ true
      → IsBalanced r (queued, t)
      → IsBalanced r (
          after_grant receipt t (
            if a
            then (false, queued, [])
            else if b
            then (true, queued, notify_applied scene receipt)
            else if c
            then (true, queued, notify_applied scene receipt)
            else (true, queued ++ record { item_type = item; receipt = receipt } ∷ [], [])))
  granted true b c scene item receipt queued t sink h = omega (arith, h)
  granted false true c scene item receipt queued t sink h =
      omega (arith, h, reports-notify scene receipt sink)
  granted false false true scene item receipt queued t sink h =
      omega (arith, h, reports-notify scene receipt sink)
  granted false false false scene item receipt queued t sink h =
      omega
        (arith, h, waiting-append r queued (record { item_type = item; receipt = receipt } ∷ []))

  abbrev after_drain : Tally → List PendingGrant × List Effect → List PendingGrant × Tally
  after_drain t (next, effects) = (next, record t { reported = t.reported + reports r effects })

  drained :
      (a : Bool) (scene : Scene) (queued : List PendingGrant) (t : Tally)
      → scene.has_sink ≡ true
      → IsBalanced r (queued, t)
      → IsBalanced r (after_drain t (if a then (queued, []) else ([], give_all scene queued)))
  drained true scene queued t sink h = omega (arith, h)
  drained false scene queued t sink h = omega (arith, h, reports-give_all scene queued sink)

  tally_step-IsBalanced :
      (step : Step) (queued : List PendingGrant) (t : Tally)
      → HasSink step
      → IsBalanced r (queued, t)
      → IsBalanced r (tally_step r step (queued, t))
  unfolding grant drain_pending
  tally_step-IsBalanced (granting scene item receipt) queued t sink h =
      granted (not scene.callable || not scene.has_player) (leb_ℤ item (pos 0))
        (not (is_valid_item_type item)) scene item receipt queued t sink h
  tally_step-IsBalanced (draining scene) queued t sink h =
      drained (not (scene.callable && (scene.has_player && scene.has_position))) scene queued t sink
        h
  tally_step-IsBalanced discarding queued t sink h = omega (arith, h)

abbrev pub no_tally : Tally
no_tally = record { accepted = 0; reported = 0; dropped = 0 }

tally_steps_from :
    (r : ℤ) (real : eqb_ℤ r no_receipt ≡ false) (steps : List Step) (queued : List PendingGrant)
    (t : Tally)
    → All HasSink steps
    → IsBalanced r (queued, t)
    → IsBalanced r (tally_steps r steps (queued, t))
tally_steps_from r real [] queued t sinks h = h
tally_steps_from r real (step ∷ steps) queued t (sink, sinks) h =
    let (next, u) = tally_step r step (queued, t) in
    tally_steps_from r real steps next u sinks (tally_step-IsBalanced r real step queued t sink h)

-- However grants, drains and session changes follow on each other from an empty queue, a receipt has
-- been accepted as often as it was reported applied, is still queued, and was dropped at a session
-- change, in sum. The receipt is not the one that stands for none, and a sink for applied receipts is
-- installed whenever an item is granted or the queue drained.
pub tally_steps-IsBalanced :
    (r : ℤ) (steps : List Step)
    → eqb_ℤ r no_receipt ≡ false
    → All HasSink steps
    → IsBalanced r (tally_steps r steps ([], no_tally))
tally_steps-IsBalanced r steps real sinks =
    tally_steps_from r real steps [] no_tally sinks (omega arith)
