-- ===== src/Traps/Apart.antt =====
-- That src/mth/features/trap_hooks.cpp never waits to lift a modifier whose trap is running.
use mathlib.Core.Bool.{true≢false}
use mth_apclient.Base.{
  ◌≡◌, ap, sym, refl, true, false, List, [], ◌∷◌, arith, ℤ, eqb_ℤ, eqb_ℤ_iff, ◌∙◌, inl, inr, Bool,
  Bool-cases, Option-cases, ◌++◌,
}
use mth_apclient.Traps.{
  arm_modifier, arm_listed, arm_written, write_modifier, lift, warn_not_ready, lift_all, TrapHooks,
}
use mth_apclient.Traps.Tracked.{is_in, is_in-extend, is_in-erase, is_in-append}
use mth_apclient.Traps.Countdowns.{erase, Game, extend, arm_state, active, ActiveTrap}

abbrev pub NoRepeat : List ℤ → Type 0
NoRepeat [] = Unit {0}
NoRepeat (i ∷ is) = (is_in i is ≡ false) × NoRepeat is

is_in-erase_self : (index : ℤ) (is : List ℤ) → is_in index (erase index is) ≡ false
unfolding erase
is_in-erase_self index [] = refl
is_in-erase_self index (i ∷ is) = ground (arith, is_in-erase_self index is)

pub is_in-eq : (i index : ℤ) (is : List ℤ) → eqb_ℤ index i ≡ true → is_in i is ≡ is_in index is
is_in-eq i index is same = ap (λ j. is_in j is) (sym ((eqb_ℤ_iff index i).0 same))

module _ (g : Game) where
  open g use {Seconds, World, le_zero}

  -- No modifier runs twice, and none runs and waits for its lift.
  pub record IsApart (h : TrapHooks g) : Type 0 where
    pub once : NoRepeat (active g h.state)
    pub apart : (i : ℤ) → is_in i (active g h.state) ≡ true → is_in i h.pending_off ≡ false

  -- A change of other fields, and of fewer waiting lifts.
  pub fewer-IsApart :
      (h k : TrapHooks g)
      → k.state ≡ h.state
      → ((i : ℤ) → is_in i h.pending_off ≡ false → is_in i k.pending_off ≡ false)
      → IsApart h
      → IsApart k
  fewer-IsApart h k same fewer v = record {
    once = rw same v.once;
    apart = λ i runs. fewer i (v.apart i (rw same at runs));
  }

  NoRepeat-extend :
      (index : ℤ) (seconds : Seconds) (traps : List (ActiveTrap g))
      → NoRepeat (active g traps)
      → NoRepeat (active g (extend g index seconds traps))
  unfolding extend active
  NoRepeat-extend index seconds [] once = (refl, tt)
  NoRepeat-extend index seconds (t ∷ traps) (fresh, once) =
      let rest = NoRepeat-extend index seconds traps once in
      ground (arith, fresh, once, rest, is_in-extend g t.index index seconds traps)

  arm_written-IsApart :
      (index : ℤ) (seconds : Seconds) (h : TrapHooks g)
      → IsApart h
      → IsApart (arm_written g index seconds h)
  unfolding arm_written arm_state
  arm_written-IsApart index seconds h v = record {
    once = ground (arith, v.once, NoRepeat-extend index seconds h.state v.once);
    apart = λ i runs. elim (Bool-cases (eqb_ℤ index i)) [
      | inl same ↦
          is_in-eq i index (erase index h.pending_off) same ∙ is_in-erase_self index h.pending_off
      | inr other ↦
          is_in-erase g i index h.pending_off other
          ∙ v.apart i (ground (arith, runs, other, is_in-extend g i index seconds h.state))
    ];
  }

  -- A write leaves the lists alone.
  pub write_modifier-IsApart :
      (index : ℤ) (on : Bool) (h : TrapHooks g)
      → IsApart h
      → IsApart (write_modifier g index on h).0
  unfolding write_modifier
  write_modifier-IsApart index on h v =
      fewer-IsApart h (write_modifier g index on h).0 (ground arith) (λ i out. ground (arith, out))
        v

  warn_not_ready-IsApart :
      (index : ℤ) (h : TrapHooks g) → IsApart h → IsApart (warn_not_ready g index h)
  unfolding warn_not_ready
  warn_not_ready-IsApart index h v =
      fewer-IsApart h (warn_not_ready g index h) refl (λ i out. out) v

  arm_listed-IsApart :
      (index : ℤ) (default override : Seconds) (h : TrapHooks g)
      → IsApart h
      → IsApart (arm_listed g index default override h).0
  unfolding arm_listed
  arm_listed-IsApart index default override h v =
      let after = (write_modifier g index true h).0 in
      let written = write_modifier-IsApart index true h v in
      ground (
        arith,
        v,
        warn_not_ready-IsApart index h v,
        warn_not_ready-IsApart index after written,
        arm_written-IsApart index default after written,
        arm_written-IsApart index override after written,
      )

  pub arm_modifier-IsApart :
      (index : ℤ) (override : Seconds) (h : TrapHooks g)
      → IsApart h
      → IsApart (arm_modifier g index override h).0
  unfolding arm_modifier
  arm_modifier-IsApart index override h v = elim (Option-cases (g.trap_seconds index)) [
    | inl e ↦ ground (arith, e, v)
    | inr (default, e) ↦ ground (arith, e, arm_listed-IsApart index default override h v)
  ]

  wait-IsApart :
      (index : ℤ) (h : TrapHooks g)
      → is_in index (active g h.state) ≡ false
      → IsApart h
      → IsApart (record h { pending_off = h.pending_off ++ index ∷ [] })
  wait-IsApart index h still v = record {
    once = v.once;
    apart = λ i runs. elim (Bool-cases (eqb_ℤ index i)) [
      | inl same ↦ absurd (true≢false (sym runs ∙ is_in-eq i index (active g h.state) same ∙ still))
      | inr other ↦
          ground (arith, other, v.apart i runs, is_in-append g i h.pending_off (index ∷ []))
    ];
  }

  pub state-write_modifier :
      (index : ℤ) (on : Bool) (h : TrapHooks g) → (write_modifier g index on h).0.state ≡ h.state
  unfolding write_modifier
  state-write_modifier index on h = ground arith

  lift-IsApart :
      (index : ℤ) (h : TrapHooks g)
      → is_in index (active g h.state) ≡ false
      → IsApart h
      → IsApart (lift g index h) × ((lift g index h).state ≡ h.state)
  unfolding lift
  lift-IsApart index h still v =
      let after = (write_modifier g index false h).0 in
      let written = write_modifier-IsApart index false h v in
      let same = state-write_modifier index false h in
      let waits = wait-IsApart index after (rw same still) written in
      (ground (arith, written, waits), ground (arith, same))

  -- Lifting modifiers that do not run.
  pub lift_all-IsApart :
      (indices : List ℤ) (h : TrapHooks g)
      → ((i : ℤ) → is_in i indices ≡ true → is_in i (active g h.state) ≡ false)
      → IsApart h
      → IsApart (lift_all g indices h)
  unfolding lift_all
  lift_all-IsApart [] h still v = v
  lift_all-IsApart (index ∷ indices) h still v =
      let lifted = lift-IsApart index h (still index (ground arith)) v in
      lift_all-IsApart indices (lift g index h)
        (λ i out. rw lifted.1 (still i (ground (arith, out)))) lifted.0
