-- ===== src/Traps/Tracked.antt =====
-- That src/mth/features/trap_hooks.cpp loses track of no modifier that it forced on.
use mth_apclient.Base.{
  ◌≡◌, refl, Bool, true, false, ◌||◌, some, List, [], ◌∷◌, ◌++◌, arith, if◌then◌else◌, ℤ, eqb_ℤ,
  inl, inr, Option-cases,
}
use mth_apclient.Traps.{
  arm_listed, lift_all, clear_traps, write_modifier, lift, arm_written, TrapHooks, warn_not_ready,
  arm_all, retry_off, retry_pending_off, assert_all, retry_all, arm_modifier,
}
use mth_apclient.ItemQueue.Accounts.{waiting}
use mth_apclient.Traps.Countdowns.{
  active, yielded, erase, Write, wrote, Game, arm_state, extend, ActiveTrap, advance_all, age_trap,
}

-- Whether the last that became of a modifier is that it was forced on.
abbrev pub is_forced : ℤ → List Write → Bool
is_forced index [] = false
is_forced index (wrote i on ∷ writes) = if eqb_ℤ i index then on else is_forced index writes
is_forced index (yielded i ∷ writes) = if eqb_ℤ i index then false else is_forced index writes

abbrev pub is_in : ℤ → List ℤ → Bool
is_in index [] = false
is_in index (i ∷ is) = eqb_ℤ i index || is_in index is

module _ (g : Game) where
  open g use {Seconds, World, le_zero, gt_zero, set_modifier, trap_seconds}

  -- Every trap of the table lasts for a while, and no number is both at most 0 and above it.
  pub record IsSound : Type 0 where
    pub lasting :
        (index : ℤ) {seconds : Seconds}
        → trap_seconds index ≡ some seconds
        → le_zero seconds ≡ false
    pub ordered : (s : Seconds) → gt_zero s ≡ true → le_zero s ≡ false

  -- A modifier that is forced on counts down, or waits to be lifted. `extra` wait besides.
  abbrev pub Tracks : List ℤ → TrapHooks g → ℤ → Type 0
  Tracks extra h index =
      is_forced index h.writes ≡ true
      → is_in index extra || (is_in index (active g h.state) || is_in index h.pending_off) ≡ true

  abbrev pub IsTracked : List ℤ → TrapHooks g → Type 0
  IsTracked extra h = (index : ℤ) → Tracks extra h index

  pub is_in-extend :
      (i index : ℤ) (seconds : Seconds) (traps : List (ActiveTrap g))
      → is_in i (active g (extend g index seconds traps))
        ≡ eqb_ℤ index i || is_in i (active g traps)
  unfolding extend active
  is_in-extend i index seconds [] = refl
  is_in-extend i index seconds (t ∷ traps) = ground (arith, is_in-extend i index seconds traps)

  pub is_in-erase :
      (i index : ℤ) (is : List ℤ) → eqb_ℤ index i ≡ false → is_in i (erase index is) ≡ is_in i is
  unfolding erase
  is_in-erase i index [] other = refl
  is_in-erase i index (j ∷ is) other = ground (arith, is_in-erase i index is other)

  pub is_in-append : (i : ℤ) (xs ys : List ℤ) → is_in i (xs ++ ys) ≡ is_in i xs || is_in i ys
  is_in-append i [] ys = refl
  is_in-append i (x ∷ xs) ys = ground (arith, is_in-append i xs ys)

  lift-IsTracked :
      (index : ℤ) (extra : List ℤ) (h : TrapHooks g)
      → IsTracked (index ∷ extra) h
      → IsTracked extra (lift g index h)
  unfolding lift write_modifier
  lift-IsTracked index extra h tracked i =
      ground (arith, tracked i, is_in-append i h.pending_off (index ∷ []))

  pub lift_all-IsTracked :
      (indices extra : List ℤ) (h : TrapHooks g)
      → IsTracked (indices ++ extra) h
      → IsTracked extra (lift_all g indices h)
  unfolding lift_all
  lift_all-IsTracked [] extra h tracked = tracked
  lift_all-IsTracked (index ∷ indices) extra h tracked =
      lift_all-IsTracked indices extra (lift g index h)
        (lift-IsTracked index (indices ++ extra) h tracked)

  pub clear_traps-IsTracked : (h : TrapHooks g) → IsTracked [] h → IsTracked [] (clear_traps g h)
  unfolding clear_traps active
  clear_traps-IsTracked h tracked =
      lift_all-IsTracked (active g h.state) [] (record h { notready_warned = []; state = [] })
        (λ i. ground (arith, tracked i, is_in-append i (active g h.state) []))

  arm_listed-IsTracked :
      (sound : IsSound) (index : ℤ) (default override : Seconds) (h : TrapHooks g)
      → trap_seconds index ≡ some default
      → IsTracked [] h
      → IsTracked [] (arm_listed g index default override h).0
  unfolding arm_listed write_modifier warn_not_ready arm_written arm_state
  arm_listed-IsTracked sound index default override h e tracked i = ground (
    arith,
    tracked i,
    is_in-extend i index override h.state,
    is_in-extend i index default h.state,
    is_in-erase i index h.pending_off,
    sound.lasting index e,
    sound.ordered override,
  )

  pub arm_modifier-IsTracked :
      (sound : IsSound) (index : ℤ) (override : Seconds) (h : TrapHooks g)
      → IsTracked [] h
      → IsTracked [] (arm_modifier g index override h).0
  unfolding arm_modifier
  arm_modifier-IsTracked sound index override h tracked = elim (Option-cases (trap_seconds index)) [
    | inl e ↦ λ i. ground (arith, e, tracked i)
    | inr (default, e) ↦
        λ i. ground (arith, e, arm_listed-IsTracked sound index default override h e tracked i)
  ]

  pub arm_all-IsTracked :
      (sound : IsSound) (batch : List (ℤ × Seconds)) (h : TrapHooks g)
      → IsTracked [] h
      → IsTracked [] (arm_all g batch h)
  unfolding arm_all
  arm_all-IsTracked sound [] h tracked = tracked
  arm_all-IsTracked sound ((index, override) ∷ batch) h tracked =
      arm_all-IsTracked sound batch (arm_modifier g index override h).0
        (arm_modifier-IsTracked sound index override h tracked)

  -- The same with what still waits in two parts, in place of the list of the object.
  abbrev Covered : List ℤ → List ℤ → TrapHooks g → Type 0
  Covered waiting kept h =
      (i : ℤ)
      → is_forced i h.writes ≡ true
      → is_in i (active g h.state) || (is_in i waiting || is_in i kept) ≡ true

  retry_off-Covered :
      (index : ℤ) (waiting kept : List ℤ) (h : TrapHooks g)
      → Covered (index ∷ waiting) kept h
      → let (after, gone) = retry_off g index h in
        Covered waiting (if gone then kept else index ∷ kept) after
  unfolding retry_off write_modifier
  retry_off-Covered index waiting kept h covered i = ground (arith, covered i)

  retry_all-Covered :
      (indices kept : List ℤ) (h : TrapHooks g)
      → Covered indices kept h
      → let (last, stay) = retry_all g indices h in Covered stay kept last
  unfolding retry_all
  retry_all-Covered [] kept h covered = covered
  retry_all-Covered (index ∷ indices) kept h covered =
      let (after, gone) = retry_off g index h in
      let rest = if gone then kept else index ∷ kept in
      let done =
        retry_all-Covered indices rest after (retry_off-Covered index indices kept h covered) in
      λ i. ground (arith, done i)

  pub retry_pending_off-IsTracked :
      (h : TrapHooks g) → IsTracked [] h → IsTracked [] (retry_pending_off g h)
  unfolding retry_pending_off
  retry_pending_off-IsTracked h tracked =
      let covered = retry_all-Covered h.pending_off [] h (λ i. ground (arith, tracked i)) in
      λ i. ground (arith, tracked i, covered i)

  pub assert_all-IsTracked :
      (indices : List ℤ) (h : TrapHooks g)
      → ((i : ℤ) → is_in i indices ≡ true → is_in i (active g h.state) ≡ true)
      → IsTracked [] h
      → IsTracked [] (assert_all g indices h)
  unfolding assert_all write_modifier
  assert_all-IsTracked [] h run tracked = tracked
  assert_all-IsTracked (index ∷ indices) h run tracked =
      assert_all-IsTracked indices (write_modifier g index true h).0 (λ i. ground (arith, run i))
        (λ i. ground (arith, run i, tracked i))

  pub advance_all-active :
      (i : ℤ) (dt : Seconds) (traps : List (ActiveTrap g))
      → let (expired, kept) = advance_all g dt traps in
        is_in i (active g traps) ≡ is_in i expired || is_in i (active g kept)
  unfolding advance_all active age_trap
  advance_all-active i dt [] = refl
  advance_all-active i dt (t ∷ traps) = ground (arith, advance_all-active i dt traps)
