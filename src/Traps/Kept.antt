-- ===== src/Traps/Kept.antt =====
-- Frames of src/mth/features/trap_hooks.cpp, and what runs and waits behind them.
use mth_apclient.Base.{
  ◌≡◌, ◌∙◌, refl, true, false, List, [], ◌∷◌, arith, ℤ, inl, inr, Bool-cases, if◌then◌else◌,
}
use mth_apclient.Traps.{
  write_modifier, assert_all, retry_pending_off, retry_off, retry_all, arm_modifier, arm_all,
  clear_traps, lift_all, advance_by, TrapHooks, drain_pending_arm, publish_active, world_advanced,
  take_delta, queue_arm, tick_traps, advance_frame,
}
use mth_apclient.Traps.Apart.{
  arm_modifier-IsApart, state-write_modifier, write_modifier-IsApart, NoRepeat, lift_all-IsApart,
  fewer-IsApart, IsApart, is_in-eq,
}
use mth_apclient.Traps.Tracked.{advance_all-active, is_in}
use mth_apclient.Traps.Runs.{
  arms, queues, ticks, moves_on, clears, new_traps, perform, perform_all, Operation,
}
use mth_apclient.Traps.Countdowns.{advance_all, Game, active, age_trap, advance_traps, ActiveTrap}

module _ (g : Game) where
  open g use {Seconds, World, le_zero}

  state-retry_off : (index : ℤ) (h : TrapHooks g) → (retry_off g index h).0.state ≡ h.state
  unfolding retry_off
  state-retry_off index h = ground (arith, state-write_modifier g index false h)

  -- What stays was there, and no trap is touched.
  retry_all-kept :
      (indices : List ℤ) (h : TrapHooks g)
      → let (last, kept) = retry_all g indices h in
        (last.state ≡ h.state) × ((i : ℤ) → is_in i indices ≡ false → is_in i kept ≡ false)
  unfolding retry_all
  retry_all-kept [] h = (refl, λ i out. out)
  retry_all-kept (index ∷ indices) h =
      let (after, gone) = retry_off g index h in
      let rest = retry_all-kept indices after in
      (rest.0 ∙ state-retry_off index h, λ i out. ground (arith, out, rest.1 i))

  retry_pending_off-IsApart : (h : TrapHooks g) → IsApart g h → IsApart g (retry_pending_off g h)
  unfolding retry_pending_off
  retry_pending_off-IsApart h v =
      let (after, kept) = retry_all g h.pending_off h in
      let stays = retry_all-kept h.pending_off h in
      let retried = fewer-IsApart g h (record after { pending_off = kept }) stays.0 stays.1 v in
      ground (arith, v, retried)

  arm_all-IsApart :
      (batch : List (ℤ × Seconds)) (h : TrapHooks g) → IsApart g h → IsApart g (arm_all g batch h)
  unfolding arm_all
  arm_all-IsApart [] h v = v
  arm_all-IsApart ((index, override) ∷ batch) h v =
      arm_all-IsApart batch (arm_modifier g index override h).0
        (arm_modifier-IsApart g index override h v)

  assert_all-IsApart :
      (indices : List ℤ) (h : TrapHooks g) → IsApart g h → IsApart g (assert_all g indices h)
  unfolding assert_all
  assert_all-IsApart [] h v = v
  assert_all-IsApart (index ∷ indices) h v =
      assert_all-IsApart indices (write_modifier g index true h).0
        (write_modifier-IsApart g index true h v)

  -- Of traps that are apart, those that ran out are apart from those that go on.
  advance_all-apart :
      (dt : Seconds) (traps : List (ActiveTrap g))
      → NoRepeat (active g traps)
      → let (expired, kept) = advance_all g dt traps in
        NoRepeat (active g kept)
        × ((i : ℤ) → is_in i expired ≡ true → is_in i (active g kept) ≡ false)
  unfolding advance_all active age_trap
  advance_all-apart dt [] once = (tt, λ i out. refl)
  advance_all-apart dt (t ∷ traps) (fresh, once) =
      let (expired, kept) = advance_all g dt traps in
      let rest = advance_all-apart dt traps once in
      let own = advance_all-active g t.index dt traps in
      (
        ground (arith, fresh, rest.0, own),
        λ i out. ground (
          arith,
          out,
          fresh,
          own,
          rest.1 i,
          is_in-eq i t.index expired,
          is_in-eq i t.index (active g kept),
        ),
      )

  clear_traps-IsApart : (h : TrapHooks g) → IsApart g h → IsApart g (clear_traps g h)
  unfolding clear_traps active
  clear_traps-IsApart h v =
      lift_all-IsApart g (active g h.state) (record h { notready_warned = []; state = [] })
        (λ i out. refl) (record { once = tt; apart = λ i runs. ground (arith, runs) })

  advance_traps-IsApart :
      (dt : Seconds) (h : TrapHooks g)
      → IsApart g h
      → let (expired, kept) = advance_traps g dt h.state in
        IsApart g (record h { state = kept })
        × ((i : ℤ) → is_in i expired ≡ true → is_in i (active g kept) ≡ false)
  unfolding advance_traps
  advance_traps-IsApart dt h v =
      let parts = advance_all-apart dt h.state v.once in
      let (expired, kept) = advance_all g dt h.state in
      let aged : IsApart g (record h { state = kept }) = record {
        once = parts.0;
        apart = λ i runs. v.apart i (ground (arith, runs, advance_all-active g i dt h.state));
      } in
      elim (Bool-cases (le_zero dt)) [
        | inl still ↦ ground (arith, still, v)
        | inr moves ↦ ground (arith, moves, aged, parts.1)
      ]

  advance_by-IsApart :
      (dt : Seconds) (h : TrapHooks g) → IsApart g h → IsApart g (advance_by g dt h)
  unfolding advance_by
  advance_by-IsApart dt h v =
      let (expired, kept) = advance_traps g dt h.state in
      let parts = advance_traps-IsApart dt h v in
      let lifted = lift_all g expired (record h { state = kept }) in
      let held = lift_all-IsApart g expired (record h { state = kept }) parts.1 parts.0 in
      ground (arith, held, assert_all-IsApart (active g lifted.state) lifted held)

  world_advanced-IsApart : (h : TrapHooks g) → IsApart g h → IsApart g (world_advanced g h).0
  unfolding world_advanced
  world_advanced-IsApart h v =
      let later = record h { last_room_time = g.room_time h.world } in
      ground (arith, v, fewer-IsApart g h later refl (λ i out. out) v)

  advance_frame-IsApart : (h : TrapHooks g) → IsApart g h → IsApart g (advance_frame g h)
  unfolding advance_frame
  advance_frame-IsApart h v =
      let (after, moved) = world_advanced g h in
      let dt = if moved then take_delta g after else g.zero_seconds in
      ground (arith, v, advance_by-IsApart dt after (world_advanced-IsApart h v))

  tick_traps-IsApart : (h : TrapHooks g) → IsApart g h → IsApart g (tick_traps g h)
  unfolding tick_traps drain_pending_arm publish_active
  tick_traps-IsApart h v =
      let taken = record h { pending_arm = [] } in
      let drained = drain_pending_arm g h in
      let ready = retry_pending_off g drained in
      let held : IsApart g ready =
        retry_pending_off-IsApart drained
          (arm_all-IsApart h.pending_arm taken (fewer-IsApart g h taken refl (λ i out. out) v)) in
      let cleared = clear_traps g ready in
      let aged = advance_frame g ready in
      ground (
        arith,
        fewer-IsApart g ready (record ready { shown = ready.state }) refl (λ i out. out) held,
        fewer-IsApart g cleared (record cleared { shown = cleared.state }) refl (λ i out. out)
            (clear_traps-IsApart ready held),
        fewer-IsApart g aged (record aged { shown = aged.state }) refl (λ i out. out)
            (advance_frame-IsApart ready held),
      )

  perform-IsApart : (op : Operation g) (h : TrapHooks g) → IsApart g h → IsApart g (perform g op h)
  unfolding perform queue_arm
  perform-IsApart (arms index override) h v = arm_modifier-IsApart g index override h v
  perform-IsApart (queues index override) h v =
      fewer-IsApart g h (queue_arm g index override h) refl (λ i out. out) v
  perform-IsApart ticks h v = tick_traps-IsApart h v
  perform-IsApart clears h v = clear_traps-IsApart h v
  perform-IsApart (moves_on f) h v =
      fewer-IsApart g h (record h { world = f h.world }) refl (λ i out. out) v

  perform_all-IsApart :
      (ops : List (Operation g)) (h : TrapHooks g) → IsApart g h → IsApart g (perform_all g ops h)
  unfolding perform_all
  perform_all-IsApart [] h v = v
  perform_all-IsApart (op ∷ ops) h v =
      perform_all-IsApart ops (perform g op h) (perform-IsApart op h v)

  -- Over any frames, arms, queued arms and clears from a fresh start, whichever writes the game
  -- refuses and whatever it does in between, no modifier has two countdowns, and none that counts
  -- down waits for a lift, which would turn the running trap off.
  pub running-IsApart :
      (ops : List (Operation g)) (w : World) → IsApart g (perform_all g ops (new_traps g w))
  unfolding new_traps active
  running-IsApart ops w =
      perform_all-IsApart ops (new_traps g w) (record { once = tt; apart = λ i runs. refl })
