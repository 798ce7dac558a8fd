-- ===== src/Traps/Runs.antt =====
-- Frames of src/mth/features/trap_hooks.cpp, with whatever the game does in between.
use mth_apclient.Base.{◌≡◌, true, ◌||◌, List, [], ◌∷◌, arith, if◌then◌else◌, ℤ}
use mth_apclient.Traps.{
  world_advanced, drain_pending_arm, tick_traps, clear_traps, take_delta, advance_frame,
  publish_active, advance_by, retry_pending_off, lift_all, queue_arm, TrapHooks, arm_modifier,
}
use mth_apclient.Traps.Tracked.{
  assert_all-IsTracked, lift_all-IsTracked, retry_pending_off-IsTracked, advance_all-active,
  is_forced, clear_traps-IsTracked, arm_all-IsTracked, is_in-append, is_in, arm_modifier-IsTracked,
  IsTracked, IsSound,
}
use mth_apclient.Traps.Countdowns.{Game, active, ActiveTrap, advance_traps}

module _ (g : Game) where
  open g use {Seconds, World, le_zero}

  lifted-IsTracked :
      (expired : List ℤ) (kept : List (ActiveTrap g)) (h : TrapHooks g)
      → ((i : ℤ) → is_in i (active g h.state) ≡ is_in i expired || is_in i (active g kept))
      → IsTracked g [] h
      → IsTracked g [] (lift_all g expired (record h { state = kept }))
  lifted-IsTracked expired kept h split tracked =
      lift_all-IsTracked g expired [] (record h { state = kept })
        (λ i. ground (arith, split i, tracked i, is_in-append g i expired []))

  advance_traps-split :
      (i : ℤ) (dt : Seconds) (traps : List (ActiveTrap g))
      → let (expired, kept) = advance_traps g dt traps in
        is_in i (active g traps) ≡ is_in i expired || is_in i (active g kept)
  unfolding advance_traps
  advance_traps-split i dt traps = ground (arith, advance_all-active g i dt traps)

  advance_by-IsTracked :
      (dt : Seconds) (h : TrapHooks g) → IsTracked g [] h → IsTracked g [] (advance_by g dt h)
  unfolding advance_by
  advance_by-IsTracked dt h tracked =
      let (expired, kept) = advance_traps g dt h.state in
      let lifted = lift_all g expired (record h { state = kept }) in
      let held = lifted-IsTracked expired kept h (λ i. advance_traps-split i dt h.state) tracked in
      let asserted = assert_all-IsTracked g (active g lifted.state) lifted (λ i run. run) held in
      λ i. ground (arith, held i, asserted i)

  world_advanced-IsTracked :
      (h : TrapHooks g) → IsTracked g [] h → IsTracked g [] (world_advanced g h).0
  unfolding world_advanced
  world_advanced-IsTracked h tracked i = ground (arith, tracked i)

  advance_frame-IsTracked :
      (h : TrapHooks g) → IsTracked g [] h → IsTracked g [] (advance_frame g h)
  unfolding advance_frame
  advance_frame-IsTracked h tracked =
      let (after, moved) = world_advanced g h in
      let dt = if moved then take_delta g after else g.zero_seconds in
      let aged = advance_by-IsTracked dt after (world_advanced-IsTracked h tracked) in
      λ i. ground (arith, tracked i, aged i)

  tick_traps-IsTracked :
      (sound : IsSound g) (h : TrapHooks g) → IsTracked g [] h → IsTracked g [] (tick_traps g h)
  unfolding tick_traps drain_pending_arm publish_active
  tick_traps-IsTracked sound h tracked =
      let drained = drain_pending_arm g h in
      let ready = retry_pending_off g drained in
      let held : IsTracked g [] ready =
        retry_pending_off-IsTracked g drained
          (arm_all-IsTracked g sound h.pending_arm (record h { pending_arm = [] }) tracked) in
      let cleared = clear_traps-IsTracked g ready held in
      let aged = advance_frame-IsTracked ready held in
      λ i. ground (arith, held i, cleared i, aged i)

  -- What the client does to the traps, and the game between two frames.
  pub data Operation : Type 0 where
    arms queues : ℤ → Seconds → Operation
    ticks clears : Operation
    moves_on : (World → World) → Operation

  unfoldable pub perform : Operation → TrapHooks g → TrapHooks g
  perform (arms index override) h = (arm_modifier g index override h).0
  perform (queues index override) h = queue_arm g index override h
  perform ticks h = tick_traps g h
  perform clears h = clear_traps g h
  perform (moves_on f) h = record h { world = f h.world }

  unfoldable pub perform_all : List Operation → TrapHooks g → TrapHooks g
  perform_all [] h = h
  perform_all (op ∷ ops) h = perform_all ops (perform op h)

  unfoldable pub new_traps : World → TrapHooks g
  new_traps w = record {
    world = w;
    state = [];
    last_room_time = g.zero_seconds;
    pending_off = [];
    notready_warned = [];
    pending_arm = [];
    shown = [];
    writes = [];
  }

  perform-IsTracked :
      (sound : IsSound g) (op : Operation) (h : TrapHooks g)
      → IsTracked g [] h
      → IsTracked g [] (perform op h)
  unfolding perform queue_arm
  perform-IsTracked sound (arms index override) h tracked =
      arm_modifier-IsTracked g sound index override h tracked
  perform-IsTracked sound (queues index override) h tracked = tracked
  perform-IsTracked sound ticks h tracked = tick_traps-IsTracked sound h tracked
  perform-IsTracked sound clears h tracked = clear_traps-IsTracked g h tracked
  perform-IsTracked sound (moves_on f) h tracked = tracked

  perform_all-IsTracked :
      (sound : IsSound g) (ops : List Operation) (h : TrapHooks g)
      → IsTracked g [] h
      → IsTracked g [] (perform_all ops h)
  unfolding perform_all
  perform_all-IsTracked sound [] h tracked = tracked
  perform_all-IsTracked sound (op ∷ ops) h tracked =
      perform_all-IsTracked sound ops (perform op h) (perform-IsTracked sound op h tracked)

  -- Over any frames, arms, queued arms and clears from a fresh start, whichever writes the game
  -- refuses and whatever it does in between: a modifier whose last write forced it on, and that was
  -- not left to the player since, counts down or waits for its lift to be tried again. The traps of
  -- the table last for a while, and no number of seconds is at most 0 and above it.
  pub forced-tracked :
      (sound : IsSound g) (ops : List Operation) (w : World) (index : ℤ)
      → let h = perform_all ops (new_traps w) in
        is_forced index h.writes ≡ true
        → is_in index (active g h.state) || is_in index h.pending_off ≡ true
  unfolding new_traps
  forced-tracked sound ops w index forced =
      perform_all-IsTracked sound ops (new_traps w) (λ i forced. ground arith) index forced
