-- ===== src/Traps.antt =====
-- src/mth/features/trap_hooks.cpp: `TrapHooks`, which forces modifiers on for a while, over the
-- countdowns of src/mth/core/trap_state.cpp. The game and its platform calls are the parameter `Game`: its
-- world, the refusals of a write, the clocks, and the arithmetic of its seconds (`float`). Texts of
-- the log and of the status are left out. `writes` is a ghost: what became of the modifiers, newest
-- first.
pub mod Tracked
pub mod Countdowns
pub mod Runs
pub mod Apart
pub mod Kept
use mth_apclient.Base.IntSet
use mth_apclient.Granter.Receipts.{TrapArm, armed, not_ready, unavailable, skipped}
use mth_apclient.Base.{
  Bool, true, false, ◌&&◌, not, none, some, List, [], ◌∷◌, ◌++◌, if◌then◌else◌, ℤ,
}
use mth_apclient.Traps.Countdowns.{
  Game, ActiveTrap, arm_state, active, advance_traps, is_gameplay_game_state, Write, wrote, yielded,
  erase,
}

module _ (g : Game) where
  open g use {Seconds, World}

  pub record TrapHooks : Type 0 where
    pub world : World
    pub state : List (ActiveTrap g)
    pub last_room_time : Seconds
    pub pending_off : List ℤ
    pub notready_warned : List ℤ
    pub pending_arm : List (ℤ × Seconds)
    pub shown : List (ActiveTrap g)
    pub writes : List Write

module _ (g : Game) where
  open g use {Seconds, World, le_zero, gt_zero, set_modifier, is_cheat_applied, trap_seconds}

  -- A write, with its answer.
  unfoldable pub write_modifier : ℤ → Bool → TrapHooks g → TrapHooks g × Bool
  write_modifier index on h =
      let (world, done) = set_modifier index on h.world in
      let after = record h { world = world } in
      if done then (record after { writes = wrote index on ∷ h.writes }, true) else (after, false)

  unfoldable pub warn_not_ready : ℤ → TrapHooks g → TrapHooks g
  warn_not_ready index h = record h { notready_warned = IntSet.insert index h.notready_warned }

  -- The branch of `arm` whose write went through.
  unfoldable pub arm_written : ℤ → Seconds → TrapHooks g → TrapHooks g
  unfolding arm_state erase
  arm_written index seconds h = record h {
    notready_warned = IntSet.remove index h.notready_warned;
    pending_off = erase index h.pending_off;
    state = arm_state g index seconds h.state;
  }

  unfoldable pub arm_listed : ℤ → Seconds → Seconds → TrapHooks g → TrapHooks g × TrapArm
  unfolding write_modifier warn_not_ready arm_written
  arm_listed index default override h =
      if not (g.modifiers_available h.world)
      then (h, unavailable)
      else if not (is_gameplay_game_state g (g.game_state h.world))
      then (warn_not_ready index h, not_ready)
      else if not (g.modifier_ready h.world)
      then (warn_not_ready index h, not_ready)
      else if is_cheat_applied index h.world
      then (h, skipped)
      else let (after, done) = write_modifier index true h in
        let seconds = if gt_zero override then override else default in
        if done
        then (arm_written index seconds after, armed)
        else (warn_not_ready index after, not_ready)

  unfoldable pub arm_modifier : ℤ → Seconds → TrapHooks g → TrapHooks g × TrapArm
  unfolding arm_listed
  arm_modifier index override h = elim (trap_seconds index) [
    | none ↦ (h, unavailable)
    | some default ↦ arm_listed index default override h
  ]

  unfoldable pub queue_arm : ℤ → Seconds → TrapHooks g → TrapHooks g
  queue_arm index override h = record h { pending_arm = h.pending_arm ++ (index, override) ∷ [] }

  unfoldable pub arm_all : List (ℤ × Seconds) → TrapHooks g → TrapHooks g
  unfolding arm_modifier
  arm_all [] h = h
  arm_all ((index, override) ∷ batch) h = arm_all batch (arm_modifier index override h).0

  unfoldable pub drain_pending_arm : TrapHooks g → TrapHooks g
  unfolding arm_all
  drain_pending_arm h = arm_all h.pending_arm (record h { pending_arm = [] })

  -- Lifts that the game refuses go behind the others that wait.
  unfoldable pub lift : ℤ → TrapHooks g → TrapHooks g
  unfolding write_modifier
  lift index h =
      let (after, done) = write_modifier index false h in
      if done then after else record after { pending_off = after.pending_off ++ index ∷ [] }

  unfoldable pub lift_all : List ℤ → TrapHooks g → TrapHooks g
  unfolding lift
  lift_all [] h = h
  lift_all (index ∷ indices) h = lift_all indices (lift index h)

  unfoldable pub clear_traps : TrapHooks g → TrapHooks g
  unfolding lift_all active
  clear_traps h = lift_all (active g h.state) (record h { notready_warned = []; state = [] })

  -- The predicate of `retry_pending_off`; true erases the index.
  unfoldable pub retry_off : ℤ → TrapHooks g → TrapHooks g × Bool
  unfolding write_modifier
  retry_off index h =
      if is_cheat_applied index h.world
      then (record h { writes = yielded index ∷ h.writes }, true)
      else write_modifier index false h

  -- `std::erase_if`: the indices that stay, in order.
  unfoldable pub retry_all : List ℤ → TrapHooks g → TrapHooks g × List ℤ
  unfolding retry_off
  retry_all [] h = (h, [])
  retry_all (index ∷ indices) h =
      let (after, gone) = retry_off index h in
      let (last, kept) = retry_all indices after in (last, if gone then kept else index ∷ kept)

  unfoldable pub retry_pending_off : TrapHooks g → TrapHooks g
  unfolding retry_all
  retry_pending_off h =
      if not (g.modifier_ready h.world)
      then h
      else let (after, kept) = retry_all h.pending_off h in record after { pending_off = kept }

  unfoldable pub world_advanced : TrapHooks g → TrapHooks g × Bool
  world_advanced h =
      if g.pause_known h.world && g.is_paused h.world
      then (h, false)
      else if not (g.room_time_known h.world)
      then (h, true)
      else let now = g.room_time h.world in
        (record h { last_room_time = now }, not (g.eq_time now h.last_room_time))

  pub take_delta : TrapHooks g → Seconds
  take_delta h = elim (g.frame_delta h.world) [ none ↦ g.fallback_delta | some dt ↦ dt ]

  -- Re-asserting the traps that still run; a refusal is left.
  unfoldable pub assert_all : List ℤ → TrapHooks g → TrapHooks g
  unfolding write_modifier
  assert_all [] h = h
  assert_all (index ∷ indices) h = assert_all indices (write_modifier index true h).0

  unfoldable pub advance_by : Seconds → TrapHooks g → TrapHooks g
  unfolding advance_traps lift_all assert_all active
  advance_by dt h =
      let (expired, kept) = advance_traps g dt h.state in
      let lifted = lift_all expired (record h { state = kept }) in
      if le_zero dt then lifted else assert_all (active g lifted.state) lifted

  unfoldable pub is_idle : List (ActiveTrap g) → Bool
  is_idle [] = true
  is_idle (t ∷ traps) = false

  unfoldable pub advance_frame : TrapHooks g → TrapHooks g
  unfolding advance_by world_advanced take_delta is_idle
  advance_frame h =
      if is_idle h.state
      then h
      else let (after, moved) = world_advanced h in
        advance_by (if moved then take_delta after else g.zero_seconds) after

  unfoldable pub publish_active : TrapHooks g → TrapHooks g
  publish_active h = record h { shown = h.state }

  unfoldable pub tick_traps : TrapHooks g → TrapHooks g
  unfolding drain_pending_arm retry_pending_off clear_traps publish_active advance_frame is_idle
  tick_traps h =
      let ready = retry_pending_off (drain_pending_arm h) in
      if not (is_gameplay_game_state g (g.game_state ready.world))
      then publish_active (if is_idle ready.state then ready else clear_traps ready)
      else publish_active (advance_frame ready)
