-- ===== src/Examples/Spells.antt =====
-- Traps on a small game: the world says whether writes go through, and a second is a number.
use mth_apclient.Traps.Apart.{IsApart}
use mth_apclient.Traps.Runs.{
  arms, ticks, moves_on, new_traps, forced-tracked, Operation, perform_all, perform,
}
use mth_apclient.Base.{
  ℕ, ◌-◌, ◌≡◌, refl, Bool, true, false, ◌||◌, none, some, List, [], ◌∷◌, arith, ltb, ◌==◌,
  if◌then◌else◌, pos, eqb_ℤ,
}
use mth_apclient.Traps.{
  retry_pending_off, assert_all, is_idle, arm_written, drain_pending_arm, lift_all, retry_all,
  publish_active, tick_traps, world_advanced, arm_all, advance_frame, lift, arm_listed, advance_by,
  write_modifier, arm_modifier,
}
use mth_apclient.Traps.Tracked.{is_in, IsSound}
use mth_apclient.Traps.Kept.{running-IsApart}
use mth_apclient.Traps.Countdowns.{
  erase, active, advance_all, arm_state, extend, age_trap, Game, advance_traps,
}

abbrev toy_game : Game
toy_game = record {
  World = Bool;
  Seconds = ℕ;
  le_zero = λ n. n == 0;
  gt_zero = λ n. ltb 0 n;
  eq_time = λ m n. m == n;
  sub = λ m n. m - n;
  max_of = λ m n. if ltb m n then n else m;
  zero_seconds = 0;
  fallback_delta = 1;
  trap_seconds = λ index. if eqb_ℤ index (pos 204) then some 2 else none;
  first_world_state = pos 10;
  last_world_state = pos 20;
  modifiers_available = λ w. true;
  game_state = λ w. pos 12;
  modifier_ready = λ w. true;
  is_cheat_applied = λ index w. false;
  set_modifier = λ index on w. (w, w);
  pause_known = λ w. false;
  is_paused = λ w. false;
  room_time_known = λ w. false;
  room_time = λ w. 0;
  frame_delta = λ w. some 1;
}

toy_game-IsSound : IsSound toy_game
toy_game-IsSound = record {
  lasting = λ index e. ground (arith, e);
  ordered = λ s e. ground (arith, e);
}

-- Armed, aged by a frame, and out of time while the game refuses the lift.
abbrev frames : List (Operation toy_game)
frames = arms (pos 204) 0 ∷ ticks ∷ moves_on (λ w. false) ∷ ticks ∷ []

forced-tracked_example :
    is_in (pos 204) (active toy_game (perform_all toy_game frames (new_traps toy_game true)).state)
      || is_in (pos 204) (perform_all toy_game frames (new_traps toy_game true)).pending_off
    ≡ true
unfolding perform_all perform arm_modifier arm_listed write_modifier arm_written arm_state extend
    tick_traps drain_pending_arm arm_all retry_pending_off retry_all is_idle advance_frame
    world_advanced advance_by advance_traps advance_all age_trap lift_all lift assert_all active
    publish_active new_traps erase
forced-tracked_example = forced-tracked toy_game toy_game-IsSound frames true (pos 204) refl

running-IsApart_example : IsApart toy_game (perform_all toy_game frames (new_traps toy_game true))
running-IsApart_example = running-IsApart toy_game frames true
