-- ===== src/Traps/Countdowns.antt =====
-- src/mth/core/trap_state.cpp: `TrapState`, over the interface of the game and of its seconds.
use mth_apclient.Base.{Bool, ◌&&◌, Option, List, [], ◌∷◌, if◌then◌else◌, ℤ, leb_ℤ, eqb_ℤ}

pub record Game : Type 1 where
  pub World : Type 0
  pub Seconds : Type 0
  -- the arithmetic of `float`
  pub le_zero : Seconds → Bool
  pub gt_zero : Seconds → Bool
  pub eq_time : Seconds → Seconds → Bool
  pub sub : Seconds → Seconds → Seconds
  pub max_of : Seconds → Seconds → Seconds
  pub zero_seconds : Seconds
  pub fallback_delta : Seconds
  -- the duration of a trap, where the modifier is one
  pub trap_seconds : ℤ → Option Seconds
  -- the bounds of the game's states that are gameplay
  pub first_world_state : ℤ
  pub last_world_state : ℤ
  -- the platform
  pub modifiers_available : World → Bool
  pub game_state : World → ℤ
  pub modifier_ready : World → Bool
  pub is_cheat_applied : ℤ → World → Bool
  pub set_modifier : ℤ → Bool → World → World × Bool
  pub pause_known : World → Bool
  pub is_paused : World → Bool
  pub room_time_known : World → Bool
  pub room_time : World → Seconds
  pub frame_delta : World → Option Seconds

-- Whether the player is in the world, not in a menu.
abbrev pub is_gameplay_game_state : Game → ℤ → Bool
is_gameplay_game_state g gs = leb_ℤ g.first_world_state gs && leb_ℤ gs g.last_world_state

-- A write that went through, and a modifier that was left to the player.
pub data Write : Type 0 where
  wrote : ℤ → Bool → Write
  yielded : ℤ → Write

unfoldable pub erase : ℤ → List ℤ → List ℤ
erase index [] = []
erase index (i ∷ is) = if eqb_ℤ i index then erase index is else i ∷ erase index is

module _ (g : Game) where
  open g use {Seconds, le_zero, sub, max_of}

  pub record ActiveTrap : Type 0 where
    pub index : ℤ
    pub remaining : Seconds

module _ (g : Game) where
  open g use {
    Seconds, World, le_zero, gt_zero, sub, max_of, set_modifier, is_cheat_applied, trap_seconds,
  }

  -- The loop of `TrapState::arm`.
  unfoldable pub extend : ℤ → Seconds → List (ActiveTrap g) → List (ActiveTrap g)
  extend index seconds [] = record { index = index; remaining = seconds } ∷ []
  extend index seconds (t ∷ traps) =
      if eqb_ℤ t.index index
      then record t { remaining = max_of t.remaining seconds } ∷ traps
      else t ∷ extend index seconds traps

  unfoldable pub arm_state : ℤ → Seconds → List (ActiveTrap g) → List (ActiveTrap g)
  unfolding extend
  arm_state index seconds traps = if le_zero seconds then traps else extend index seconds traps

  unfoldable pub active : List (ActiveTrap g) → List ℤ
  active [] = []
  active (t ∷ traps) = t.index ∷ active traps

  unfoldable pub age_trap : Seconds → ActiveTrap g → ActiveTrap g
  age_trap dt t = record t { remaining = sub t.remaining dt }

  -- The indices that ran out, and the traps that did not.
  unfoldable pub advance_all : Seconds → List (ActiveTrap g) → List ℤ × List (ActiveTrap g)
  unfolding age_trap
  advance_all dt [] = ([], [])
  advance_all dt (t ∷ traps) =
      let (expired, kept) = advance_all dt traps in
      let aged = age_trap dt t in
      if le_zero aged.remaining then (t.index ∷ expired, kept) else (expired, aged ∷ kept)

  unfoldable pub advance_traps : Seconds → List (ActiveTrap g) → List ℤ × List (ActiveTrap g)
  unfolding advance_all
  advance_traps dt traps = if le_zero dt then ([], traps) else advance_all dt traps
