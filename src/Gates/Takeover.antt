-- ===== src/Gates/Takeover.antt =====
-- src/mth/core/save/takeover_state.hpp and takeover_state.cpp: the save takeover, a wait on the game
-- with a time limit at every step. The frame counters count up from 0, so they are natural numbers.
pub mod Flush
pub mod Limits
use mth_apclient.Base.{
  eqb_bytes, ℕ, suc, Bool, true, false, ◌&&◌, ◌||◌, not, Option, none, some, [], ◌∷◌, ltb, ◌==◌,
  if◌then◌else◌, Bytes,
}

pub data TakeoverStep : Type 0 where
  idle : TakeoverStep
  awaiting_menu : TakeoverStep
  launching : TakeoverStep
  running : TakeoverStep
  failed : TakeoverStep

pub record TakeoverInputs : Type 0 where
  pub save_api_ready : Bool
  pub gameplay_entered : Bool
  pub frames_in_step : ℕ

abbrev pub max_frames_per_step : ℕ
max_frames_per_step = 600

abbrev pub max_input_block_frames : ℕ
max_input_block_frames = 1800

unfoldable pub takeover_settled : TakeoverStep → Bool
takeover_settled idle = true
takeover_settled awaiting_menu = false
takeover_settled launching = false
takeover_settled running = true
takeover_settled failed = true

-- The switch of `next_takeover_step`.
unfoldable pub advance_step : TakeoverStep → TakeoverInputs → Bool → TakeoverStep
advance_step awaiting_menu i timed_out = if timed_out then failed else awaiting_menu
advance_step launching i timed_out =
    if i.gameplay_entered then running else if timed_out then failed else launching
advance_step idle i timed_out = failed
advance_step running i timed_out = failed
advance_step failed i timed_out = failed

unfoldable pub next_takeover_step : TakeoverStep → TakeoverInputs → TakeoverStep
unfolding takeover_settled advance_step
next_takeover_step step i =
    if takeover_settled step
    then step
    else if not i.save_api_ready
    then failed
    else advance_step step i (ltb max_frames_per_step i.frames_in_step)

-- The switch of `block_game_input`.
unfoldable pub blocks_in : TakeoverStep → Bool → Bool
blocks_in awaiting_menu on_profile_select = true
blocks_in launching on_profile_select = true
blocks_in failed on_profile_select = on_profile_select
blocks_in idle on_profile_select = false
blocks_in running on_profile_select = false

unfoldable pub block_game_input : TakeoverStep → Bool → ℕ → Bool
unfolding blocks_in
block_game_input step on_profile_select frames_blocked =
    if ltb max_input_block_frames frames_blocked then false else blocks_in step on_profile_select

pub record InputBlockState : Type 0 where
  pub blocked : Bool
  pub frames : ℕ

unfoldable pub rearm : InputBlockState → InputBlockState
rearm s = record s { frames = 0 }

unfoldable pub advance : TakeoverStep → Bool → InputBlockState → InputBlockState
unfolding block_game_input
advance step on_profile_select s =
    let blocks = block_game_input step on_profile_select s.frames in
    record { blocked = blocks; frames = if blocks then suc s.frames else s.frames }

-- The step, where the player is, and the identity the takeover began under and the one now.
pub record FlushInputs : Type 0 where
  pub step : TakeoverStep
  pub in_gameplay : Bool
  pub begin_seed : Bytes
  pub begin_slot : Bytes
  pub current_seed : Bytes
  pub current_slot : Bytes

unfoldable pub is_running : TakeoverStep → Bool
is_running idle = false
is_running awaiting_menu = false
is_running launching = false
is_running running = true
is_running failed = false

pub data Refusal : Type 0 where
  no_claim : Refusal
  not_in_gameplay : Refusal
  identity_changed : Refusal

-- `none` is the null pointer: commit.
unfoldable pub flush_refusal : FlushInputs → Option Refusal
unfolding is_running
flush_refusal i =
    if not (is_running i.step)
    then some no_claim
    else if not i.in_gameplay
    then some not_in_gameplay
    else if not (eqb_bytes i.current_seed i.begin_seed)
        || not (eqb_bytes i.current_slot i.begin_slot)
    then some identity_changed
    else none
