-- ===== src/Gates/Takeover/Limits.antt =====
-- The time limits and the entry of a takeover, src/mth/core/save/takeover_state.cpp.
use mth_apclient.Base.{
  ℕ, suc, ◌+◌, ◌≤◌, ◌<◌, ◌≡◌, inl, inr, Bool, true, false, ◌&&◌, ◌||◌, List, [], ◌∷◌, arith,
  if◌then◌else◌, Bool-cases,
}
use mth_apclient.Gates.Takeover.{
  block_game_input, advance, advance_step, max_frames_per_step, InputBlockState, TakeoverStep,
  failed, max_input_block_frames, rearm, TakeoverInputs, takeover_settled, next_takeover_step,
  is_running, idle, awaiting_menu, launching, running,
}

-- A step that has waited more than 600 frames ends in a settled one, whatever the game reports.
pub takeover_times_out :
    (step : TakeoverStep) (i : TakeoverInputs)
    → max_frames_per_step < i.frames_in_step
    → takeover_settled (next_takeover_step step i) ≡ true
unfolding next_takeover_step takeover_settled advance_step
takeover_times_out idle i h = ground arith
takeover_times_out awaiting_menu i h = ground arith
takeover_times_out launching i h = ground arith
takeover_times_out running i h = ground arith
takeover_times_out failed i h = ground arith

-- The steps a list of inputs leads to.
unfoldable pub take_steps : List TakeoverInputs → TakeoverStep → TakeoverStep
take_steps [] step = step
take_steps (i ∷ is) step = take_steps is (next_takeover_step step i)

-- The frames of a list that were blocked.
unfoldable pub blocked_frames : List (TakeoverStep × Bool) → InputBlockState → ℕ
blocked_frames [] s = 0
blocked_frames ((step, on_profile_select) ∷ rest) s =
    let next = advance step on_profile_select s in
    (if next.blocked then 1 else 0) + blocked_frames rest next

advance-frames :
    (step : TakeoverStep) (on_profile_select : Bool) (s : InputBlockState) (n : ℕ)
    → s.frames ≤ suc max_input_block_frames
    → n + (advance step on_profile_select s).frames ≤ suc max_input_block_frames
    → ((if (advance step on_profile_select s).blocked then 1 else 0) + n + s.frames
        ≤ suc max_input_block_frames)
unfolding advance block_game_input
advance-frames step on_profile_select s n h k = ground arith

advance-bound :
    (step : TakeoverStep) (on_profile_select : Bool) (s : InputBlockState)
    → s.frames ≤ suc max_input_block_frames
    → (advance step on_profile_select s).frames ≤ suc max_input_block_frames
unfolding advance block_game_input
advance-bound step on_profile_select s h = ground arith

blocked_frames-within :
    (run : List (TakeoverStep × Bool)) (s : InputBlockState)
    → s.frames ≤ suc max_input_block_frames
    → blocked_frames run s + s.frames ≤ suc max_input_block_frames
unfolding blocked_frames
blocked_frames-within [] s h = omega (arith, h)
blocked_frames-within ((step, menu) ∷ rest) s h =
    let next = advance step menu s in
    let within = blocked_frames-within rest next (advance-bound step menu s h) in
    advance-frames step menu s (blocked_frames rest next) h within

-- From a fresh claim on, at most 1801 frames of the game's input are swallowed, whatever steps the
-- takeover goes through and wherever it wedges.
pub blocked_frames_bound :
    (run : List (TakeoverStep × Bool)) (s : InputBlockState)
    → blocked_frames run (rearm s) ≤ suc max_input_block_frames
blocked_frames_bound run s =
    let within = blocked_frames-within run (rearm s) (unfold rearm in ground arith) in
    unfold rearm in omega (arith, within)

step_entered :
    (step : TakeoverStep) (i : TakeoverInputs)
    → is_running step ≡ false
    → is_running (next_takeover_step step i) ≡ true
    → (i.save_api_ready && i.gameplay_entered) ≡ true
unfolding next_takeover_step takeover_settled advance_step is_running
step_entered idle i h k = ground arith
step_entered awaiting_menu i h k = ground arith
step_entered launching i h k = ground arith
step_entered running i h k = ground arith
step_entered failed i h k = ground arith

unfoldable pub any_entered : List TakeoverInputs → Bool
any_entered [] = false
any_entered (i ∷ is) = (i.save_api_ready && i.gameplay_entered) || any_entered is

-- A takeover only runs a slot after the game reported gameplay while the save interface was ready.
pub running_entered :
    (is : List TakeoverInputs) (step : TakeoverStep)
    → is_running step ≡ false
    → is_running (take_steps is step) ≡ true
    → any_entered is ≡ true
unfolding take_steps any_entered
running_entered [] step h k = ground arith
running_entered (i ∷ is) step h k = elim (Bool-cases (is_running (next_takeover_step step i))) [
  | inl entered ↦ let now = step_entered step i h entered in ground arith
  | inr waiting ↦
      let later = running_entered is (next_takeover_step step i) waiting k in ground arith
]
