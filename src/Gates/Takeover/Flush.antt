-- ===== src/Gates/Takeover/Flush.antt =====
-- `flush_refusal` of src/mth/core/save/takeover_state.cpp.
use mth_apclient.Base.{eqb_bytes, eqb_bytes_refl, eqb_bytes-eq, ◌≡◌, ◌↔◌, refl, true, none, arith}
use mth_apclient.Gates.Takeover.{
  FlushInputs, awaiting_menu, idle, launching, TakeoverStep, running, flush_refusal, is_running,
  failed,
}

running_eq : (step : TakeoverStep) → is_running step ≡ true → step ≡ running
unfolding is_running
running_eq idle h = ground arith
running_eq awaiting_menu h = ground arith
running_eq launching h = ground arith
running_eq running h = refl
running_eq failed h = ground arith

-- When the live slot may be committed to the run's save.
pub IsCommit : FlushInputs → Type 0
IsCommit i =
    (i.step ≡ running)
    × ((i.in_gameplay ≡ true) × ((i.current_seed ≡ i.begin_seed) × (i.current_slot ≡ i.begin_slot)))

commits : (i : FlushInputs) → flush_refusal i ≡ none → IsCommit i
unfolding flush_refusal IsCommit
commits i h =
    let tests : (is_running i.step ≡ true)
        × ((i.in_gameplay ≡ true)
            × ((eqb_bytes i.current_seed i.begin_seed ≡ true)
                × (eqb_bytes i.current_slot i.begin_slot ≡ true))) =
      ground arith in
    (
      running_eq i.step tests.0,
      (
        tests.1.0,
        (
          eqb_bytes-eq i.current_seed i.begin_seed tests.1.1.0,
          eqb_bytes-eq i.current_slot i.begin_slot tests.1.1.1,
        ),
      ),
    )

commit_allowed : (i : FlushInputs) → IsCommit i → flush_refusal i ≡ none
unfolding flush_refusal IsCommit is_running
commit_allowed i (step, (play, (seed, slot))) = rw step (
    rw play (
      rw seed (rw slot (rw (eqb_bytes_refl i.begin_seed) (rw (eqb_bytes_refl i.begin_slot) refl)))))

-- A save is flushed exactly when the takeover runs the slot, the game is in play, and the seed and
-- the slot are those the takeover began under, byte for byte.
pub flush_refusal_iff : (i : FlushInputs) → ((flush_refusal i ≡ none) ↔ IsCommit i)
flush_refusal_iff i = (commits i, commit_allowed i)
