-- ===== src/Examples/Derived.antt =====
-- The ring, the burrow gate, and what the received items raise, on short runs.
use mth_apclient.Caps.Applied.{
  Operation, recomputes, writes, suppresses, perform_all, IsApplied, perform_all-IsApplied,
}
use mth_apclient.Gates.Burrow.Confirmed.{
  Event, reads, polls, unavailable_reading, after_arm, acts, agreeing, action_confirmed, react,
}
use mth_apclient.Base.{
  ℕ, zero, suc, ◌-◌, ◌≤◌, ◌≡◌, refl, Bool, true, false, List, [], ◌∷◌, ◌==◌, if◌then◌else◌, length,
  pos, drop, codes, Bytes,
}
use mth_apclient.Caps.{new_upgrades}
use mth_apclient.Examples.{joined, receipts, receipt}
use mth_apclient.Logs.{snapshot, new_ring}
use mth_apclient.Logs.Newest.{snapshot-push_all, push_all}
use mth_apclient.Gates.Burrow.{
  is_armed, confirm, water_confirm_ticks, reading_unavailable, arm_gate, observe_water, cross,
  Reading, observe_burrowing, new_burrow_gate,
}
use mth_apclient.Ap.Events.{ReceivedItem}
use mth_apclient.Ap.State.Stream.{apply_items}

abbrev log_lines : List Bytes
log_lines = codes "one" ∷ codes "two" ∷ codes "three" ∷ []

snapshot-push_all_example :
    snapshot (push_all log_lines (new_ring 2))
    ≡ drop (length log_lines - (if 2 == 0 then 1 else 2)) log_lines
snapshot-push_all_example = snapshot-push_all 2 log_lines

abbrev over : Bool → Reading
over deep = record { deep = deep; burrow_blocked = false; swim_blocked = true }

abbrev nine : List Event
nine =
    reads (over true)
    ∷ reads (over true)
    ∷ reads (over true)
    ∷ polls true
    ∷ reads (over true)
    ∷ reads (over true)
    ∷ reads (over true)
    ∷ reads (over true)
    ∷ reads (over true)
    ∷ reads (over true)
    ∷ unavailable_reading
    ∷ []

action_confirmed_example : water_confirm_ticks ≤ agreeing true (reads (over true) ∷ nine)
unfolding after_arm
action_confirmed_example = action_confirmed false nine (over true) (
    unfold react arm_gate new_burrow_gate observe_water is_armed cross observe_burrowing
      reading_unavailable confirm acts in
    refl)

abbrev ten : List Reading
ten =
    over true
    ∷ over true
    ∷ over true
    ∷ over true
    ∷ over true
    ∷ over true
    ∷ over true
    ∷ over true
    ∷ over true
    ∷ over true
    ∷ []

abbrev upgrading : List Operation
upgrading =
    recomputes (apply_items receipts joined) ∷ writes ∷ suppresses ∷ writes ∷ recomputes joined ∷ []

perform_all-IsApplied_example : IsApplied (perform_all upgrading new_upgrades)
perform_all-IsApplied_example = perform_all-IsApplied upgrading

abbrev area_kears : ℕ → ℕ → List ReceivedItem
area_kears id zero = []
area_kears id (suc n) = receipt (pos id) (pos n) ∷ area_kears (suc id) n
