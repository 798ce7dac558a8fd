-- ===== src/Gates/Startup.antt =====
-- src/mth/core/ap_gate.hpp and ap_gate.cpp: the startup checks that decide whether the client may
-- connect at all. The tick counter is a count, so a natural number.
use mth_apclient.Base.{
  ℕ, ◌≡◌, ◌≢◌, ◌↔◌, inl, inr, refl, Bool, true, false, ◌&&◌, not, Option, none, some, List, [], ◌∷◌,
  leb, if◌then◌else◌, Bool-cases, arith,
}

pub data GateVerdict : Type 0 where
  pending : GateVerdict
  clear : GateVerdict
  refused : GateVerdict

pub record GateInputs : Type 0 where
  pub mod_api_present : Bool
  pub symbols_resolved : Bool
  pub item_table_shape_ok : Bool
  pub layout_probes_ok : Bool
  pub revision_known : Bool
  pub mod_api_shape_ok : Bool
  pub worldupdate_observed : Bool
  pub ticks_since_probe_installed : ℕ

abbrev pub liveness_timeout_ticks : ℕ
liveness_timeout_ticks = 600

abbrev pub static_checks_passed : GateInputs → Bool
static_checks_passed i =
    i.mod_api_present && (i.symbols_resolved && (i.item_table_shape_ok && i.layout_probes_ok))

abbrev pub liveness_expired : GateInputs → Bool
liveness_expired i =
    not i.worldupdate_observed && leb liveness_timeout_ticks i.ticks_since_probe_installed

unfoldable pub evaluate : GateInputs → GateVerdict
evaluate i =
    if not (static_checks_passed i)
    then refused
    else if i.worldupdate_observed
    then clear
    else if liveness_expired i
    then refused
    else pending

-- The reasons, in the order they are tried; the text of each is the source's.
pub data Reason : Type 0 where
  mod_api_unavailable : Reason
  functions_not_located : Reason
  item_table_mismatch : Reason
  layout_probe_failed : Reason
  hook_never_ran : Reason

-- The empty string is `none`.
unfoldable pub refusal_reason : GateInputs → Option Reason
refusal_reason i =
    if not i.mod_api_present
    then some mod_api_unavailable
    else if not i.symbols_resolved
    then some functions_not_located
    else if not i.item_table_shape_ok
    then some item_table_mismatch
    else if not i.layout_probes_ok
    then some layout_probe_failed
    else if liveness_expired i
    then some hook_never_ran
    else none

unfoldable pub is_refused : GateVerdict → Bool
is_refused pending = false
is_refused clear = false
is_refused refused = true

unfoldable pub is_settled : GateVerdict → Bool
is_settled pending = false
is_settled clear = true
is_settled refused = true

unfoldable pub should_refuse_connect : Bool → GateVerdict → Bool
unfolding is_refused
should_refuse_connect enforcing v = enforcing && is_refused v

-- `GateLatch::update` on the latch's one field.
unfoldable pub update : GateInputs → GateVerdict → GateVerdict
unfolding is_settled
update i v = if is_settled v then v else evaluate i

unfoldable pub update_all : List GateInputs → GateVerdict → GateVerdict
update_all [] v = v
update_all (i ∷ is) v = update_all is (update i v)

-- The verdict of the first inputs that settle it, or `pending`.
unfoldable pub first_settled : List GateInputs → GateVerdict
unfolding is_settled
first_settled [] = pending
first_settled (i ∷ is) = if is_settled (evaluate i) then evaluate i else first_settled is

unsettled_pending : (v : GateVerdict) → is_settled v ≡ false → v ≡ pending
unfolding is_settled
unsettled_pending pending h = refl
unsettled_pending clear h = ground arith
unsettled_pending refused h = ground arith

settled_stays : (is : List GateInputs) (v : GateVerdict) → is_settled v ≡ true → update_all is v ≡ v
unfolding update_all update
settled_stays [] v h = refl
settled_stays (i ∷ is) v h = rw h (settled_stays is v h)

-- The latch holds the first verdict that was not pending: whatever inputs come later, a refusal is
-- never taken back and a cleared start is never refused.
pub update_all-first : (is : List GateInputs) → update_all is pending ≡ first_settled is
unfolding update_all first_settled update
update_all-first [] = refl
update_all-first (i ∷ is) = elim (Bool-cases (is_settled (evaluate i))) [
  | inl h ↦ rw h (settled_stays is (evaluate i) h)
  | inr h ↦ rw h (rw (unsettled_pending (evaluate i) h) (update_all-first is))
]

explains : (i : GateInputs) → is_refused (evaluate i) ≡ true → refusal_reason i ≢ none
unfolding evaluate refusal_reason is_refused
explains i h = ground arith

explained : (i : GateInputs) → refusal_reason i ≢ none → is_refused (evaluate i) ≡ true
unfolding evaluate refusal_reason is_refused
explained i h = ground arith

-- A reason is shown exactly when the client is refused.
pub refusal_reason_iff :
    (i : GateInputs) → ((is_refused (evaluate i) ≡ true) ↔ (refusal_reason i ≢ none))
unfolding evaluate refusal_reason is_refused
refusal_reason_iff i = (λ h. explains i h, λ h. explained i h)
