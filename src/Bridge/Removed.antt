-- ===== src/Bridge/Removed.antt =====
-- The calls that `RandoBridge` (src/mth/core/rando_bridge.cpp) makes on the link.
use mth_apclient.Base.{◌≡◌, ◌⊎◌, true, false, ◌∷◌, All}
use mth_apclient.Bridge.{
  scout_locations, is_removed, RandoBridge, set_goal, LinkCall, send_locations,
}

-- Location checks go out over a live link only, and no batch, of checks or of scouts, names a
-- location that the seed has pruned. Goals are sent by an authenticated session only.
abbrev pub IsAllowed : RandoBridge → LinkCall → Type 0
IsAllowed b (send_locations ids) =
    (b.link.connected ≡ true) × All (λ id. is_removed b id ≡ false) ids
IsAllowed b (scout_locations ids) = All (λ id. is_removed b id ≡ false) ids
IsAllowed b set_goal = (b.state.authenticated ≡ true) × (b.goal_sent ≡ false)

abbrev Says : RandoBridge → RandoBridge → Type 0
Says b after =
    (after.link.calls ≡ b.link.calls)
    ⊎ ((c : LinkCall) × (after.link.calls ≡ c ∷ b.link.calls) × IsAllowed b c)
