-- ===== src/Gates/Resend.antt =====
-- src/mth/core/connect_resend_gate.hpp: `ConnectResendGate`, the latch behind the one resend after
-- each connection. The state is its field `latched_`.
use mth_apclient.Base.{
  ◌≡◌, Bool, true, false, ◌&&◌, ◌||◌, not, List, [], ◌∷◌, if◌then◌else◌, refl, arith,
}

-- The arguments of a call of `fire`.
pub record Tick : Type 0 where
  pub connected : Bool
  pub inbound_ready : Bool

unfoldable pub fire : Tick → Bool → Bool × Bool
fire t latched =
    if not t.connected
    then (false, false)
    else if latched || not t.inbound_ready
    then (latched, false)
    else (true, true)

-- Whether a run, given from its last tick back, had a ready tick since it was last not connected.
unfoldable pub ready_before : List Tick → Bool
ready_before [] = false
ready_before (t ∷ ts) = t.connected && (t.inbound_ready || ready_before ts)

abbrev pub is_ready : Tick → Bool
is_ready t = t.connected && t.inbound_ready

-- A run as its last tick first.
unfoldable pub latch_after : List Tick → Bool
unfolding fire
latch_after [] = false
latch_after (t ∷ ts) = (fire t (latch_after ts)).0

latch_after_lem : (ts : List Tick) → latch_after ts ≡ ready_before ts
unfolding latch_after ready_before fire
latch_after_lem [] = refl
latch_after_lem (t ∷ ts) = let same = latch_after_lem ts in ground arith

-- Whatever came before a tick, the gate fires on it exactly when the connection is up, the inbound
-- path is ready, and no earlier tick of the same connection was ready: once for each connection, in
-- whichever order the two conditions come to hold.
pub fire_once :
    (t : Tick) (before : List Tick)
    → (fire t (latch_after before)).1 ≡ (is_ready t && not (ready_before before))
unfolding fire
fire_once t before = let same = latch_after_lem before in ground arith
