-- ===== src/Gates/Death.antt =====
-- src/mth/core/death_broadcast_gate.hpp: `DeathBroadcastGate`. The tick counters are bounded by the
-- thresholds, so they are natural numbers; `ticks_for_seconds` of the two constants is 30 and 240.
pub mod Storm
use mth_apclient.Base.{ℕ, suc, ◌-◌, Bool, true, false, ◌&&◌, not, ltb, leb, if◌then◌else◌}

abbrev pub max_fixed_update_hz : ℕ
max_fixed_update_hz = 120

-- 0.25 seconds at 120 Hz.
abbrev pub stable_alive_ticks : ℕ
stable_alive_ticks = 30

-- 2 seconds at 120 Hz.
abbrev pub inbound_death_grace_ticks : ℕ
inbound_death_grace_ticks = 240

pub record DeathGate : Type 0 where
  pub alive_streak : ℕ
  pub inbound_grace : ℕ
  pub latched : Bool
  pub suppress : Bool
  pub suppressed_death : Bool

-- The arguments of `observe`.
pub record Poll : Type 0 where
  pub dying : Bool
  pub alive : Bool
  pub gameplay_advanced : Bool

unfoldable pub fresh_gate : DeathGate
fresh_gate = record {
  alive_streak = 0;
  inbound_grace = 0;
  latched = false;
  suppress = false;
  suppressed_death = false;
}

-- The branch of a poll that reads alive and not dying.
unfoldable pub count_alive : DeathGate → DeathGate
count_alive g =
    let streak =
      if ltb g.alive_streak stable_alive_ticks then suc g.alive_streak else g.alive_streak in
    if leb stable_alive_ticks streak
    then record g { alive_streak = streak; latched = false; suppress = false }
    else record g { alive_streak = streak }

-- The first half of `observe`: the timers.
unfoldable pub age : Poll → DeathGate → DeathGate
unfolding count_alive
age p g =
    if not p.gameplay_advanced
    then g
    else if ltb 0 g.inbound_grace
    then record g { inbound_grace = g.inbound_grace - 1; alive_streak = 0 }
    else if p.alive && not p.dying
    then count_alive g
    else record g { alive_streak = 0 }

-- The second half: a death edge. True is a death to broadcast.
unfoldable pub death_edge : Poll → DeathGate → DeathGate × Bool
death_edge p g =
    if p.dying
    then (if g.latched
        then (record g { inbound_grace = 0 }, false)
        else if g.suppress
        then (record g { inbound_grace = 0; latched = true; suppressed_death = true }, false)
        else (record g { inbound_grace = 0; latched = true }, true))
    else (g, false)

unfoldable pub observe : Poll → DeathGate → DeathGate × Bool
unfolding age death_edge
observe p g = death_edge p (age p g)

unfoldable pub note_inbound_death_received : DeathGate → DeathGate
note_inbound_death_received g = record g { suppress = true }

unfoldable pub note_inbound_death_applied : DeathGate → DeathGate
note_inbound_death_applied g = record g {
  suppress = true;
  inbound_grace = inbound_death_grace_ticks;
  alive_streak = 0;
}

unfoldable pub take_suppressed_death : DeathGate → DeathGate × Bool
take_suppressed_death g = (record g { suppressed_death = false }, g.suppressed_death)

abbrev pub death_in_progress : DeathGate → Bool
death_in_progress g = g.latched

abbrev pub stably_alive : DeathGate → Bool
stably_alive g = leb stable_alive_ticks g.alive_streak
