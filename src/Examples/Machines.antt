-- ===== src/Examples/Machines.antt =====
-- The state machines on short runs.
use mth_apclient.Base.{ℕ, ◌≡◌, refl, Bool, true, false, List, [], ◌∷◌, arith, codes}
use mth_apclient.Gates.Death.{observe, DeathGate, fresh_gate, Poll}
use mth_apclient.Gates.Startup.{GateInputs, update_all, first_settled, pending, update_all-first}
use mth_apclient.Gates.Resend.{Tick}
use mth_apclient.Gates.Death.Storm.{
  broadcasts-silent, settled_death_sent, silent, repeat, observe_all, broadcasts, settled_polls,
  settled_poll, frozen_death_sent_twice,
}
use mth_apclient.Gates.Takeover.{TakeoverInputs, FlushInputs, running}

abbrev flicker : List Poll
flicker =
    record { dying = true; alive = false; gameplay_advanced = true }
    ∷ settled_poll
    ∷ record { dying = false; alive = true; gameplay_advanced = false }
    ∷ record { dying = true; alive = true; gameplay_advanced = true }
    ∷ []

abbrev dead_gate : DeathGate
dead_gate = record fresh_gate { latched = true }

broadcasts-silent_example : broadcasts flicker dead_gate ≡ 0
broadcasts-silent_example =
    broadcasts-silent flicker dead_gate (unfold silent in refl)
      (unfold settled_polls fresh_gate in ground arith)

settled_death_sent_example :
    (observe
      (record { dying = true; alive = false; gameplay_advanced = true })
      (observe_all (repeat 30 settled_poll) dead_gate)).1
    ≡ true
settled_death_sent_example =
    settled_death_sent 30 dead_gate
      (record { dying = true; alive = false; gameplay_advanced = true })
      (unfold fresh_gate in ground arith) refl

abbrev inputs : Bool → ℕ → GateInputs
inputs observed ticks = record {
  mod_api_present = true;
  symbols_resolved = true;
  item_table_shape_ok = true;
  layout_probes_ok = true;
  revision_known = false;
  mod_api_shape_ok = true;
  worldupdate_observed = observed;
  ticks_since_probe_installed = ticks;
}

abbrev startup : List GateInputs
startup = inputs false 599 ∷ inputs false 600 ∷ inputs true 601 ∷ []

update_all-first_example : update_all startup pending ≡ first_settled startup
update_all-first_example = update_all-first startup

abbrev up : Bool → Tick
up ready = record { connected = true; inbound_ready = ready }

abbrev flush_inputs : FlushInputs
flush_inputs = record {
  step = running;
  in_gameplay = true;
  begin_seed = codes "seed";
  begin_slot = codes "Ada";
  current_seed = codes "seed";
  current_slot = codes "Bob";
}

abbrev waited : Bool → ℕ → TakeoverInputs
waited entered n = record { save_api_ready = true; gameplay_entered = entered; frames_in_step = n }

frozen_death_sent_twice_example :
    broadcasts
      (record { dying = true; alive = true; gameplay_advanced = false }
        ∷ settled_poll
        ∷ record { dying = true; alive = true; gameplay_advanced = true }
        ∷ [])
      (record fresh_gate { alive_streak = 30 })
    ≡ 2
frozen_death_sent_twice_example =
    frozen_death_sent_twice (record fresh_gate { alive_streak = 30 })
      (record { dying = true; alive = true; gameplay_advanced = false }) settled_poll
      (record { dying = true; alive = true; gameplay_advanced = true })
      (unfold silent fresh_gate in refl) (ground arith) refl refl refl refl
