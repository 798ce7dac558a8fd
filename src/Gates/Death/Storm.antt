-- ===== src/Gates/Death/Storm.antt =====
-- `DeathBroadcastGate` of src/mth/core/death_broadcast_gate.hpp over runs of polls.
use mth_apclient.Base.{
  ℕ, zero, suc, ◌+◌, ◌≤◌, ◌<◌, ◌≡◌, refl, Bool, true, false, ◌&&◌, ◌||◌, not, List, [], ◌∷◌, arith,
  if◌then◌else◌, ◌⊎◌, inl,
}
use mth_apclient.Gates.Death.{
  Poll, DeathGate, note_inbound_death_applied, observe, stable_alive_ticks,
}

-- A poll that counts towards a settled respawn.
abbrev pub settles : Poll → Bool
settles p = p.gameplay_advanced && (p.alive && not p.dying)

unfoldable pub settled_polls : List Poll → ℕ
settled_polls [] = 0
settled_polls (p ∷ ps) = (if settles p then 1 else 0) + settled_polls ps

-- How many of the polls broadcast a death.
unfoldable pub broadcasts : List Poll → DeathGate → ℕ
broadcasts [] g = 0
broadcasts (p ∷ ps) g = let (h, sent) = observe p g in (if sent then 1 else 0) + broadcasts ps h

unfoldable pub observe_all : List Poll → DeathGate → DeathGate
observe_all [] g = g
observe_all (p ∷ ps) g = observe_all ps (observe p g).0

unfoldable pub silent : DeathGate → Bool
silent g = g.latched || g.suppress

observe-silent :
    (p : Poll) (g : DeathGate) (n : ℕ)
    → silent g ≡ true
    → g.alive_streak + (if settles p then 1 else 0) + n < stable_alive_ticks
    → (silent (observe p g).0 ≡ true)
      × ((observe p g).1 ≡ false)
      × ((observe p g).0.alive_streak + n < stable_alive_ticks)
unfolding observe silent
observe-silent p g n h k = ground arith

armed_death_sent :
    (g : DeathGate) (p : Poll) → silent g ≡ false → p.dying ≡ true → (observe p g).1 ≡ true
unfolding observe silent
armed_death_sent g p h k = ground arith

-- A gate that has handled a death, or has received one, sends nothing as long as its streak and the
-- settling polls together stay below the 30 of a settled respawn, however the death state flickers.
pub broadcasts-silent :
    (ps : List Poll) (g : DeathGate)
    → silent g ≡ true
    → g.alive_streak + settled_polls ps < stable_alive_ticks
    → broadcasts ps g ≡ 0
unfolding broadcasts settled_polls
broadcasts-silent [] g h k = refl
broadcasts-silent (p ∷ ps) g h k =
    let (still, unsent, less) = observe-silent p g (settled_polls ps) h (omega (arith, k)) in
    rw unsent (omega (arith, broadcasts-silent ps (observe p g).0 still less))

-- A death that was received and applied is not echoed: until 30 settling polls have passed, nothing
-- is sent, whatever state the gate was in.
pub applied_death_silent :
    (ps : List Poll) (g : DeathGate)
    → settled_polls ps < stable_alive_ticks
    → broadcasts ps (note_inbound_death_applied g) ≡ 0
applied_death_silent ps g h =
    broadcasts-silent ps (note_inbound_death_applied g)
      (unfold silent note_inbound_death_applied in ground arith)
      (unfold note_inbound_death_applied in omega (arith, h))

abbrev pub settled_poll : Poll
settled_poll = record { dying = false; alive = true; gameplay_advanced = true }

unfoldable pub repeat : ℕ → Poll → List Poll
repeat zero p = []
repeat (suc n) p = p ∷ repeat n p

-- With `n` settled polls to come, the gate will be armed after them.
IsDue : ℕ → DeathGate → Type 0
IsDue n g =
    (g.inbound_grace + stable_alive_ticks ≤ n)
    ⊎ ((g.inbound_grace ≡ 0)
        × ((silent g ≡ false)
            ⊎ ((g.alive_streak < stable_alive_ticks) × (stable_alive_ticks ≤ g.alive_streak + n))))

observe-IsDue : (n : ℕ) (g : DeathGate) → IsDue (suc n) g → IsDue n (observe settled_poll g).0
unfolding observe silent IsDue
observe-IsDue n g h = ground arith

settled_armed :
    (n : ℕ) (g : DeathGate) → IsDue n g → silent (observe_all (repeat n settled_poll) g) ≡ false
unfolding observe_all repeat
settled_armed zero g h = unfold silent IsDue in ground arith
settled_armed (suc n) g h = settled_armed n (observe settled_poll g).0 (observe-IsDue n g h)

-- Whatever state the gate is in, once its grace and 30 more polls have passed with the player alive
-- and in play, the next death is broadcast.
pub settled_death_sent :
    (n : ℕ) (g : DeathGate) (p : Poll)
    → g.inbound_grace + stable_alive_ticks ≤ n
    → p.dying ≡ true
    → (observe p (observe_all (repeat n settled_poll) g)).1 ≡ true
settled_death_sent n g p h k =
    armed_death_sent (observe_all (repeat n settled_poll) g) p
      (settled_armed n g (unfold IsDue in inl h)) k

-- A death edge on a frozen poll leaves the streak of a settled player standing, so a single alive
-- poll behind it arms the gate again and a second edge of the same death is broadcast too.
pub frozen_death_sent_twice :
    (g : DeathGate) (p q r : Poll)
    → silent g ≡ false
    → stable_alive_ticks ≤ g.alive_streak
    → p.dying ≡ true
    → p.gameplay_advanced ≡ false
    → settles q ≡ true
    → r.dying ≡ true
    → broadcasts (p ∷ q ∷ r ∷ []) g ≡ 2
unfolding broadcasts observe silent
frozen_death_sent_twice g p q r quiet steady first frozen blip again = ground arith
