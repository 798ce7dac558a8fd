-- ===== src/Gates/Burrow/Crossing.antt =====
-- `BurrowBoundaryGate` of src/mth/core/burrow_boundary.hpp over water that the player may not cross.
use mth_apclient.Base.{
  ℕ, suc, ◌+◌, ◌≤◌, ◌<◌, ◌≡◌, ◌⊎◌, inl, inr, refl, true, false, List, [], ◌∷◌, arith, length, All,
}
use mth_apclient.Gates.Burrow.{
  arm_gate, unarmed, BurrowGate, Reading, water_confirm_ticks, observe_water, burrow,
}

-- Burrowing, with the confirmation of deep water `n` readings away at most.
IsCrossing : ℕ → BurrowGate → Type 0
IsCrossing n g =
    (g.mode ≡ unarmed)
    ⊎ ((g.mode ≡ burrow)
        × (((g.last_deep ≡ false) × (water_confirm_ticks ≤ n))
            ⊎ ((g.last_deep ≡ true)
                × (g.confirmed < water_confirm_ticks)
                × (water_confirm_ticks ≤ n + g.confirmed))))

unfoldable pub read_all : List Reading → BurrowGate → BurrowGate
read_all [] g = g
read_all (r ∷ rs) g = read_all rs (observe_water r g).0

observe_water-IsCrossing :
    (n : ℕ) (r : Reading) (g : BurrowGate)
    → r.deep ≡ true
    → r.swim_blocked ≡ true
    → IsCrossing (suc n) g
    → IsCrossing n (observe_water r g).0
unfolding IsCrossing observe_water
observe_water-IsCrossing n r g d b (inl e) = ground (arith, e)
observe_water-IsCrossing n r g d b (inr (e, h)) = ground (arith, e)

read_all-unarmed :
    (rs : List Reading) (g : BurrowGate)
    → All (λ r. (r.deep ≡ true) × (r.swim_blocked ≡ true)) rs
    → IsCrossing (length rs) g
    → (read_all rs g).mode ≡ unarmed
unfolding read_all IsCrossing
read_all-unarmed [] g h (inl e) = e
read_all-unarmed [] g h (inr (e, k)) = ground arith
read_all-unarmed (r ∷ rs) g (h, hs) k =
    read_all-unarmed rs (observe_water r g).0 hs
      (observe_water-IsCrossing (length rs) r g h.0 h.1 k)

-- A player who burrowed and then stays over deep water without the swim ability for ten readings is
-- handed to the game's fall: the gate is disarmed by then.
pub crossing_answered :
    (rs : List Reading) (g : BurrowGate)
    → All (λ r. (r.deep ≡ true) × (r.swim_blocked ≡ true)) rs
    → water_confirm_ticks ≤ length rs
    → (read_all rs (arm_gate false g)).mode ≡ unarmed
crossing_answered rs g h k =
    read_all-unarmed rs (arm_gate false g) h
      (unfold IsCrossing arm_gate in inr (refl, inl (refl, k)))
