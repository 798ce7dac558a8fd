-- ===== src/Granter/Recorded.antt =====
-- What a tick of src/mth/core/inbound_granter.cpp records by itself, without an acknowledgement.
use mth_apclient.Base.{◌≡◌, Bool, false, ◌&&◌, ◌||◌, List, [], ◌∷◌, ℤ, eqb_ℤ}
use mth_apclient.Granter.Receipts.{
  credited, unavailable, exceeded, not_ready, offered, skipped, InboundGranter, armed, trapped,
  Effect, Effects,
}
use mth_apclient.Ap.SaveState.{is_granted, ApSaveState}

-- An effect that a tick records at once: a credited key, a trap that is done with, a tier above the
-- top one. An offer is none, accepted or not.
unfoldable pub records_now : Effect → ℤ → Bool
records_now (offered game_type i accepted) index = false
records_now (credited i ok) index = ok && eqb_ℤ i index
records_now (trapped m i armed) index = eqb_ℤ i index
records_now (trapped m i not_ready) index = false
records_now (trapped m i unavailable) index = eqb_ℤ i index
records_now (trapped m i skipped) index = eqb_ℤ i index
records_now (exceeded i) index = eqb_ℤ i index

unfoldable pub recorded_by : List Effect → ℤ → Bool
recorded_by [] index = false
recorded_by (e ∷ log) index = records_now e index || recorded_by log index

-- The save holds what `old` held and what the log records.
abbrev pub IsRecorded : {W : Type 0} → ApSaveState → InboundGranter W → Type 0
IsRecorded old g =
    (index : ℤ) → is_granted g.save index ≡ (is_granted old index || recorded_by g.log index)

module _ {W : Type 0} (effects : Effects W) (old : ApSaveState) where
  -- An item granter that answers before anything was applied.
  abbrev pub IsDeferred : Type 0
  IsDeferred = (game_type index : ℤ) (w : W) → (effects.grant game_type index w).2 ≡ []
