-- ===== src/Caps/Stats.antt =====
-- `StatCapState` of src/mth/core/stat_cap_state.cpp against a count of receipts.
use mth_apclient.Base.{
  ℕ, zero, suc, ◌+◌, ◌<◌, ◌≡◌, ◌∙◌, ap, refl, Bool, ◌||◌, List, [], ◌∷◌, map, arith, if◌then◌else◌,
  get_or, length, ℤ, pos, pos_part, ◌+ℤ◌, ltb_ℤ, eqb_ℤ, eqb_ℤ_iff, length-set, get_or-set,
}
use mth_apclient.Caps.{recompute_stats, enforced_cap, count_stat, count_stats}
use mth_apclient.Ids.Progressive.{
  stat_cap_item_stat, prog_stat_cap_all_id, stat_count, prog_stat_cap_base,
}
use mth_apclient.Ap.State.{ApState}
use mth_apclient.Ap.Events.{ReceivedItem}

-- A receipt raises the cap of the stat that its id names, and the one id raises all.
abbrev pub raises : ℤ → ℕ → Bool
raises id stat = eqb_ℤ id (prog_stat_cap_base +ℤ pos stat) || eqb_ℤ id prog_stat_cap_all_id

unfoldable pub raised : ℕ → List ReceivedItem → ℕ
raised stat [] = 0
raised stat (it ∷ items) = (if raises it.item_id stat then 1 else 0) + raised stat items

length-map : (xs : List ℕ) → length (map suc xs) ≡ length xs
length-map [] = refl
length-map (x ∷ xs) = ap suc (length-map xs)

get_or-map : (xs : List ℕ) (i : ℕ) → i < length xs → get_or (map suc xs) i 0 ≡ suc (get_or xs i 0)
get_or-map [] i h = elim h [ ]
get_or-map (x ∷ xs) zero h = refl
get_or-map (x ∷ xs) (suc i) h = get_or-map xs i (omega (arith, h))

length-count_stat : (id : ℤ) (counts : List ℕ) → length (count_stat id counts) ≡ length counts
unfolding count_stat
length-count_stat id counts = ground (
  arith,
  length-map counts,
  length-set counts (pos_part (stat_cap_item_stat id))
      (suc (get_or counts (pos_part (stat_cap_item_stat id)) 0)),
)

get_or-count_stat :
    (id : ℤ) (counts : List ℕ) (stat : ℕ)
    → length counts ≡ stat_count
    → stat < stat_count
    → get_or (count_stat id counts) stat 0
      ≡ (if raises id stat then 1 else 0) + get_or counts stat 0
unfolding count_stat
get_or-count_stat id counts stat h k =
    let i = pos_part (stat_cap_item_stat id) in
    let next = suc (get_or counts i 0) in
    ground (
      arith,
      get_or-map counts stat,
      get_or-set counts i stat next 0,
      eqb_ℤ_iff id (prog_stat_cap_base +ℤ pos stat),
      h,
      k,
    )

get_or-count_stats :
    (items : List ReceivedItem) (counts : List ℕ) (stat : ℕ)
    → length counts ≡ stat_count
    → stat < stat_count
    → get_or (count_stats items counts) stat 0 ≡ raised stat items + get_or counts stat 0
unfolding count_stats raised
get_or-count_stats [] counts stat h k = omega arith
get_or-count_stats (it ∷ items) counts stat h k = omega (
  arith,
  get_or-count_stat it.item_id counts stat h k,
  get_or-count_stats items (count_stat it.item_id counts) stat
      (length-count_stat it.item_id counts ∙ h) k,
)

get_or-zeros : (i : ℕ) → get_or {A = ℕ} (0 ∷ 0 ∷ 0 ∷ []) i 0 ≡ 0
get_or-zeros zero = refl
get_or-zeros (suc zero) = refl
get_or-zeros (suc (suc zero)) = refl
get_or-zeros (suc (suc (suc i))) = refl

-- What a stat may be raised to is the number of receipts that raise it, its own and those for every
-- stat, and never more than the game's own cap.
pub enforced_cap-raised :
    (s : ApState) (stat : ℕ) (vanilla_cap : ℤ)
    → stat < stat_count
    → enforced_cap (recompute_stats s) (pos stat) vanilla_cap ≡ (
        if ltb_ℤ (pos (raised stat s.received_items)) vanilla_cap
        then pos (raised stat s.received_items)
        else vanilla_cap)
unfolding enforced_cap recompute_stats
enforced_cap-raised s stat vanilla_cap h =
    let counted = get_or-count_stats s.received_items (0 ∷ 0 ∷ 0 ∷ []) stat refl h in
    let none_before = get_or-zeros stat in ground (arith, counted, none_before, h)
