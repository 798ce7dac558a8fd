-- ===== src/Caps.antt =====
-- What the received items raise: src/mth/core/stat_cap_state.cpp and stat_cap_state.hpp,
-- upgrade_state.cpp and upgrade_state.hpp, wallet_cap_state.cpp and wallet_cap_state.hpp. Counts of
-- receipts are natural numbers; caps that the caller gives are integers. The label texts are left out.
pub mod Applied
pub mod Stats
use mth_apclient.Base.{
  ℕ, suc, ◌+◌, ◌*◌, Bool, true, false, ◌&&◌, ◌||◌, not, Option, none, some, List, [], ◌∷◌, map, ltb,
  leb, ◌==◌, if◌then◌else◌, get_or, set, ℤ, pos, pos_part, ◌+ℤ◌, ltb_ℤ, leb_ℤ,
}
use mth_apclient.Ids.Progressive.{
  stat_count, is_stat_cap_all_item, is_wallet_item, stat_cap_item_stat, is_stat_cap_item,
}
use mth_apclient.Ids.Vanilla.{upgrade_caps, upgrade_index, is_capacity_upgrade_item}
use mth_apclient.Ap.State.{ApState}
use mth_apclient.Ap.Events.{ReceivedItem}

-- One receipt in `StatCapState::recompute`.
unfoldable pub count_stat : ℤ → List ℕ → List ℕ
count_stat id counts =
    if not (is_stat_cap_item id)
    then counts
    else if is_stat_cap_all_item id
    then map suc counts
    else set counts (pos_part (stat_cap_item_stat id))
        (suc (get_or counts (pos_part (stat_cap_item_stat id)) 0))

unfoldable pub count_stats : List ReceivedItem → List ℕ → List ℕ
unfolding count_stat
count_stats [] counts = counts
count_stats (it ∷ items) counts = count_stats items (count_stat it.item_id counts)

unfoldable pub recompute_stats : ApState → List ℕ
unfolding count_stats
recompute_stats s = count_stats s.received_items (0 ∷ 0 ∷ 0 ∷ [])

unfoldable pub granted : List ℕ → ℤ → ℕ
granted counts stat =
    if ltb_ℤ stat (pos 0) || leb_ℤ (pos stat_count) stat then 0 else get_or counts (pos_part stat) 0

unfoldable pub enforced_cap : List ℕ → ℤ → ℤ → ℤ
enforced_cap counts stat vanilla_cap =
    if ltb_ℤ stat (pos 0) || leb_ℤ (pos stat_count) stat
    then vanilla_cap
    else if ltb_ℤ (pos (get_or counts (pos_part stat) 0)) vanilla_cap
    then pos (get_or counts (pos_part stat) 0)
    else vanilla_cap

abbrev pub clamp_max_stat_level : ℤ → ℤ
clamp_max_stat_level v = if ltb_ℤ v (pos 10) then pos 10 else if ltb_ℤ (pos 99) v then pos 99 else v

abbrev pub stat_cap_ceiling : ℤ → ℤ → ℤ → ℤ
stat_cap_ceiling stat max_stat_level vanilla_cap =
    if leb_ℤ (pos 0) stat && ltb_ℤ stat (pos stat_count) then max_stat_level else vanilla_cap

abbrev pub boneup_fake_capped_stat : Bool → Bool → ℤ → ℤ → Bool
boneup_fake_capped_stat menu_interactive stat_is_selected real_level cap =
    menu_interactive && (stat_is_selected && leb_ℤ cap real_level)

abbrev pub boneup_display_cap : ℤ → ℤ
boneup_display_cap enforced = enforced +ℤ pos 1

-- `UpgradeState`; the constructor's counts are zeros.
pub record UpgradeState : Type 0 where
  pub counts : List ℕ
  pub applied : List ℕ
  pub dirty : Bool

unfoldable pub new_upgrades : UpgradeState
new_upgrades = record {
  counts = 0 ∷ 0 ∷ 0 ∷ 0 ∷ 0 ∷ [];
  applied = 0 ∷ 0 ∷ 0 ∷ 0 ∷ 0 ∷ [];
  dirty = false;
}

unfoldable pub count_upgrades : List ReceivedItem → List ℕ → List ℕ
count_upgrades [] counts = counts
count_upgrades (it ∷ items) counts = count_upgrades items (
    if is_capacity_upgrade_item it.item_id
    then set counts (pos_part (upgrade_index it.item_id))
        (suc (get_or counts (pos_part (upgrade_index it.item_id)) 0))
    else counts)

-- `std::min` against the cap of each type.
unfoldable pub clamp_all : List ℕ → List ℕ → List ℕ
clamp_all [] caps = []
clamp_all (n ∷ ns) [] = n ∷ ns
clamp_all (n ∷ ns) (cap ∷ caps) = (if ltb cap n then cap else n) ∷ clamp_all ns caps

unfoldable pub eqb_counts : List ℕ → List ℕ → Bool
eqb_counts [] [] = true
eqb_counts [] (b ∷ bs) = false
eqb_counts (a ∷ more) [] = false
eqb_counts (a ∷ more) (b ∷ bs) = (a == b) && eqb_counts more bs

unfoldable pub clamped_upgrades : List ReceivedItem → List ℕ
unfolding count_upgrades clamp_all
clamped_upgrades items = clamp_all (count_upgrades items (0 ∷ 0 ∷ 0 ∷ 0 ∷ 0 ∷ [])) upgrade_caps

unfoldable pub recompute_upgrades : ApState → UpgradeState → UpgradeState
unfolding clamped_upgrades
recompute_upgrades s u =
    let next = clamped_upgrades s.received_items in
    record u { counts = next; dirty = u.dirty || not (eqb_counts next u.applied) }

unfoldable pub mark_applied : UpgradeState → UpgradeState
mark_applied u = record u { applied = u.counts; dirty = false }

unfoldable pub force_dirty : UpgradeState → UpgradeState
force_dirty u = record u { dirty = true }

-- `WalletCapState::recompute`.
unfoldable pub count_wallets : List ReceivedItem → ℕ
count_wallets [] = 0
count_wallets (it ∷ items) =
    let rest = count_wallets items in if is_wallet_item it.item_id then suc rest else rest

abbrev pub wallet_base : ℕ
wallet_base = 750

abbrev pub wallet_step : ℕ
wallet_step = 500

abbrev pub wallet_free_at : ℕ
wallet_free_at = 8

-- `none` is no cap. A count of receipts is never below 0, so that branch of the source falls away.
unfoldable pub wallet_cap_for : ℕ → Option ℕ
wallet_cap_for count =
    if leb wallet_free_at count then none else some (wallet_base + wallet_step * count)

unfoldable pub wallet_enforced_cap : ApState → Option ℕ
unfolding count_wallets wallet_cap_for
wallet_enforced_cap s = wallet_cap_for (count_wallets s.received_items)
