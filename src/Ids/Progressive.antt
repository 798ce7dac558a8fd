-- ===== src/Ids/Progressive.antt =====
-- src/mth/core/ap/ap_ids.hpp, the progressive segment: the Nth receipt of a chain grants tier N.
-- A tier counter is a natural number: the source's `int` counters start at 0 and only rise, and a
-- wrap would take 2^31 receipts.
use mth_apclient.Base.{
  ℕ, suc, ◌-◌, ◌^◌, Bool, false, ◌&&◌, ◌||◌, not, List, [], ◌∷◌, ltb, ◌==◌, if◌then◌else◌, get_or,
  set, ℤ, pos, negsuc, pos_part, ◌+ℤ◌, ◌-ℤ◌, ltb_ℤ, leb_ℤ, eqb_ℤ,
}
use mth_apclient.Ids.Vanilla.{progressive_item_base}

abbrev pub stat_count : ℕ
stat_count = 3

abbrev pub is_progressive_item : ℤ → Bool
is_progressive_item id =
    leb_ℤ progressive_item_base id && ltb_ℤ id (progressive_item_base +ℤ pos 1000)

abbrev pub prog_weapon_base : ℤ
prog_weapon_base = progressive_item_base

abbrev pub weapon_family_count : ℕ
weapon_family_count = 5

abbrev pub weapon_tiers : ℕ
weapon_tiers = 3

-- Whip, Hammer, Daggers, Buster Bat, Casket.
abbrev pub weapon_item_types : List (List ℕ)
weapon_item_types =
    (2 ∷ 3 ∷ 4 ∷ [])
    ∷ (5 ∷ 6 ∷ 7 ∷ [])
    ∷ (8 ∷ 9 ∷ 10 ∷ [])
    ∷ (11 ∷ 12 ∷ 13 ∷ [])
    ∷ (14 ∷ 15 ∷ 16 ∷ [])
    ∷ []

abbrev pub is_weapon_item : ℤ → Bool
is_weapon_item id =
    leb_ℤ prog_weapon_base id && ltb_ℤ id (prog_weapon_base +ℤ pos weapon_family_count)

abbrev pub weapon_family : ℤ → ℤ
weapon_family id = id -ℤ prog_weapon_base

unfoldable pub weapon_itemtype : ℤ → ℤ → ℤ
weapon_itemtype family tier =
    if ltb_ℤ family (pos 0)
      || leb_ℤ (pos weapon_family_count) family
      || ltb_ℤ tier (pos 1)
      || ltb_ℤ (pos weapon_tiers) tier
    then negsuc 0
    else pos (get_or (get_or weapon_item_types (pos_part family) []) (pos_part tier - 1) 0)

-- `WeaponTally::tiers`, one counter for each family.
abbrev pub WeaponTally : Type 0
WeaponTally = List ℕ

abbrev pub empty_tally : WeaponTally
empty_tally = 0 ∷ 0 ∷ 0 ∷ 0 ∷ 0 ∷ []

-- `WeaponTally::add`: the new counters and the tier that the receipt grants.
unfoldable pub tally_add : WeaponTally → ℤ → WeaponTally × ℕ
tally_add tiers id =
    let family = pos_part (weapon_family id) in
    let tier = suc (get_or tiers family 0) in
    if not (is_weapon_item id) then (tiers, 0) else (set tiers family tier, tier)

unfoldable pub owned_mask : WeaponTally → ℤ → ℕ
owned_mask tiers family =
    if ltb_ℤ family (pos 0) || leb_ℤ (pos weapon_family_count) family
    then 0
    else let owned = get_or tiers (pos_part family) 0 in
      2 ^ (if ltb owned weapon_tiers then owned else weapon_tiers) - 1

-- Over the masks of the families, in their order.
unfoldable pub any_weapon_authorized : List ℕ → Bool
any_weapon_authorized [] = false
any_weapon_authorized (mask ∷ masks) = not (mask == 0) || any_weapon_authorized masks

abbrev pub map_item : ℤ
map_item = progressive_item_base +ℤ pos 10

abbrev pub map_tiers : ℕ
map_tiers = 2

abbrev pub map_item_types : List ℕ
map_item_types = 75 ∷ 76 ∷ []

abbrev pub is_map_item : ℤ → Bool
is_map_item id = leb_ℤ prog_weapon_base id && eqb_ℤ id map_item

unfoldable pub map_itemtype : ℤ → ℤ
map_itemtype tier =
    if ltb_ℤ tier (pos 1) || ltb_ℤ (pos map_tiers) tier
    then negsuc 0
    else pos (get_or map_item_types (pos_part tier - 1) 0)

abbrev pub prog_stat_cap_base : ℤ
prog_stat_cap_base = prog_weapon_base +ℤ pos weapon_family_count

abbrev pub prog_stat_cap_all_id : ℤ
prog_stat_cap_all_id = prog_stat_cap_base +ℤ pos stat_count

abbrev pub is_stat_cap_all_item : ℤ → Bool
is_stat_cap_all_item id = eqb_ℤ id prog_stat_cap_all_id

abbrev pub is_stat_cap_item : ℤ → Bool
is_stat_cap_item id =
    (leb_ℤ prog_stat_cap_base id && ltb_ℤ id (prog_stat_cap_base +ℤ pos stat_count))
    || is_stat_cap_all_item id

abbrev pub stat_cap_item_stat : ℤ → ℤ
stat_cap_item_stat id = id -ℤ prog_stat_cap_base

abbrev pub prog_fishing_rod_id : ℤ
prog_fishing_rod_id = prog_stat_cap_all_id +ℤ pos 1

abbrev pub fishing_rod_tiers : ℕ
fishing_rod_tiers = 3

abbrev pub fishing_rod_item_types : List ℕ
fishing_rod_item_types = 87 ∷ 88 ∷ 89 ∷ []

abbrev pub is_fishing_rod_item : ℤ → Bool
is_fishing_rod_item id = eqb_ℤ id prog_fishing_rod_id

abbrev pub prog_wallet_id : ℤ
prog_wallet_id = progressive_item_base +ℤ pos 11

abbrev pub is_wallet_item : ℤ → Bool
is_wallet_item id = eqb_ℤ id prog_wallet_id

unfoldable pub fishing_rod_itemtype : ℤ → ℤ
fishing_rod_itemtype tier =
    if ltb_ℤ tier (pos 1) || ltb_ℤ (pos fishing_rod_tiers) tier
    then negsuc 0
    else pos (get_or fishing_rod_item_types (pos_part tier - 1) 0)
