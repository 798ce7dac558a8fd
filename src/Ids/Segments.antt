-- ===== src/Ids/Segments.antt =====
-- The tests and tables of src/mth/core/ap/ap_ids.hpp taken together: how they divide the item space,
-- and how a weapon's tier and its ownership mask relate.
use mth_apclient.Base.{
  ℕ, ◌+◌, ◌≤◌, Bool, List, [], ◌∷◌, arith, if◌then◌else◌, ℤ, pos, negsuc, ◌/◌, length, ◌^◌, ◌<◌,
  ◌≡◌, pos_part, get_or, length-set, ◌∙◌, ◌-◌, get_or-set, ◌%◌, ltb, zero, suc, refl, true,
}
use mth_apclient.Ids.Vanilla.{is_vanilla_game_item}
use mth_apclient.Ids.Progressive.{
  is_weapon_item, is_map_item, is_stat_cap_item, is_fishing_rod_item, is_wallet_item, WeaponTally,
  tally_add, weapon_itemtype, weapon_family_count, weapon_tiers, weapon_family, empty_tally,
  owned_mask,
}
use mth_apclient.Ids.Blocks.{
  is_kear_block_item, is_area_lock_item, is_astral_platform_item, is_trap_item,
}

abbrev pub count_true : List Bool → ℕ
count_true [] = 0
count_true (b ∷ bs) = (if b then 1 else 0) + count_true bs

-- The tests that route an item id, those of the vanilla segment as one.
abbrev pub item_tests : ℤ → List Bool
item_tests id =
    is_vanilla_game_item id
    ∷ is_weapon_item id
    ∷ is_stat_cap_item id
    ∷ is_fishing_rod_item id
    ∷ is_map_item id
    ∷ is_wallet_item id
    ∷ is_kear_block_item id
    ∷ is_area_lock_item id
    ∷ is_astral_platform_item id
    ∷ is_trap_item id
    ∷ []

-- No item id, negative ones included, is claimed by two kinds of item.
pub item_tests_disjoint : (id : ℤ) → count_true (item_tests id) ≤ 1
item_tests_disjoint (pos id) = ground arith
item_tests_disjoint (negsuc id) = ground arith

-- The counters after a list of received item ids.
unfoldable pub tally_run : WeaponTally → List ℤ → WeaponTally
tally_run tiers [] = tiers
tally_run tiers (id ∷ ids) = tally_run (tally_add tiers id).0 ids

tally_add_mono :
    (tiers : WeaponTally) (id : ℤ) (j : ℕ)
    → length tiers ≡ weapon_family_count
    → get_or tiers j 0 ≤ get_or (tally_add tiers id).0 j 0
unfolding tally_add
tally_add_mono tiers (negsuc id) j h = ground arith
tally_add_mono tiers (pos id) j h = ground (
  arith,
  get_or-set tiers (pos_part (weapon_family (pos id))) j
      (suc (get_or tiers (pos_part (weapon_family (pos id))) 0)) 0,
)

tally_add-length : (tiers : WeaponTally) (id : ℤ) → length (tally_add tiers id).0 ≡ length tiers
unfolding tally_add
tally_add-length tiers id = ground (
  arith,
  length-set tiers (pos_part (weapon_family id))
      (suc (get_or tiers (pos_part (weapon_family id)) 0)),
)

tally_run_mono :
    (tiers : WeaponTally) (ids : List ℤ) (j : ℕ)
    → length tiers ≡ weapon_family_count
    → get_or tiers j 0 ≤ get_or (tally_run tiers ids) j 0
unfolding tally_run
tally_run_mono tiers [] j h = omega arith
tally_run_mono tiers (id ∷ ids) j h = omega (
  arith,
  tally_add_mono tiers id j h,
  tally_run_mono (tally_add tiers id).0 ids j (tally_add-length tiers id ∙ h),
)

tally_run-length :
    (tiers : WeaponTally) (ids : List ℤ) → length (tally_run tiers ids) ≡ length tiers
unfolding tally_run
tally_run-length tiers [] = refl
tally_run-length tiers (id ∷ ids) =
    tally_run-length (tally_add tiers id).0 ids ∙ tally_add-length tiers id

-- The bit of the ownership field that the engine keeps for a weapon's item type.
abbrev pub owned_bit : ℤ → ℕ → ℕ
owned_bit item_type mask = mask / 2 ^ ((pos_part item_type - 2) % 3) % 2

itemtype_slot :
    (family tier : ℕ)
    → family < weapon_family_count
    → tier < weapon_tiers
    → (pos_part (weapon_itemtype (pos family) (pos (suc tier))) - 2) % 3 ≡ tier
unfolding weapon_itemtype
itemtype_slot family (suc (suc (suc tier))) f t = absurd (omega arith)
itemtype_slot zero tier f t = ground arith
itemtype_slot (suc zero) _ f t = ground arith
itemtype_slot (suc (suc zero)) _ f t = ground arith
itemtype_slot (suc (suc (suc zero))) _ f t = ground arith
itemtype_slot (suc (suc (suc (suc zero)))) _ f t = ground arith
itemtype_slot (suc (suc (suc (suc (suc family))))) _ f t = absurd (omega arith)

-- The low `owned` bits, at most three of them, hold every bit below `owned` and 3.
low_bits_hold :
    (owned tier : ℕ)
    → tier < weapon_tiers
    → tier < owned
    → (2 ^ (if ltb owned weapon_tiers then owned else weapon_tiers) - 1) / 2 ^ tier % 2 ≡ 1
low_bits_hold owned (suc (suc (suc tier))) t o = absurd (omega arith)
low_bits_hold zero tier t o = absurd (omega arith)
low_bits_hold (suc zero) tier t o = ground arith
low_bits_hold (suc (suc zero)) zero t o = ground arith
low_bits_hold (suc (suc zero)) (suc tier) t o = ground arith
low_bits_hold (suc (suc (suc owned))) zero t o = ground arith
low_bits_hold (suc (suc (suc owned))) (suc tier) t o = ground arith

-- The tier that a receipt of a family is handed is the family's counter after it.
tally_add-tier :
    (tiers : WeaponTally) (n : ℕ)
    → length tiers ≡ weapon_family_count
    → is_weapon_item (pos n) ≡ true
    → let (after, tier) = tally_add tiers (pos n) in (get_or after (n - 1000) 0 ≡ tier) × (0 < tier)
unfolding tally_add
tally_add-tier tiers n h w = ground (
  arith,
  get_or-set tiers (pos_part (weapon_family (pos n))) (n - 1000)
      (suc (get_or tiers (pos_part (weapon_family (pos n))) 0)) 0,
)

owned_mask-tier :
    (later : WeaponTally) (family tier : ℕ)
    → family < weapon_family_count
    → 0 < tier
    → tier ≤ weapon_tiers
    → tier ≤ get_or later family 0
    → owned_bit (weapon_itemtype (pos family) (pos tier)) (owned_mask later (pos family)) ≡ 1
unfolding owned_mask
owned_mask-tier later family zero f t l o = absurd (omega arith)
owned_mask-tier later family (suc tier) f t l o =
    rw (itemtype_slot family tier f l)
      (ground (arith, low_bits_hold (get_or later family 0) tier l o))

weapon_family_index :
    (n : ℕ)
    → is_weapon_item (pos n) ≡ true
    → (weapon_family (pos n) ≡ pos (n - 1000)) × (n - 1000 < weapon_family_count)
weapon_family_index n w = ground arith

-- Whatever was received before and after, a weapon that a receipt hands out stays within what the
-- ownership mask authorizes: the engine's bit of the granted item type is set in it. The receipt's
-- tier is one of the family's item types.
pub owned_mask-tally_add :
    (before after : List ℤ) (n : ℕ)
    → is_weapon_item (pos n) ≡ true
    → (tally_add (tally_run empty_tally before) (pos n)).1 ≤ weapon_tiers
    → let (now, tier) = tally_add (tally_run empty_tally before) (pos n) in
      let family = weapon_family (pos n) in
      owned_bit (weapon_itemtype family (pos tier)) (owned_mask (tally_run now after) family) ≡ 1
owned_mask-tally_add before after n w top =
    let tiers = tally_run empty_tally before in
    let now = (tally_add tiers (pos n)).0 in
    let five = tally_run-length empty_tally before in
    let (handed, positive) = tally_add-tier tiers n five w in
    let (index, bound) = weapon_family_index n w in
    rw index (
      owned_mask-tier (tally_run now after) (n - 1000) (tally_add tiers (pos n)).1 bound positive
        top
        (omega (
          arith,
          handed,
          tally_run_mono now after (n - 1000) (tally_add-length tiers (pos n) ∙ five),
        )))
