-- ===== src/Ids/Blocks.antt =====
-- src/mth/core/ap/ap_ids.hpp, the segments from 2000 on (kear locks, abilities, blockers, traps)
-- and the location space.
use mth_apclient.Base.{
  ℕ, Bool, false, ◌&&◌, ◌||◌, List, [], ◌∷◌, get_or, ℤ, pos, pos_part, ◌+ℤ◌, ◌-ℤ◌, ltb_ℤ, leb_ℤ,
  eqb_ℤ,
}

abbrev pub kear_block_item_base : ℤ
kear_block_item_base = pos 2000

abbrev pub area_kear_lock_item_base : ℤ
area_kear_lock_item_base = pos 2500

abbrev pub ability_item_base : ℤ
ability_item_base = pos 3000

abbrev pub blocker_item_base : ℤ
blocker_item_base = pos 4000

abbrev pub trap_item_base : ℤ
trap_item_base = pos 5000

abbrev pub trap_segment_width : ℤ
trap_segment_width = pos 1000

abbrev pub astral_platform_count : ℕ
astral_platform_count = 5

-- Green, red, blue, yellow, purple, as colors of the game.
abbrev pub astral_platform_colors : List ℕ
astral_platform_colors = 1 ∷ 4 ∷ 2 ∷ 0 ∷ 3 ∷ []

abbrev pub is_astral_platform_item : ℤ → Bool
is_astral_platform_item id =
    leb_ℤ blocker_item_base id && ltb_ℤ id (blocker_item_base +ℤ pos astral_platform_count)

unfoldable pub astral_platform_color : ℤ → ℕ
astral_platform_color id = get_or astral_platform_colors (pos_part (id -ℤ blocker_item_base)) 0

abbrev pub is_trap_item : ℤ → Bool
is_trap_item id = leb_ℤ trap_item_base id && ltb_ℤ id (trap_item_base +ℤ trap_segment_width)

abbrev pub trap_modifier_index : ℤ → ℤ
trap_modifier_index id = id -ℤ trap_item_base

abbrev pub is_kear_block_item : ℤ → Bool
is_kear_block_item id = leb_ℤ kear_block_item_base id && ltb_ℤ id area_kear_lock_item_base

abbrev pub is_area_lock_item : ℤ → Bool
is_area_lock_item id = leb_ℤ area_kear_lock_item_base id && ltb_ℤ id ability_item_base

abbrev pub kear_block_engine_id : ℤ → ℤ
kear_block_engine_id id = id -ℤ kear_block_item_base

abbrev pub loc_base : ℤ
loc_base = pos 0

abbrev pub ap_loc_id : ℤ → ℤ
ap_loc_id collection_idx = loc_base +ℤ collection_idx

abbrev pub legovich_locations : List ℤ
legovich_locations = pos 174 ∷ pos 175 ∷ pos 176 ∷ pos 177 ∷ pos 178 ∷ []

is_one_of : List ℤ → ℤ → Bool
is_one_of [] loc = false
is_one_of (l ∷ ls) loc = eqb_ℤ l loc || is_one_of ls loc

unfoldable pub is_legovich_location : ℤ → Bool
unfolding is_one_of
is_legovich_location loc = is_one_of legovich_locations loc

abbrev pub boss_loc_base : ℤ
boss_loc_base = pos 1000

abbrev pub max_boss_index : ℤ
max_boss_index = pos 0x1C

abbrev pub is_boss_index : ℤ → Bool
is_boss_index boss_index = leb_ℤ (pos 0) boss_index && leb_ℤ boss_index max_boss_index

abbrev pub boss_location_slot : ℤ → ℤ
boss_location_slot boss_index = boss_loc_base +ℤ boss_index
