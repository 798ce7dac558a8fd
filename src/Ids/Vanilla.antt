-- ===== src/Ids/Vanilla.antt =====
-- src/mth/core/ap/ap_ids.hpp, the vanilla segment: item types, capacity upgrades, train lines and
-- the ticket machine. `int` and `std::int64_t` are ℤ, `unsigned` and `std::uint32_t` are ℕ.
use Prim.Native.Nat.{bit_and, bit_or}
use mth_apclient.Base.{
  ℕ, ◌-◌, ◌^◌, ◌≡◌, Bool, false, ◌&&◌, not, List, [], ◌∷◌, arith, leb, ◌==◌, if◌then◌else◌, get_or,
  ℤ, pos, pos_part, ◌+ℤ◌, ◌-ℤ◌, ◌≤ℤ◌, ltb_ℤ, leb_ℤ, eqb_ℤ,
}

abbrev pub item_base : ℤ
item_base = pos 0

abbrev pub progressive_item_base : ℤ
progressive_item_base = pos 1000

-- `kItemTypeCount` of src/mth/core/data/game_layout.hpp.
abbrev pub item_type_count : ℤ
item_type_count = pos 195

abbrev pub ap_item_id : ℤ → ℤ
ap_item_id item_type = item_base +ℤ item_type

abbrev pub game_item_type : ℤ → ℤ
game_item_type id = id -ℤ item_base

abbrev pub is_valid_item_type : ℤ → Bool
is_valid_item_type item_type = leb_ℤ (pos 0) item_type && ltb_ℤ item_type item_type_count

abbrev pub is_vanilla_game_item : ℤ → Bool
is_vanilla_game_item id = leb_ℤ item_base id && ltb_ℤ id progressive_item_base

abbrev pub universal_kear_item_type : ℤ
universal_kear_item_type = pos 0x3f

abbrev pub is_vanilla_kear_item : ℤ → Bool
is_vanilla_kear_item id = eqb_ℤ id (ap_item_id universal_kear_item_type)

abbrev pub upgrade_item_base : ℤ
upgrade_item_base = pos 68

abbrev pub upgrade_count : ℕ
upgrade_count = 5

-- Magic, Health, Spark, Vial, Trinket.
abbrev pub upgrade_caps : List ℕ
upgrade_caps = 10 ∷ 18 ∷ 4 ∷ 10 ∷ 6 ∷ []

abbrev pub vial_upgrade_index : ℤ
vial_upgrade_index = pos 3

abbrev pub is_capacity_upgrade_item : ℤ → Bool
is_capacity_upgrade_item id =
    leb_ℤ upgrade_item_base id && ltb_ℤ id (upgrade_item_base +ℤ pos upgrade_count)

abbrev pub upgrade_index : ℤ → ℤ
upgrade_index id = id -ℤ upgrade_item_base

-- The low `count` bits of a 32-bit field.
unfoldable pub upgrade_bits : ℤ → ℕ
upgrade_bits count =
    if leb_ℤ count (pos 0)
    then 0
    else if leb_ℤ (pos 32) count
    then 0xFFFFFFFF
    else 2 ^ pos_part count - 1

unfoldable pub upgrade_field_value : ℤ → ℤ → ℕ → ℕ
unfolding upgrade_bits
upgrade_field_value index count current =
    if eqb_ℤ index vial_upgrade_index
    then upgrade_bits count
    else bit_or current (upgrade_bits count)

abbrev pub upgrade_cap : ℤ → ℕ
upgrade_cap index =
    if leb_ℤ (pos 0) index && ltb_ℤ index (pos upgrade_count)
    then get_or upgrade_caps (pos_part index) 0
    else 0

unfoldable pub upgrade_field_in_domain : ℤ → ℕ → Bool
upgrade_field_in_domain index value =
    let cap = upgrade_cap index in leb value (if leb 32 cap then 0xFFFFFFFF else 2 ^ cap - 1)

unfoldable pub maintained_vial_held : ℤ → ℤ → ℤ → ℤ
maintained_vial_held old_max old_held new_max =
    let held = old_held +ℤ (new_max -ℤ old_max) in
    if ltb_ℤ held (pos 0) then pos 0 else if ltb_ℤ new_max held then new_max else held

abbrev pub train_ticket_item_type_base : ℤ
train_ticket_item_type_base = pos 0x5f

abbrev pub train_line_count : ℕ
train_line_count = 5

abbrev pub is_train_ticket_item_type : ℤ → Bool
is_train_ticket_item_type item_type =
    leb_ℤ train_ticket_item_type_base item_type
    && ltb_ℤ item_type (train_ticket_item_type_base +ℤ pos train_line_count)

unfoldable pub train_ticket_bit : ℤ → ℕ
train_ticket_bit item_type =
    if is_train_ticket_item_type item_type
    then 2 ^ pos_part (item_type -ℤ train_ticket_item_type_base)
    else 0

unfoldable pub train_destination_blocked : ℤ → ℕ → Bool
unfolding train_ticket_bit
train_destination_blocked selected_code granted_mask =
    if eqb_ℤ selected_code train_ticket_item_type_base
    then false
    else not (train_ticket_bit selected_code == 0)
      && (bit_and granted_mask (train_ticket_bit selected_code) == 0)

abbrev pub train_pass_item_type : ℤ
train_pass_item_type = pos 0x5e

abbrev pub train_pass_loc_idx : ℤ
train_pass_loc_idx = pos 149

abbrev pub is_train_pass_machine_grant : ℤ → ℤ → Bool
is_train_pass_machine_grant loc_idx item_type =
    eqb_ℤ loc_idx train_pass_loc_idx && eqb_ℤ item_type train_pass_item_type

abbrev pub ticket_machine_goal : ℕ
ticket_machine_goal = 10000

unfoldable pub ticket_machine_seed : ℤ → ℕ
ticket_machine_seed cost =
    if ltb_ℤ cost (pos 1)
    then ticket_machine_goal - 1
    else if leb ticket_machine_goal (pos_part cost)
    then 0
    else ticket_machine_goal - pos_part cost

-- The vials held after a capacity change lie between none and the new maximum.
pub maintained_vial_held_bounds :
    (old_max old_held new_max : ℤ)
    → pos 0 ≤ℤ new_max
    → (pos 0 ≤ℤ maintained_vial_held old_max old_held new_max)
      × (maintained_vial_held old_max old_held new_max ≤ℤ new_max)
unfolding maintained_vial_held
maintained_vial_held_bounds old_max old_held new_max h = ground arith

-- Where the new maximum covers the missing amount, exactly as many vials are missing as before.
pub maintained_vial_held_missing :
    (old_max old_held new_max : ℤ)
    → old_held ≤ℤ old_max
    → old_max -ℤ old_held ≤ℤ new_max
    → new_max -ℤ maintained_vial_held old_max old_held new_max ≡ old_max -ℤ old_held
unfolding maintained_vial_held
maintained_vial_held_missing old_max old_held new_max h k = ground arith

-- What the machine still asks for after the seed is the configured cost, raised to 1 where it is
-- less and lowered to the goal where it is more.
pub ticket_machine_seed-owes :
    (cost : ℤ)
    → pos (ticket_machine_goal - ticket_machine_seed cost) ≡ (
        if ltb_ℤ cost (pos 1)
        then pos 1
        else if ltb_ℤ (pos ticket_machine_goal) cost
        then pos ticket_machine_goal
        else cost)
unfolding ticket_machine_seed
ticket_machine_seed-owes cost = ground arith
