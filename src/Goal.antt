-- ===== src/Goal.antt =====
-- src/mth/core/kear_completion.hpp, and `goal_met` of src/mth/core/goal_state.hpp: when the run has
-- reached what the seed asks for.
pub mod Monotone
use mth_apclient.Base.{
  ℕ, zero, suc, ◌+◌, ◌-◌, Bool, true, false, ◌||◌, not, List, [], ◌∷◌, leb, if◌then◌else◌, ℤ, pos,
  leb_ℤ, eqb_ℤ,
}
use mth_apclient.Ids.Vanilla.{universal_kear_item_type, ap_item_id}
use mth_apclient.Ap.Events.{vanilla, area_ap_items, ap_items, KearMode, ReceivedItem}

abbrev pub vanilla_kear_total : ℕ
vanilla_kear_total = 40

abbrev pub single_kear_item_ids : List ℕ
single_kear_item_ids =
    2019 ∷ 2020 ∷ 2021 ∷ 2022 ∷ 2033 ∷ 2055 ∷ 2069 ∷ 2096 ∷ 2109 ∷ 2115 ∷ 2127 ∷ 2141 ∷ 2151 ∷ 2152
    ∷ 2157 ∷ 2222 ∷ 2224 ∷ 2225 ∷ 2227 ∷ 2244 ∷ 2246 ∷ 2247 ∷ 2260 ∷ 2262 ∷ 2277 ∷ 2278 ∷ 2283
    ∷ 2284 ∷ 2285 ∷ 2304 ∷ 2307 ∷ 2318 ∷ 2320 ∷ 2321 ∷ 2336 ∷ 2337 ∷ 2338 ∷ 2358 ∷ 2359 ∷ []

abbrev pub single_kear_required : ℕ
single_kear_required = 30

abbrev pub area_kear_first_item_id : ℕ
area_kear_first_item_id = 2500

abbrev pub area_kear_last_item_id : ℕ
area_kear_last_item_id = 2516

abbrev pub area_kear_count : ℕ
area_kear_count = suc area_kear_last_item_id - area_kear_first_item_id

unfoldable pub received_has : List ReceivedItem → ℤ → Bool
received_has [] id = false
received_has (it ∷ items) id = eqb_ℤ it.item_id id || received_has items id

-- `std::count_if` over the receipts.
unfoldable pub count_kears : List ReceivedItem → ℕ
count_kears [] = 0
count_kears (it ∷ items) =
    (if eqb_ℤ it.item_id (ap_item_id universal_kear_item_type) then 1 else 0) + count_kears items

-- `std::count_if` over the ids of single kears.
unfoldable pub count_held : List ℕ → List ReceivedItem → ℕ
unfolding received_has
count_held [] received = 0
count_held (id ∷ ids) received =
    (if received_has received (pos id) then 1 else 0) + count_held ids received

-- The loop over the area kears, `n` of them from `id` on.
unfoldable pub holds_from : ℕ → ℕ → List ReceivedItem → Bool
unfolding received_has
holds_from id zero received = true
holds_from id (suc n) received =
    let rest = holds_from (suc id) n received in
    if not (received_has received (pos id)) then false else rest

unfoldable pub have_all_kears : KearMode → List ReceivedItem → Bool
unfolding count_kears count_held holds_from
have_all_kears vanilla received = leb vanilla_kear_total (count_kears received)
have_all_kears ap_items received =
    leb single_kear_required (count_held single_kear_item_ids received)
have_all_kears area_ap_items received = holds_from area_kear_first_item_id area_kear_count received

unfoldable pub goal_met : ℤ → ℤ → ℤ → Bool → ℤ → ℤ → Bool
goal_met config gens_needed bosses_needed game_cleared gens_done bosses_done =
    if eqb_ℤ config (pos 1)
    then leb_ℤ gens_needed gens_done
    else if eqb_ℤ config (pos 2)
    then leb_ℤ bosses_needed bosses_done
    else game_cleared
