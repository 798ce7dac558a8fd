-- ===== src/SlotData.antt =====
-- src/mth/core/ap/slot_data.cpp: `parse_slot_data`, with the masks it folds from
-- src/mth/core/fountain_lamps.hpp and goal_state.hpp. The JSON library is a parameter; a step of it
-- that throws is `none`, and so is the parse that the throw leaves. Logging is left out.
pub mod Bounds
pub mod Defaults
pub mod Library
use mathlib.Core.Option
use Prim.Native.Nat.{bit_or}
use mth_apclient.Base.{
  ◌>>=◌, ◌>>◌, ℕ, ◌^◌, Bool, false, ◌&&◌, not, Option, none, some, List, [], ◌∷◌, map,
  if◌then◌else◌, get_or, length, ℤ, pos, pos_part, ltb_ℤ, leb_ℤ, eqb_ℤ, codes, Bytes,
}
use mth_apclient.SlotData.Library.{JsonLibrary}
use mth_apclient.Caps.{clamp_max_stat_level}
use mth_apclient.Ap.Events.{SlotDataConfig, default_config, kear_mode_from_slot_data}
use mth_apclient.Bundle.{Json}

abbrev pub generator_lamp_count : ℕ
generator_lamp_count = 6

-- A mask, with bit `i` set where the index is one of a lamp.
unfoldable pub add_lamp : ℕ → ℤ → ℕ
add_lamp mask i =
    if leb_ℤ (pos 0) i && ltb_ℤ i (pos generator_lamp_count)
    then bit_or mask (2 ^ pos_part i)
    else mask

unfoldable pub lit_mask_from_indices : List ℤ → ℕ → ℕ
unfolding add_lamp
lit_mask_from_indices [] mask = mask
lit_mask_from_indices (i ∷ indices) mask = lit_mask_from_indices indices (add_lamp mask i)

abbrev pub generator_save_bit : List ℕ
generator_save_bit = 2 ∷ 1 ∷ 3 ∷ 4 ∷ 5 ∷ 6 ∷ []

abbrev pub generator_count : ℕ
generator_count = length generator_save_bit

unfoldable pub add_generator : ℕ → ℤ → ℕ
add_generator mask i =
    if leb_ℤ (pos 0) i && ltb_ℤ i (pos generator_count)
    then bit_or mask (2 ^ get_or generator_save_bit (pos_part i) 0)
    else mask

unfoldable pub generator_mask_of : List ℤ → ℕ → ℕ
unfolding add_generator
generator_mask_of [] mask = mask
generator_mask_of (i ∷ indices) mask = generator_mask_of indices (add_generator mask i)

module _ (lib : JsonLibrary) where
  open lib use {Json, is_object, value, find, elements, is_number_integer, get_int, get_int64}

  -- `obj ? data.value(key, d) : d`.
  unfoldable pub number : Json → Bytes → ℤ → Option ℤ
  number json key d = if is_object json then value json key d else some d

  -- `obj && data.value(key, d) != 0`.
  unfoldable pub flag : Json → Bytes → ℤ → Option Bool
  flag json key d =
      if is_object json
      then Option.map (λ v. not (eqb_ℤ v (pos 0))) (value json key d)
      else some false

  -- The array at a key of an object.
  unfoldable pub find_array : Json → Bytes → Option (List Json)
  find_array json key =
      if is_object json then elim (find json key) [ none ↦ none | some v ↦ elements v ] else none

  unfoldable pub array_or_empty : Json → Bytes → List Json
  unfolding find_array
  array_or_empty json key = elim (find_array json key) [ none ↦ [] | some vs ↦ vs ]

  -- The integers of an array, each read by `get`.
  unfoldable pub integers : (Json → ℤ) → List Json → List ℤ
  integers get [] = []
  integers get (v ∷ vs) = if is_number_integer v then get v ∷ integers get vs else integers get vs

  unfoldable pub broken_mask : Json → ℕ
  unfolding find_array integers
  broken_mask json = elim (find_array json (codes "broken_generators")) [
    | none ↦ default_config.broken_generator_mask
    | some vs ↦ generator_mask_of (integers get_int vs) 0
  ]

  unfoldable pub parse_slot_data : Json → Option SlotDataConfig
  unfolding number flag array_or_empty integers broken_mask
  parse_slot_data json = do
    ossex_start ← flag json (codes "ossex_start") (pos 0)
    kear ← number json (codes "kear_rando") (pos 1)
    burrow_rando ← flag json (codes "burrow_rando") (pos 0)
    swim_rando ← flag json (codes "swim_rando") (pos 0)
    rope_rando ← flag json (codes "rope_rando") (pos 0)
    puff_rando ← flag json (codes "puff_rando") (pos 0)
    spring_rando ← flag json (codes "spring_rando") (pos 0)
    carry_rando ← flag json (codes "carry_rando") (pos 0)
    train_rando ← flag json (codes "train_rando") (pos 1)
    train_pass_cost ← number json (codes "train_pass_cost") (pos 1000)
    deathlink ← flag json (codes "death_link") (pos 0)
    stat_level ← number json (codes "max_stat_level") (pos 99)
    goal_config ← number json (codes "goal_config") (pos 0)
    goal_generators ← number json (codes "goal_generators") (pos 99)
    goal_bosses ← number json (codes "goal_bosses") (pos 99)
    wallet_cap ← flag json (codes "wallet_cap") (pos 0)
    mirror_switch_rando ← flag json (codes "mirror_switch_rando") (pos 0)
    some (record {
      ossex_start = ossex_start;
      kear_mode = kear_mode_from_slot_data kear;
      burrow_rando = burrow_rando;
      swim_rando = swim_rando;
      rope_rando = rope_rando;
      puff_rando = puff_rando;
      spring_rando = spring_rando;
      carry_rando = carry_rando;
      train_rando = train_rando;
      train_pass_cost = train_pass_cost;
      deathlink = deathlink;
      max_stat_level = clamp_max_stat_level stat_level;
      goal_config = goal_config;
      goal_generators = goal_generators;
      broken_generator_mask = broken_mask json;
      goal_bosses = goal_bosses;
      wallet_cap = wallet_cap;
      mirror_switch_rando = mirror_switch_rando;
      lit_generator_lamp_mask =
          lit_mask_from_indices (integers get_int (array_or_empty json (codes "lit_generators"))) 0;
      removed_locations = integers get_int64 (array_or_empty json (codes "removed_locations"));
    })
