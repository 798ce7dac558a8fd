-- ===== src/SlotData/Bounds.antt =====
-- Ranges of what `parse_slot_data` of src/mth/core/ap/slot_data.cpp gives.
use mth_apclient.SlotData.{
  add_lamp, lit_mask_from_indices, generator_save_bit, add_generator, parse_slot_data, broken_mask,
  find_array, generator_mask_of, array_or_empty, integers,
}
use mth_apclient.Base.{
  ℕ, zero, suc, ◌*◌, ◌^◌, ◌%◌, ◌<◌, ◌≡◌, refl, Bool, true, ◌&&◌, List, [], ◌∷◌, arith, ltb, ◌==◌,
  get_or, ℤ, pos, negsuc, ltb→lt, ◌-◌, ◌/◌, ◌⊎◌, inl, inr, some, ◌≤ℤ◌, Option-cases, ==_iff, codes,
  and_parts, OnSome, false, if◌then◌else◌, Bool-cases,
}
use Prim.Native.Nat.{bit_or}
use mathlib.Core.Path.{subst}
use mth_apclient.SlotData.Library.{JsonLibrary}
use mth_apclient.Ap.Events.{SlotDataConfig, default_config}

-- A test that every index below `count` passes, tried from the highest down.
passes : (ℕ → Bool) → ℕ → Bool
passes test zero = true
passes test (suc top) = if test top then passes test top else false

passes-index :
    (test : ℕ → Bool) (count i : ℕ) → i < count → passes test count ≡ true → test i ≡ true
unfolding passes
passes-index test zero i small run = absurd (omega (arith, small))
passes-index test (suc top) i small run = elim (Bool-cases (i == top)) [
  | inl same ↦ ground (arith, same, run)
  | inr other ↦ passes-index test top i (ground (arith, small, other)) (ground (arith, run))
]

-- For each mask of six lamps: setting a lamp's bit stays within six bits.
lamp_fits : ℕ → ℕ → Bool
lamp_fits mask i = ltb (bit_or mask (2 ^ i)) 64

lamps_fit : passes (λ mask. passes (lamp_fits mask) 6) 64 ≡ true
unfolding passes lamp_fits
lamps_fit = refl

lamp_bit : (mask i : ℕ) → mask < 64 → i < 6 → bit_or mask (2 ^ i) < 64
unfolding lamp_fits
lamp_bit mask i small lamp =
    let row = passes-index (λ mask. passes (lamp_fits mask) 6) 64 mask small lamps_fit in
    ltb→lt _ _ (passes-index (lamp_fits mask) 6 i lamp row)

add_lamp-lt : (mask : ℕ) (i : ℤ) → mask < 64 → add_lamp mask i < 64
unfolding add_lamp
add_lamp-lt mask (pos i) h = ground (arith, lamp_bit mask i h)
add_lamp-lt mask (negsuc i) h = ground arith

lit_mask-lt : (indices : List ℤ) (mask : ℕ) → mask < 64 → lit_mask_from_indices indices mask < 64
unfolding lit_mask_from_indices
lit_mask-lt [] mask h = h
lit_mask-lt (i ∷ indices) mask h = lit_mask-lt indices (add_lamp mask i) (add_lamp-lt mask i h)

-- A mask of generator bits: bit 0 is clear, and so are the bits from 7 on.
abbrev pub IsGeneratorMask : ℕ → Type 0
IsGeneratorMask mask = (mask % 2 ≡ 0) × (mask < 128)

-- The same for an even mask of seven bits and a generator's bit.
generator_fits : ℕ → ℕ → Bool
generator_fits half i =
    let bits = bit_or (2 * half) (2 ^ get_or generator_save_bit i 0) in
    (bits % 2 == 0) && ltb bits 128

generators_fit : passes (λ half. passes (generator_fits half) 6) 64 ≡ true
unfolding passes generator_fits
generators_fit = refl

generator_bit :
    (half i : ℕ)
    → half < 64
    → i < 6
    → IsGeneratorMask (bit_or (2 * half) (2 ^ get_or generator_save_bit i 0))
unfolding generator_fits
generator_bit half i small generator =
    let row = passes-index (λ half. passes (generator_fits half) 6) 64 half small generators_fit in
    let bits = bit_or (2 * half) (2 ^ get_or generator_save_bit i 0) in
    let parts =
      and_parts (bits % 2 == 0) (ltb bits 128)
        (passes-index (generator_fits half) 6 i generator row) in
    ((==_iff _ _).0 parts.0, ltb→lt _ _ parts.1)

add_generator-IsGeneratorMask :
    (mask : ℕ) (i : ℤ) → IsGeneratorMask mask → IsGeneratorMask (add_generator mask i)
unfolding add_generator
add_generator-IsGeneratorMask mask (pos i) (even, h) =
    let halved : 2 * (mask / 2) ≡ mask = omega (arith, even) in
    let kept : i < 6 → IsGeneratorMask (bit_or mask (2 ^ get_or generator_save_bit i 0)) = λ small.
      subst (λ m. IsGeneratorMask (bit_or m (2 ^ get_or generator_save_bit i 0))) halved
        (generator_bit (mask / 2) i (omega (arith, h)) small) in
    ground (arith, kept)
add_generator-IsGeneratorMask mask (negsuc i) h = ground arith

generator_mask_of-IsGeneratorMask :
    (indices : List ℤ) (mask : ℕ)
    → IsGeneratorMask mask
    → IsGeneratorMask (generator_mask_of indices mask)
unfolding generator_mask_of
generator_mask_of-IsGeneratorMask [] mask h = h
generator_mask_of-IsGeneratorMask (i ∷ indices) mask h =
    generator_mask_of-IsGeneratorMask indices _ (add_generator-IsGeneratorMask mask i h)

pub record IsBounded (cfg : SlotDataConfig) : Type 0 where
  pub level_least : pos 10 ≤ℤ cfg.max_stat_level
  pub level_most : cfg.max_stat_level ≤ℤ pos 99
  pub lamps : cfg.lit_generator_lamp_mask < 64
  pub generators :
      (cfg.broken_generator_mask ≡ 2 ^ 64 - 1) ⊎ IsGeneratorMask cfg.broken_generator_mask

module _ (lib : JsonLibrary) where
  open lib use {Json, get_int}

  broken_mask-range :
      (json : Json) → (broken_mask lib json ≡ 2 ^ 64 - 1) ⊎ IsGeneratorMask (broken_mask lib json)
  unfolding broken_mask default_config
  broken_mask-range json = elim (Option-cases (find_array lib json (codes "broken_generators"))) [
    | inl e ↦ rw (broken_mask, e, default_config) (inl refl)
    | inr (vs, e) ↦
        rw (broken_mask, e) (inr (generator_mask_of-IsGeneratorMask _ 0 (refl, omega arith)))
  ]

  built-OnSome : (json : Json) → OnSome IsBounded (parse_slot_data lib json)
  unfolding parse_slot_data
  built-OnSome json = ground (
    arith,
    broken_mask-range json,
    lit_mask-lt (integers lib get_int (array_or_empty lib json (codes "lit_generators"))) 0
        (omega arith),
  )

  -- Whatever the server sent, a parse that does not throw has the stat level between 10 and 99,
  -- lamp bits below 6 only, and as the mask of generators that count either all 64 bits, or an
  -- even number below 128, so that neither the bit the game leaves unused nor one past the six
  -- generators counts.
  pub parse_slot_data-IsBounded :
      (json : Json) {cfg : SlotDataConfig} → parse_slot_data lib json ≡ some cfg → IsBounded cfg
  parse_slot_data-IsBounded json h = subst (OnSome IsBounded) h (built-OnSome json)
