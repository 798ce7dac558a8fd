-- ===== src/Examples/Locks.antt =====
-- The area lock groups of src/mth/core/ap/ap_ids.hpp.
use mth_apclient.Base.{List, ◌≡◌, refl, Bool, true, ◌&&◌, not, [], ◌∷◌, ◌++◌, ℤ, false, ◌||◌, eqb_ℤ}
use mth_apclient.Ids.Blocks.{is_area_lock_item, is_kear_block_item}
use mth_apclient.Ids.Locks.{area_lock_groups, AreaLockGroup}

abbrev all_locks : List AreaLockGroup → List ℤ
all_locks [] = []
all_locks (g ∷ groups) = g.locks ++ all_locks groups

abbrev has : ℤ → List ℤ → Bool
has x [] = false
has x (y ∷ ys) = eqb_ℤ x y || has x ys

-- A block stands in one group only, and each is in the segment of kear blocks.
abbrev is_apart : List ℤ → Bool
is_apart [] = true
is_apart (x ∷ xs) = not (has x xs) && (is_kear_block_item x && is_apart xs)

all_locks_apart : is_apart (all_locks area_lock_groups) ≡ true
all_locks_apart = refl

abbrev all_items : List AreaLockGroup → List ℤ
all_items [] = []
all_items (g ∷ groups) = g.item_id ∷ all_items groups

abbrev are_areas : List ℤ → Bool
are_areas [] = true
are_areas (x ∷ xs) = not (has x xs) && (is_area_lock_item x && are_areas xs)

all_items_areas : are_areas (all_items area_lock_groups) ≡ true
all_items_areas = refl
