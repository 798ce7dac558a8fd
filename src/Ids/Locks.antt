-- ===== src/Ids/Locks.antt =====
-- The area lock groups of src/mth/core/ap/ap_ids.hpp.
use mth_apclient.Base.{List, [], ◌∷◌, ℤ, pos, ◌+ℤ◌}
use mth_apclient.Ids.Blocks.{kear_block_item_base, area_kear_lock_item_base}

abbrev pub mm_first_double_kear_block_id : ℤ
mm_first_double_kear_block_id = pos 2304

abbrev pub mm_second_double_kear_block_id : ℤ
mm_second_double_kear_block_id = pos 2306

-- An id in the segment of kear blocks, and in that of areas.
abbrev kear_block : ℤ → ℤ
kear_block n = kear_block_item_base +ℤ n

abbrev area_lock : ℤ → ℤ
area_lock n = area_kear_lock_item_base +ℤ n

abbrev pub os_locks : List ℤ
os_locks = kear_block (pos 151) ∷ kear_block (pos 152) ∷ kear_block (pos 157) ∷ []

abbrev pub train_locks : List ℤ
train_locks = kear_block (pos 358) ∷ kear_block (pos 359) ∷ []

abbrev pub ll_locks : List ℤ
ll_locks =
    kear_block (pos 19) ∷ kear_block (pos 20) ∷ kear_block (pos 21) ∷ kear_block (pos 22) ∷ []

abbrev pub so_locks : List ℤ
so_locks = kear_block (pos 260) ∷ kear_block (pos 262) ∷ []

abbrev pub eh_locks : List ℤ
eh_locks =
    kear_block (pos 225) ∷ kear_block (pos 222) ∷ kear_block (pos 224) ∷ kear_block (pos 227) ∷ []

abbrev pub ww_locks : List ℤ
ww_locks = kear_block (pos 246) ∷ kear_block (pos 247) ∷ kear_block (pos 244) ∷ []

abbrev pub mm_locks : List ℤ
mm_locks = kear_block (pos 307) ∷ []

abbrev pub qb_locks : List ℤ
qb_locks = mm_first_double_kear_block_id ∷ mm_second_double_kear_block_id ∷ kear_block (pos 55) ∷ []

abbrev pub bw_locks : List ℤ
bw_locks = kear_block (pos 284) ∷ kear_block (pos 283) ∷ kear_block (pos 285) ∷ []

abbrev pub nb_locks : List ℤ
nb_locks = kear_block (pos 33) ∷ []

abbrev pub kw_locks : List ℤ
kw_locks = kear_block (pos 336) ∷ kear_block (pos 338) ∷ kear_block (pos 337) ∷ []

abbrev pub sf_locks : List ℤ
sf_locks = kear_block (pos 320) ∷ kear_block (pos 321) ∷ kear_block (pos 318) ∷ []

abbrev pub bb_locks : List ℤ
bb_locks = kear_block (pos 69) ∷ []

abbrev pub ctp_locks : List ℤ
ctp_locks = kear_block (pos 115) ∷ kear_block (pos 109) ∷ []

abbrev pub ao_locks : List ℤ
ao_locks = kear_block (pos 277) ∷ kear_block (pos 278) ∷ kear_block (pos 127) ∷ []

abbrev pub rm_locks : List ℤ
rm_locks = kear_block (pos 141) ∷ []

abbrev pub sb_locks : List ℤ
sb_locks = kear_block (pos 96) ∷ []

pub record AreaLockGroup : Type 0 where
  pub item_id : ℤ
  pub locks : List ℤ

abbrev pub area_lock_groups : List AreaLockGroup
area_lock_groups =
    record { item_id = area_lock (pos 9); locks = os_locks }
    ∷ record { item_id = area_lock (pos 10); locks = train_locks }
    ∷ record { item_id = area_lock (pos 7); locks = ll_locks }
    ∷ record { item_id = area_lock (pos 15); locks = so_locks }
    ∷ record { item_id = area_lock (pos 5); locks = eh_locks }
    ∷ record { item_id = area_lock (pos 16); locks = ww_locks }
    ∷ record { item_id = area_lock (pos 8); locks = mm_locks }
    ∷ record { item_id = area_lock (pos 11); locks = qb_locks }
    ∷ record { item_id = area_lock (pos 1); locks = bw_locks }
    ∷ record { item_id = area_lock (pos 2); locks = nb_locks }
    ∷ record { item_id = area_lock (pos 6); locks = kw_locks }
    ∷ record { item_id = area_lock (pos 13); locks = sf_locks }
    ∷ record { item_id = area_lock (pos 3); locks = bb_locks }
    ∷ record { item_id = area_lock (pos 4); locks = ctp_locks }
    ∷ record { item_id = area_lock (pos 0); locks = ao_locks }
    ∷ record { item_id = area_lock (pos 14); locks = sb_locks }
    ∷ record { item_id = area_lock (pos 12); locks = rm_locks }
    ∷ []
