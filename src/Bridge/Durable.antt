-- ===== src/Bridge/Durable.antt =====
-- `on_location_collected` of src/mth/core/rando_bridge.cpp and the text that the save hands to its
-- store.
use mth_apclient.Base.IntSet
use mth_apclient.Base.IntSet.{insert-IsSorted, contains-insert}
use mth_apclient.Base.Decimal.{IsInt32}
use mth_apclient.Ap.SaveState.RoundTrip.{IsStored, deserialize-serialize}
use mth_apclient.Base.{◌≡◌, true, false, some, List, [], ◌∷◌, arith, ℤ, All, refl, eqb_ℤ_refl}
use mth_apclient.Bridge.{
  on_location_collected, RandoBridge, record_slot, send_if_connected, call_link,
}
use mth_apclient.Bridge.Dedup.{is_open}
use mth_apclient.Ap.SaveState.{mark_checked, deserialize, is_checked, serialize, ApSaveState, stage}
use mth_apclient.Bundle.Sessions.{store}

insert-All32 : (v : ℤ) (vs : List ℤ) → IsInt32 v → All IsInt32 vs → All IsInt32 (IntSet.insert v vs)
unfolding IntSet.insert
insert-All32 v [] h hs = (h, tt)
insert-All32 v (x ∷ vs) h (k, ks) = ground (arith, insert-All32 v vs h ks)

mark_checked-IsStored :
    (slot : ℤ) (s : ApSaveState) → IsInt32 slot → IsStored s → IsStored (mark_checked slot s)
unfolding mark_checked
mark_checked-IsStored slot s h v = record {
  checked_sorted = insert-IsSorted slot s.checked v.checked_sorted;
  granted_sorted = v.granted_sorted;
  checked_ints = insert-All32 slot s.checked h v.checked_ints;
  granted_ints = v.granted_ints;
  slot_int = v.slot_int;
}

collect_save :
    (slot : ℤ) (b : RandoBridge) (save : ApSaveState)
    → b.save ≡ some save
    → is_open b slot ≡ true
    → is_checked save slot ≡ false
    → (on_location_collected slot b).save ≡ some (stage (mark_checked slot save))
unfolding on_location_collected record_slot send_if_connected call_link
collect_save slot b save e opened new = ground arith

mark_checked-staged :
    (slot : ℤ) (s : ApSaveState)
    → ((mark_checked slot s).staged ≡ s.staged) × ((mark_checked slot s).has_store ≡ s.has_store)
unfolding mark_checked
mark_checked-staged slot s = (refl, refl)

is_checked-marked : (slot : ℤ) (s : ApSaveState) → is_checked (mark_checked slot s) slot ≡ true
unfolding mark_checked
is_checked-marked slot s = ground (arith, contains-insert slot slot s.checked, eqb_ℤ_refl slot)

-- A new check with a save attached hands the store a text from which a later load, into any state,
-- gives a save that has the slot checked. The slot is a location of the seed that is not pruned,
-- within 32 bits; the save has a store, and its sets are in order without repetition and 32-bit.
pub collect_staged :
    (slot : ℤ) (b : RandoBridge) (save loaded : ApSaveState)
    → b.save ≡ some save
    → save.has_store ≡ true
    → IsStored save
    → IsInt32 slot
    → is_open b slot ≡ true
    → is_checked save slot ≡ false
    → let after = stage (mark_checked slot save) in
      ((on_location_collected slot b).save ≡ some after)
      × (after.staged ≡ serialize (mark_checked slot save) ∷ save.staged)
      × (is_checked (deserialize (serialize (mark_checked slot save)) loaded) slot ≡ true)
unfolding stage
collect_staged slot b save loaded e store v int opened new = (
  collect_save slot b save e opened new,
  ground (arith, mark_checked-staged slot save),
  rw (deserialize-serialize (mark_checked slot save) loaded (mark_checked-IsStored slot save int v))
      (ground (arith, is_checked-marked slot save)),
)
