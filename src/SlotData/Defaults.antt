-- ===== src/SlotData/Defaults.antt =====
-- `parse_slot_data` of src/mth/core/ap/slot_data.cpp on data that is no object.
use mth_apclient.SlotData.{
  number, flag, find_array, array_or_empty, integers, broken_mask, lit_mask_from_indices,
  parse_slot_data,
}
use mth_apclient.Base.{◌≡◌, false, some, arith}
use mth_apclient.SlotData.Library.{JsonLibrary}
use mth_apclient.Ap.Events.{kear_mode_from_slot_data, default_config}

-- A blob that is no JSON object parses to the default configuration but for the trains: their
-- gate, which the default leaves on, is off.
pub parse_slot_data-non_object :
    (lib : JsonLibrary) (json : lib.Json)
    → lib.is_object json ≡ false
    → parse_slot_data lib json ≡ some (record default_config { train_rando = false })
unfolding parse_slot_data number flag find_array array_or_empty integers broken_mask default_config
    lit_mask_from_indices kear_mode_from_slot_data
parse_slot_data-non_object lib json h = ground arith
