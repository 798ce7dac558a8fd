-- ===== src/Ap/SaveState.antt =====
-- src/mth/core/ap/ap_save_state.hpp and ap_save_state.cpp: `ApSaveState`, the durable state of one
-- run. The store seam keeps every text that was handed to it, newest first; a state without a store
-- function keeps none. The read loop runs on fuel above the length of the text, which is enough
-- since each round reads at least two characters.
pub mod RoundTrip
pub mod Fuel
use mth_apclient.Base.IntSet
use mth_apclient.Base.Decimal.{to_string, read_char, read_int}
use mth_apclient.Base.{
  ℕ, zero, suc, Bool, Option, none, some, List, [], ◌∷◌, ◌++◌, ◌==◌, if◌then◌else◌, length, ℤ, pos,
  negsuc, leb_ℤ, Bytes,
}

pub record ApSaveState : Type 0 where
  pub checked : List ℤ
  pub granted : List ℤ
  pub game_slot : ℤ
  pub has_store : Bool
  pub staged : List Bytes

unfoldable pub records : ℕ → List ℤ → Bytes
records tag [] = []
records tag (v ∷ vs) = (tag ∷ b' ' ∷ to_string v) ++ b'\n' ∷ records tag vs

unfoldable pub slot_record : ℤ → Bytes
slot_record slot = if leb_ℤ (pos 0) slot then (b's' ∷ b' ' ∷ to_string slot) ++ b'\n' ∷ [] else []

unfoldable pub serialize : ApSaveState → Bytes
unfolding records slot_record
serialize s = records b'c' s.checked ++ records b'g' s.granted ++ slot_record s.game_slot

-- One round's effect; an unknown tag has none.
unfoldable pub read_record : ℕ → ℤ → ApSaveState → ApSaveState
read_record tag value s =
    if tag == b'c'
    then record s { checked = IntSet.insert value s.checked }
    else if tag == b'g'
    then record s { granted = IntSet.insert value s.granted }
    else if tag == b's'
    then record s { game_slot = value }
    else s

-- `while (in >> tag >> value)`.
unfoldable pub read_records : ℕ → Bytes → ApSaveState → ApSaveState
read_records zero text s = s
read_records (suc fuel) text s = elim (read_char text) [
  | none ↦ s
  | some (tag, after_tag) ↦ elim (read_int after_tag) [
    | none ↦ s
    | some (value, rest) ↦ read_records fuel rest (read_record tag value s)
  ]
]

unfoldable pub deserialize : Bytes → ApSaveState → ApSaveState
deserialize text s =
    read_records (suc (length text)) text
      (record s { checked = []; granted = []; game_slot = negsuc 0 })

-- The constructor: `load` is what the load function returned, if there is one.
unfoldable pub construct : Option Bytes → Bool → ApSaveState
construct load has_store =
    let fresh : ApSaveState = record {
      checked = [];
      granted = [];
      game_slot = negsuc 0;
      has_store = has_store;
      staged = [];
    } in
    elim load [ none ↦ fresh | some text ↦ deserialize text fresh ]

abbrev pub is_checked : ApSaveState → ℤ → Bool
is_checked s location_index = IntSet.contains s.checked location_index

abbrev pub is_granted : ApSaveState → ℤ → Bool
is_granted s item_index = IntSet.contains s.granted item_index

unfoldable pub mark_checked : ℤ → ApSaveState → ApSaveState
mark_checked location_index s = record s { checked = IntSet.insert location_index s.checked }

unfoldable pub mark_granted : ℤ → ApSaveState → ApSaveState
mark_granted item_index s = record s { granted = IntSet.insert item_index s.granted }

unfoldable pub set_game_slot : ℤ → ApSaveState → ApSaveState
set_game_slot slot s = record s { game_slot = slot }

unfoldable pub stage : ApSaveState → ApSaveState
stage s = if s.has_store then record s { staged = serialize s ∷ s.staged } else s
