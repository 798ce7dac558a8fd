-- ===== src/Ap/SaveState/RoundTrip.antt =====
-- `serialize` and `deserialize` of src/mth/core/ap/ap_save_state.cpp together.
use mth_apclient.Base.IntSet.{IsSorted, insert_all, insert_all-sorted}
use mth_apclient.Base.Decimal.{
  to_string, read_char, read_int, skip_space, is_space, IsInt32, read_int-to_string, take_char,
}
use mth_apclient.Base.{
  ℕ, zero, suc, ◌-◌, ◌≤◌, ◌<◌, ◌≡◌, ◌∙◌, refl, false, some, List, [], ◌∷◌, ◌++◌, arith, length, ℤ,
  pos, negsuc, All, length-append, append-assoc_lem, Bytes, ap, ◌+◌,
}
use mth_apclient.Ap.SaveState.{
  read_records, read_record, records, slot_record, ApSaveState, deserialize, serialize,
}

-- What a `std::set<int>` and an `int` hold: sets in order without repetition, of 32-bit integers, and
-- a 32-bit slot, of either sign.
pub record IsStored (s : ApSaveState) : Type 0 where
  pub checked_sorted : IsSorted s.checked
  pub granted_sorted : IsSorted s.granted
  pub checked_ints : All IsInt32 s.checked
  pub granted_ints : All IsInt32 s.granted
  pub slot_int : IsInt32 s.game_slot

read_records-newline :
    (fuel : ℕ) (text : Bytes) (s : ApSaveState)
    → read_records fuel (b'\n' ∷ text) s ≡ read_records fuel text s
unfolding read_records read_char skip_space
read_records-newline zero text s = refl
read_records-newline (suc fuel) text s = refl

read_int-blank : (text : Bytes) → read_int (b' ' ∷ text) ≡ read_int text
unfolding read_int skip_space
read_int-blank text = refl

read_char-tag :
    (tag : ℕ) (text : Bytes) → is_space tag ≡ false → read_char (tag ∷ text) ≡ some (tag, text)
unfolding read_char skip_space
read_char-tag tag text h = rw h refl

read_records_step :
    (fuel tag : ℕ) (value : ℤ) (text after rest : Bytes) (s : ApSaveState)
    → read_char text ≡ some (tag, after)
    → read_int after ≡ some (value, rest)
    → read_records (suc fuel) text s ≡ read_records fuel rest (read_record tag value s)
unfolding read_records
read_records_step fuel tag value text after rest s e f = rw (e, f, read_records)

-- A record at the front of the text is one round of the loop.
read_records-record :
    (fuel tag : ℕ) (v : ℤ) (rest : Bytes) (s : ApSaveState)
    → is_space tag ≡ false
    → IsInt32 v
    → read_records (suc fuel) ((tag ∷ b' ' ∷ to_string v) ++ b'\n' ∷ rest) s
      ≡ read_records fuel rest (read_record tag v s)
read_records-record fuel tag v rest s blank int =
    read_records_step fuel tag v _ (b' ' ∷ to_string v ++ b'\n' ∷ rest) (b'\n' ∷ rest) s
      (read_char-tag tag (b' ' ∷ to_string v ++ b'\n' ∷ rest) blank)
      (read_int-blank (to_string v ++ b'\n' ∷ rest) ∙ read_int-to_string v (b'\n' ∷ rest) int refl)
    ∙ read_records-newline fuel rest (read_record tag v s)

read_all : ℕ → List ℤ → ApSaveState → ApSaveState
read_all tag [] s = s
read_all tag (v ∷ vs) s = read_all tag vs (read_record tag v s)

fuel_left : (fuel : ℕ) → fuel ≡ fuel - 0
fuel_left fuel = omega arith

fuel_less : (fuel n : ℕ) → fuel - n ≡ suc fuel - suc n
fuel_less fuel n = omega arith

read_records-records :
    (fuel tag : ℕ) (vs : List ℤ) (rest : Bytes) (s : ApSaveState)
    → is_space tag ≡ false
    → All IsInt32 vs
    → length vs ≤ fuel
    → read_records fuel (records tag vs ++ rest) s
      ≡ read_records (fuel - length vs) rest (read_all tag vs s)
unfolding records read_all
read_records-records fuel tag [] rest s blank ints h =
    ap (λ k. read_records k rest s) (fuel_left fuel)
read_records-records zero tag (v ∷ vs) rest s blank ints h = absurd (omega arith)
read_records-records (suc fuel) tag (v ∷ vs) rest s blank (int, ints) h =
    rw (append-assoc_lem (tag ∷ b' ' ∷ to_string v) (b'\n' ∷ records tag vs) rest) (
      read_records-record fuel tag v (records tag vs ++ rest) s blank int
      ∙ read_records-records fuel tag vs rest (read_record tag v s) blank ints (omega arith)
      ∙ ap (λ k. read_records k rest (read_all tag vs (read_record tag v s)))
          (fuel_less fuel (length vs)))

read_all-checked :
    (vs : List ℤ) (s : ApSaveState)
    → read_all b'c' vs s ≡ record s { checked = insert_all vs s.checked }
unfolding read_all read_record insert_all
read_all-checked [] s = refl
read_all-checked (v ∷ vs) s = read_all-checked vs (read_record b'c' v s)

read_all-granted :
    (vs : List ℤ) (s : ApSaveState)
    → read_all b'g' vs s ≡ record s { granted = insert_all vs s.granted }
unfolding read_all read_record insert_all
read_all-granted [] s = refl
read_all-granted (v ∷ vs) s = read_all-granted vs (read_record b'g' v s)

length-records : (tag : ℕ) (vs : List ℤ) → length vs ≤ length (records tag vs)
unfolding records
length-records tag [] = omega arith
length-records tag (v ∷ vs) =
    omega (arith, length-append (to_string v) (b'\n' ∷ records tag vs), length-records tag vs)

read_records-nil : (fuel : ℕ) (s : ApSaveState) → read_records fuel [] s ≡ s
unfolding read_records read_char skip_space take_char
read_records-nil zero s = refl
read_records-nil (suc fuel) s = refl

slot_record-pos : (n : ℕ) → slot_record (pos n) ≡ (b's' ∷ b' ' ∷ to_string (pos n)) ++ b'\n' ∷ []
unfolding slot_record
slot_record-pos n = ground arith

slot_record-negsuc : (n : ℕ) → slot_record (negsuc n) ≡ []
unfolding slot_record
slot_record-negsuc n = ground arith

-- The slot that a reload finds: `serialize` writes no negative slot, and `deserialize` starts at -1.
abbrev pub kept_slot : ℤ → ℤ
kept_slot (pos n) = pos n
kept_slot (negsuc n) = negsuc 0

-- The last record, or none.
read_records-slot :
    (fuel : ℕ) (slot : ℤ) (s : ApSaveState)
    → IsInt32 slot
    → s.game_slot ≡ negsuc 0
    → 0 < fuel
    → read_records fuel (slot_record slot) s ≡ record s { game_slot = kept_slot slot }
unfolding read_record
read_records-slot zero slot s int fresh h = absurd (omega arith)
read_records-slot (suc fuel) (negsuc n) s int fresh h =
    rw slot_record-negsuc (read_records-nil (suc fuel) s ∙ ground (arith, fresh))
read_records-slot (suc fuel) (pos n) s int fresh h = rw slot_record-pos (
    read_records-record fuel b's' (pos n) [] s refl int
    ∙ read_records-nil fuel (record s { game_slot = pos n }))

length-text :
    (s : ApSaveState)
    → length s.checked + length s.granted
      ≤ length (records b'c' s.checked ++ records b'g' s.granted ++ slot_record s.game_slot)
length-text s = omega (
  arith,
  length-append (records b'c' s.checked ++ records b'g' s.granted) (slot_record s.game_slot),
  length-append (records b'c' s.checked) (records b'g' s.granted),
  length-records b'c' s.checked,
  length-records b'g' s.granted,
)

read_back :
    (s t : ApSaveState)
    → IsStored s
    → read_all b'g' s.granted
        (read_all b'c' s.checked (record t { checked = []; granted = []; game_slot = negsuc 0 }))
      ≡ record t { checked = s.checked; granted = s.granted; game_slot = negsuc 0 }
read_back s t v =
    rw (read_all-checked, read_all-granted)
      (rw (
        insert_all-sorted s.checked v.checked_sorted,
        insert_all-sorted s.granted v.granted_sorted,
      ))

-- Reading back what was written gives the checked and granted sets of the state that was written,
-- whatever the reading state held before, and its game slot if that is not negative; a negative one
-- is read back as -1. The sets are in order without repetition, and their elements and the slot are
-- 32-bit integers.
pub deserialize-serialize :
    (s t : ApSaveState)
    → IsStored s
    → deserialize (serialize s) t
      ≡ record t { checked = s.checked; granted = s.granted; game_slot = kept_slot s.game_slot }
unfolding deserialize serialize
deserialize-serialize s t v =
    let empty : ApSaveState = record t { checked = []; granted = []; game_slot = negsuc 0 } in
    let c = records b'c' s.checked in
    let g = records b'g' s.granted in
    let w = slot_record s.game_slot in
    let fuel = suc (length (c ++ g ++ w)) in
    let left = fuel - length s.checked in
    let after_c = read_all b'c' s.checked empty in
    let enough = length-text s in
    ap (λ x. read_records fuel x empty) (append-assoc_lem c g w)
    ∙ read_records-records fuel b'c' s.checked (g ++ w) empty refl v.checked_ints
        (omega (arith, enough))
    ∙ read_records-records left b'g' s.granted w after_c refl v.granted_ints (omega (arith, enough))
    ∙ ap (read_records (left - length s.granted) w) (read_back s t v)
    ∙ read_records-slot (left - length s.granted) s.game_slot _ v.slot_int refl
        (omega (arith, enough))
