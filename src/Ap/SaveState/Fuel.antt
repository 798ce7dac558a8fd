-- ===== src/Ap/SaveState/Fuel.antt =====
-- The fuel of the record loop of src/mth/core/ap/ap_save_state.cpp.
use mth_apclient.Base.Decimal.Lengths.{read_char-length, read_int-length}
use mth_apclient.Base.Decimal.{read_char, read_int}
use mth_apclient.Base.{
  ℕ, zero, suc, ◌+◌, ◌<◌, ◌≡◌, inl, inr, refl, [], arith, length, negsuc, Option-cases, Bytes,
}
use mth_apclient.Ap.SaveState.{deserialize, read_records, read_record, ApSaveState}

same_result :
    (n m : ℕ) (text : Bytes) (s : ApSaveState)
    → length text < n
    → length text < m
    → read_records n text s ≡ read_records m text s
unfolding read_records
same_result zero m text s h k = ground arith
same_result (suc n) zero text s h k = ground arith
same_result (suc n) (suc m) text s h k = elim (Option-cases (read_char text)) [
  | inl e ↦ rw (e, read_records) refl
  | inr ((tag, after), e) ↦ elim (Option-cases (read_int after)) [
    | inl f ↦ rw (e, f, read_records) refl
    | inr ((value, rest), f) ↦
        let shorter = read_char-length text tag after e in
        let no_longer = read_int-length after value rest f in
        rw (e, f, read_records)
          (same_result n m rest (read_record tag value s) (omega (arith, shorter, no_longer, h))
            (omega (arith, shorter, no_longer, k)))
  ]
]

-- Reading a text, well formed or not, ends where the source's loop ends: more fuel than
-- `deserialize` gives changes nothing.
deserialize-fuel :
    (extra : ℕ) (text : Bytes) (s : ApSaveState)
    → read_records
        (extra + suc (length text))
        text
        (record s { checked = []; granted = []; game_slot = negsuc 0 })
      ≡ deserialize text s
unfolding deserialize
deserialize-fuel extra text s = same_result _ _ text _ (omega arith) (omega arith)
