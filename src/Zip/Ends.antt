-- ===== src/Zip/Ends.antt =====
-- The end record of an image: the scan for it, and `read`'s tests of it, in
-- src/mth/core/save/zip_archive.cpp.
use mth_apclient.Base.{
  ℕ, suc, ◌+◌, ◌-◌, ◌≤◌, ◌<◌, ◌≡◌, ◌∙◌, ap, refl, false, ◌||◌, some, ◌++◌, arith, ltb, ◌==◌, length,
  ltb-ge, lt→ltb, length-append, Bytes,
}
use mth_apclient.Zip.{get32, Zlib, get16, eocd_sig, eocd_size}
use mth_apclient.Logs.{size}
use mth_apclient.Zip.Read.{read_entries, scan_limit, find_end, read_directory, read}
use mth_apclient.Zip.Entries.{get32-append_start}
use mth_apclient.Zip.Write.{end_record}
use mth_apclient.Zip.Fields.{get16-append, join16, get32-append, join32}

find_end-found :
    (image : Bytes) (limit i : ℕ)
    → limit ≤ i
    → get32 image i ≡ eocd_sig
    → find_end image limit (suc i) ≡ some i
unfolding find_end
find_end-found image limit i below here =
    rw (lt→ltb limit (suc i) (omega (arith, below)), here) refl

scan_limit-below : (image : Bytes) → eocd_size ≤ length image → scan_limit image ≤ length image - 22
unfolding scan_limit
scan_limit-below image h = ground arith

length-end : (count size offset : ℕ) → length (end_record count size offset) ≡ eocd_size
unfolding end_record
length-end count size offset = refl

module _ (pre : Bytes) (count size offset : ℕ) where
  abbrev image : Bytes
  image = pre ++ end_record count size offset

  length-image : length image ≡ length pre + eocd_size
  length-image =
      omega (arith, length-append pre (end_record count size offset), length-end count size offset)

  end_found : find_end image (scan_limit image) (length image - 22 + 1) ≡ some (length pre)
  end_found =
      let n = length-image in
      let at : length image - 22 + 1 ≡ suc (length pre) = omega (arith, n) in
      ap (find_end image (scan_limit image)) at
      ∙ find_end-found image (scan_limit image) (length pre)
          (omega (arith, n, scan_limit-below image (omega (arith, n))))
          (get32-append_start pre (end_record count size offset) ∙ unfold get32 end_record in refl)

  module _ (few : count < 0xFFFF) (small : size + offset < 0xFFFFFFFF) where
    end_disk : get16 image (length pre + 4) ≡ 0
    end_disk = get16-append pre (end_record count size offset) 4 ∙ unfold get16 end_record in refl

    end_directory_disk : get16 image (length pre + 6) ≡ 0
    end_directory_disk =
        get16-append pre (end_record count size offset) 6 ∙ unfold get16 end_record in refl

    end_count : get16 image (length pre + 10) ≡ count
    end_count =
        get16-append pre (end_record count size offset) 10
        ∙ unfold get16 end_record in join16 count (omega (arith, few))

    end_size : get32 image (length pre + 12) ≡ size
    end_size =
        get32-append pre (end_record count size offset) 12
        ∙ unfold get32 end_record in join32 size (omega (arith, small))

    end_offset : get32 image (length pre + 16) ≡ offset
    end_offset =
        get32-append pre (end_record count size offset) 16
        ∙ unfold get32 end_record in join32 offset (omega (arith, small))

    pub read-end :
        (z : Zlib)
        → offset + size ≤ length pre
        → read z (pre ++ end_record count size offset)
          ≡ read_entries z (pre ++ end_record count size offset) count offset
    unfolding read read_directory
    read-end z within =
        let n = length-image in
        let room : ltb (length image) 22 ≡ false = ltb-ge (length image) 22 (omega (arith, n)) in
        let not_many : (count == 0xFFFF) ≡ false = ground arith in
        let not_long : ((offset == 0xFFFFFFFF) || (size == 0xFFFFFFFF)) ≡ false = ground arith in
        let inside : ltb (length image) (offset + size) ≡ false =
          ltb-ge (length image) (offset + size) (omega (arith, n, within)) in
        rw
          (
            room, end_found, end_disk, end_directory_disk, end_count, not_many, end_size,
            end_offset, not_long, inside,
          )
          refl
