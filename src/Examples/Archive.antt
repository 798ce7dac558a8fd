-- ===== src/Examples/Archive.antt =====
-- Runs of src/mth/core/save/zip_archive.cpp, with a compression library of one stream: that of two
-- zero bytes. Its checksum is the length.
use mth_apclient.Base.{
  List, ◌^◌, ◌%◌, ◌<◌, ◌≡◌, ap, refl, true, ◌&&◌, Option, none, some, [], ◌∷◌, map, arith, ◌==◌,
  if◌then◌else◌, length, All, ==_iff, Bytes, and_parts, ◌++◌,
}
use mth_apclient.Zip.{
  le32, has_byte, Zlib, Entry, compress, parts_safe, le16, deflate_raw, name_is_safe,
}
use mth_apclient.Zip.Packed.{IsFile, IsZlib, pack}
use mth_apclient.Zip.Safe.{name_is_safe-extracted, extracted, windows}
use mth_apclient.Zip.RoundTrip.{read-write}
use mth_apclient.Zip.Read.{read}
use mth_apclient.Zip.Write.{
  write_locals, local_record, write_centrals, write, central_record, end_record,
}
use mth_apclient.Zip.Accepted.{read-IsAccepted, if_some, IsAccepted}

abbrev two_zeros : Bytes → Option Bytes
two_zeros (a ∷ b ∷ []) = if (a == 0) && (b == 0) then some (2 ∷ []) else none
two_zeros _ = none

abbrev pub tiny : Zlib
tiny = record {
  deflate = two_zeros;
  inflate = λ s n. some (0 ∷ 0 ∷ [], 0);
  crc32 = λ s. length s % 2 ^ 32;
}

two_zeros_sound : (s out : Bytes) → two_zeros s ≡ some out → (s ≡ 0 ∷ 0 ∷ [])
two_zeros_sound [] out h = ground arith
two_zeros_sound (a ∷ []) out h = ground arith
two_zeros_sound (a ∷ b ∷ []) out h =
    let (both, same) = if_some ((a == 0) && (b == 0)) (some (2 ∷ [])) out h in
    let (x, y) = and_parts (a == 0) (b == 0) both in rw ((==_iff a 0).0 x, (==_iff b 0).0 y) refl
two_zeros_sound (a ∷ b ∷ c ∷ s) out h = ground arith

pub tiny-IsZlib : IsZlib tiny
tiny-IsZlib = record {
  crc_fits = λ s. omega arith;
  inflate-deflate = λ s out h. rw (two_zeros_sound s out h) refl;
  deflate_ratio = λ s out h. (let e = ap length (two_zeros_sound s out h) in omega (arith, e));
}

abbrev files : List Entry
files =
    record { name = b'm' ∷ []; content = 0 ∷ 0 ∷ [] }
    ∷ record { name = b'p' ∷ b'/' ∷ b'q' ∷ []; content = 5 ∷ 6 ∷ 7 ∷ [] }
    ∷ record { name = b'e' ∷ []; content = [] }
    ∷ []

files-IsFile : All IsFile files
unfolding name_is_safe parts_safe has_byte
files-IsFile = (
  record { safe = refl; size = omega arith },
  (record { safe = refl; size = omega arith }, (record { safe = refl; size = omega arith }, tt)),
)

image-length : length (write (map (pack tiny) files)) < 0xFFFFFFFF
unfolding write write_locals write_centrals local_record central_record end_record compress
    deflate_raw le16 le32
image-length = omega arith

files-read : read tiny (write (map (pack tiny) files)) ≡ some files
files-read = read-write tiny files tiny-IsZlib files-IsFile (omega arith) image-length

read-write_example : read tiny (write (map (pack tiny) files)) ≡ some files
read-write_example = read-write tiny files tiny-IsZlib files-IsFile (omega arith) image-length

read-IsAccepted_example : All IsAccepted files
read-IsAccepted_example = read-IsAccepted tiny (write (map (pack tiny) files)) files files-read

abbrev nested : Bytes
nested = b'p' ∷ b'/' ∷ b'q' ∷ []

abbrev room_dir : List Bytes
room_dir = (b'r' ∷ []) ∷ (b's' ∷ []) ∷ []

nested_safe : name_is_safe nested ≡ true
nested_safe = unfold name_is_safe parts_safe has_byte in refl

name_is_safe-extracted_example :
    (path : List Bytes) × (extracted windows room_dir nested ≡ some (path ++ room_dir))
name_is_safe-extracted_example = name_is_safe-extracted windows room_dir nested nested_safe
