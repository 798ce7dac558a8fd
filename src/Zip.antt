-- ===== src/Zip.antt =====
-- src/mth/core/save/zip_archive.hpp and zip_archive.cpp: the zip container. The compression library
-- zlib is the parameter `Zlib`: what its streams give for a finished input, and its checksum.
-- Sizes and offsets that are cast to 16 or 32 bits are reduced here.
pub mod Write
pub mod Read
pub mod Fields
pub mod Entries
pub mod Rounds
pub mod Image
pub mod Ends
pub mod Packed
pub mod RoundTrip
pub mod Safe
pub mod Accepted
use mth_apclient.Base.{
  ℕ, ◌+◌, ◌*◌, ◌^◌, ◌/◌, ◌%◌, Bool, true, false, ◌&&◌, ◌||◌, not, Option, none, some, [], ◌∷◌, ◌++◌,
  ltb, ◌==◌, if◌then◌else◌, get_or, length, Bytes,
}

-- `deflate` is `none` where the stream cannot be opened or does not end; `inflate` is given the room
-- for its output, and answers with the output and the number of input bytes left at the stream's end.
pub record Zlib : Type 0 where
  pub deflate : Bytes → Option Bytes
  pub inflate : Bytes → ℕ → Option (Bytes × ℕ)
  pub crc32 : Bytes → ℕ

pub record Blob : Type 0 where
  pub name : Bytes
  pub stored : Bytes
  pub crc32 : ℕ
  pub uncompressed_size : ℕ
  pub method : ℕ

pub record Entry : Type 0 where
  pub name : Bytes
  pub content : Bytes

abbrev pub store_method : ℕ
store_method = 0

abbrev pub deflate_method : ℕ
deflate_method = 8

abbrev pub local_sig : ℕ
local_sig = 0x04034b50

abbrev pub central_sig : ℕ
central_sig = 0x02014b50

abbrev pub eocd_sig : ℕ
eocd_sig = 0x06054b50

abbrev pub local_header_size : ℕ
local_header_size = 30

abbrev pub central_header_size : ℕ
central_header_size = 46

abbrev pub eocd_size : ℕ
eocd_size = 22

abbrev pub version_needed : ℕ
version_needed = 20

abbrev pub dos_epoch_date : ℕ
dos_epoch_date = 0x0021

abbrev pub dos_epoch_time : ℕ
dos_epoch_time = 0

abbrev pub max_entry_size : ℕ
max_entry_size = 256 * 1024 * 1024

abbrev pub max_deflate_ratio : ℕ
max_deflate_ratio = 1032

-- What `put16` and `put32` append.
unfoldable pub le16 : ℕ → Bytes
le16 v = v % 256 ∷ v / 256 % 256 ∷ []

unfoldable pub le32 : ℕ → Bytes
le32 v = v % 256 ∷ v / 256 % 256 ∷ v / 65536 % 256 ∷ v / 16777216 % 256 ∷ []

unfoldable pub get16 : Bytes → ℕ → ℕ
get16 s off = get_or s off 0 + 256 * get_or s (off + 1) 0

unfoldable pub get32 : Bytes → ℕ → ℕ
get32 s off =
    get_or s off 0
    + 256 * get_or s (off + 1) 0
    + 65536 * get_or s (off + 2) 0
    + 16777216 * get_or s (off + 3) 0

unfoldable pub has_byte : ℕ → Bytes → Bool
has_byte c [] = false
has_byte c (x ∷ s) = (x == c) || has_byte c s

abbrev pub is_dotdot : Bytes → Bool
is_dotdot (a ∷ b ∷ []) = (a == b'.') && (b == b'.')
is_dotdot _ = false

-- The loop over the parts between slashes; `part` is the part that was begun.
unfoldable pub parts_safe : Bytes → Bytes → Bool
parts_safe part [] = not (is_dotdot part)
parts_safe part (c ∷ s) =
    let ended = parts_safe [] s in
    let longer = parts_safe (part ++ c ∷ []) s in
    if c == b'/' then not (is_dotdot part) && ended else longer

abbrev pub is_nil : Bytes → Bool
is_nil [] = true
is_nil (c ∷ s) = false

unfoldable pub name_is_safe : Bytes → Bool
unfolding has_byte parts_safe
name_is_safe name =
    if is_nil name || ltb 4096 (length name)
    then false
    else if (get_or name 0 0 == b'/') || (get_or name 0 0 == b'\\')
    then false
    else if has_byte b'\\' name
    then false
    else if has_byte b':' name
    then false
    else if has_byte 0 name
    then false
    else parts_safe [] name

module _ (z : Zlib) where
  unfoldable pub deflate_raw : Bytes → Bytes
  deflate_raw text = elim (z.deflate text) [ none ↦ [] | some out ↦ out ]

  unfoldable pub inflate_raw : Bytes → ℕ → Option Bytes
  inflate_raw stored expected =
      if expected == 0 then some [] else elim (z.inflate stored expected) [
        | none ↦ none
        | some (out, left) ↦ if (length out == expected) && (left == 0) then some out else none
      ]

  unfoldable pub compress : Bytes → Bytes → Blob
  unfolding deflate_raw
  compress name text =
      let deflated = deflate_raw text in
      let small = not (is_nil deflated) && ltb (length deflated) (length text) in
      record {
        name = name;
        stored = if small then deflated else text;
        crc32 = z.crc32 text;
        uncompressed_size = length text % 2 ^ 32;
        method = if small then deflate_method else store_method;
      }
