-- ===== src/Zip/Read.antt =====
-- `read` of src/mth/core/save/zip_archive.cpp. `refuse` is the return of `nullopt` under its test.
use mth_apclient.Base.{
  ◌>>=◌, ◌>>◌, ℕ, zero, suc, ◌+◌, ◌-◌, ◌/◌, ◌%◌, Bool, ◌&&◌, ◌||◌, not, Option, none, some, List,
  [], ◌∷◌, ltb, leb, ◌==◌, if◌then◌else◌, length, take, drop, Bytes, refuse,
}
use mth_apclient.Zip.{
  Zlib, Entry, get16, max_deflate_ratio, max_entry_size, central_sig, deflate_method, local_sig,
  name_is_safe, central_header_size, eocd_sig, inflate_raw, get32, store_method, eocd_size,
  local_header_size,
}

-- The scan back for the end record, from the position below `i` down to `limit`.
unfoldable pub find_end : Bytes → ℕ → ℕ → Option ℕ
find_end image limit zero = none
find_end image limit (suc i) =
    let back = find_end image limit i in
    if ltb limit (suc i) then (if get32 image i == eocd_sig then some i else back) else none

unfoldable pub scan_limit : Bytes → ℕ
scan_limit image =
    if leb (0xFFFF + eocd_size) (length image) then length image - (0xFFFF + eocd_size) else 0

-- The fields of a central record.
pub record Central : Type 0 where
  pub flags : ℕ
  pub method : ℕ
  pub crc : ℕ
  pub comp_size : ℕ
  pub raw_size : ℕ
  pub name_len : ℕ
  pub extra_len : ℕ
  pub comment_len : ℕ
  pub local_off : ℕ

unfoldable pub central_at : Bytes → ℕ → Central
central_at image p = record {
  flags = get16 image (p + 8);
  method = get16 image (p + 10);
  crc = get32 image (p + 16);
  comp_size = get32 image (p + 20);
  raw_size = get32 image (p + 24);
  name_len = get16 image (p + 28);
  extra_len = get16 image (p + 30);
  comment_len = get16 image (p + 32);
  local_off = get32 image (p + 42);
}

-- `image.substr(p, n)` where it lies within.
abbrev pub slice : Bytes → ℕ → ℕ → Bytes
slice image p n = take n (drop p image)

-- The tests of the central record's sizes.
unfoldable pub sizes_refused : Central → Bool
sizes_refused c =
    (c.comp_size == 0xFFFFFFFF)
    || ((c.raw_size == 0xFFFFFFFF)
        || ((c.local_off == 0xFFFFFFFF)
            || ((ltb max_entry_size c.raw_size || ltb max_entry_size c.comp_size)
                || ((not (c.raw_size == 0) && (c.comp_size == 0))
                    || ltb c.comp_size (c.raw_size / max_deflate_ratio)))))

module _ (z : Zlib) where
  -- The content by the method, or the refusal of it.
  unfoldable pub unpack : Central → Bytes → Option Bytes
  unpack c stored =
      if c.method == store_method
      then (if not (c.comp_size == c.raw_size) then none else some stored)
      else if c.method == deflate_method
      then inflate_raw z stored c.raw_size
      else none

  -- A round of the loop: the entry, and the position of the next record.
  unfoldable pub read_entry : Bytes → ℕ → Option (Entry × ℕ)
  read_entry image p = do
    refuse (ltb (length image) (p + central_header_size) || not (get32 image p == central_sig))
    let c = central_at image p
    refuse (not (c.flags % 2 == 0))
    refuse (sizes_refused c)
    refuse (ltb (length image) (p + central_header_size + c.name_len))
    let name = slice image (p + central_header_size) c.name_len
    refuse (not (name_is_safe name))
    refuse (
        ltb (length image) (c.local_off + local_header_size)
        || not (get32 image c.local_off == local_sig))
    let data_off =
        c.local_off
        + local_header_size
        + get16 image (c.local_off + 26)
        + get16 image (c.local_off + 28)
    refuse (ltb (length image) (data_off + c.comp_size))
    content ← unpack c (slice image data_off c.comp_size)
    refuse (not (z.crc32 content == c.crc))
    some (
      record { name = name; content = content },
      p + central_header_size + c.name_len + c.extra_len + c.comment_len,
    )

  unfoldable pub read_entries : Bytes → ℕ → ℕ → Option (List Entry)
  read_entries image zero p = some []
  read_entries image (suc n) p = do
    (entry, next) ← read_entry image p
    entries ← read_entries image n next
    some (entry ∷ entries)

  -- The directory behind the end record at `eocd`.
  unfoldable pub read_directory : Bytes → ℕ → Option (List Entry)
  read_directory image eocd = do
    refuse (not (get16 image (eocd + 4) == 0) || not (get16 image (eocd + 6) == 0))
    let count = get16 image (eocd + 10)
    refuse (count == 0xFFFF)
    let cd_size = get32 image (eocd + 12)
    let cd_offset = get32 image (eocd + 16)
    refuse ((cd_offset == 0xFFFFFFFF) || (cd_size == 0xFFFFFFFF))
    refuse (ltb (length image) (cd_offset + cd_size))
    read_entries image count cd_offset

  unfoldable pub read : Bytes → Option (List Entry)
  read image = do
    refuse (ltb (length image) eocd_size)
    eocd ← find_end image (scan_limit image) (length image - eocd_size + 1)
    read_directory image eocd
