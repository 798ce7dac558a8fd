-- ===== src/Zip/Fields.antt =====
-- Little-endian fields at a position of an image, src/mth/core/save/zip_archive.cpp.
use mth_apclient.Base.{
  ℕ, zero, suc, ◌+◌, ◌*◌, ◌^◌, ◌/◌, ◌%◌, ◌<◌, ◌≡◌, ap, refl, [], ◌∷◌, ◌++◌, arith, get_or, length,
  Bytes,
}
use mth_apclient.Zip.{get32, Blob, get16}
use mth_apclient.Zip.Read.{Central, central_at}
use mth_apclient.Zip.Write.{central_record}

get_or-append_at :
    (xs ys : Bytes) (i j : ℕ) → j ≡ length xs + i → get_or (xs ++ ys) j 0 ≡ get_or ys i 0
get_or-append_at [] ys i j e = ap (λ k. get_or ys k 0) (omega (arith, e))
get_or-append_at (x ∷ xs) ys i zero e = absurd (omega (arith, e))
get_or-append_at (x ∷ xs) ys i (suc j) e = get_or-append_at xs ys i j (omega (arith, e))

pub get16-append : (xs ys : Bytes) (i : ℕ) → get16 (xs ++ ys) (length xs + i) ≡ get16 ys i
unfolding get16
get16-append xs ys i = omega (
  arith,
  get_or-append_at xs ys i (length xs + i) refl,
  get_or-append_at xs ys (i + 1) (length xs + i + 1) (omega arith),
)

pub get32-append : (xs ys : Bytes) (i : ℕ) → get32 (xs ++ ys) (length xs + i) ≡ get32 ys i
unfolding get32
get32-append xs ys i = omega (
  arith,
  get_or-append_at xs ys i (length xs + i) refl,
  get_or-append_at xs ys (i + 1) (length xs + i + 1) (omega arith),
  get_or-append_at xs ys (i + 2) (length xs + i + 2) (omega arith),
  get_or-append_at xs ys (i + 3) (length xs + i + 3) (omega arith),
)

-- The value of the two bytes, and of the four, that were written for a number.
pub join16 : (v : ℕ) → v < 2 ^ 16 → v % 256 + 256 * (v / 256 % 256) ≡ v
join16 v h = omega (arith, h)

pub join32 :
    (v : ℕ)
    → v < 2 ^ 32
    → v % 256 + 256 * (v / 256 % 256) + 65536 * (v / 65536 % 256) + 16777216 * (v / 16777216 % 256)
      ≡ v
join32 v h = omega (arith, h)

-- What a blob's record can hold.
pub record Fits (b : Blob) : Type 0 where
  pub method_fits : b.method < 2 ^ 16
  pub crc_fits : b.crc32 < 2 ^ 32
  pub stored_fits : length b.stored < 2 ^ 32
  pub size_fits : b.uncompressed_size < 2 ^ 32
  pub name_fits : length b.name < 2 ^ 16

-- The fields that a written central record has.
abbrev pub written_central : Blob → ℕ → Central
written_central b offset = record {
  flags = 0;
  method = b.method;
  crc = b.crc32;
  comp_size = length b.stored;
  raw_size = b.uncompressed_size;
  name_len = length b.name;
  extra_len = 0;
  comment_len = 0;
  local_off = offset;
}

module _ (b : Blob) (offset : ℕ) (fits : Fits b) (near : offset < 2 ^ 32) (rest : Bytes) where
  pub central_fields : central_at (central_record b offset ++ rest) 0 ≡ written_central b offset
  unfolding central_at get16 get32 central_record
  central_fields =
      let open_fits = fits in
      rw
        (
          join16 b.method fits.method_fits,
          join32 b.crc32 fits.crc_fits,
          join32 (length b.stored) fits.stored_fits,
          join32 b.uncompressed_size fits.size_fits,
          join16 (length b.name) fits.name_fits,
          join32 offset near,
        )
        refl
