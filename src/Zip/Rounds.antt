-- ===== src/Zip/Rounds.antt =====
-- A round of the loop in `read`, src/mth/core/save/zip_archive.cpp, over the records of a blob.
use mathlib.Core.Path.{subst}
use mth_apclient.Base.{
  ℕ, ◌+◌, ◌^◌, ◌≤◌, ◌<◌, ◌≡◌, ◌∙◌, refl, true, false, some, ◌++◌, arith, ◌==◌, length,
  length-append, Bytes, sym, ◌||◌, not, ltb, ltb-ge,
}
use mth_apclient.Zip.{
  local_header_size, central_header_size, Blob, get16, name_is_safe, local_sig, Zlib, get32,
  central_sig,
}
use mth_apclient.Zip.Read.{sizes_refused, central_at, read_entry, unpack, slice}
use mth_apclient.Zip.Entries.{
  central_at-append, length-central, get32-append_start, length-local, HasRecords, local_stored,
  central_name,
}
use mth_apclient.Zip.Write.{central_record, local_record}
use mth_apclient.Zip.Fields.{Fits, join16, central_fields, written_central, get16-append}

module _ (b : Blob) (offset : ℕ) (fits : Fits b) (near : offset < 2 ^ 32) (pre rest : Bytes) where
  central_read :
      central_at (pre ++ (central_record b offset ++ rest)) (length pre) ≡ written_central b offset
  central_read =
      central_at-append pre (central_record b offset ++ rest)
      ∙ central_fields b offset fits near rest

  central_sig_read : get32 (pre ++ (central_record b offset ++ rest)) (length pre) ≡ central_sig
  central_sig_read =
      get32-append_start pre (central_record b offset ++ rest) ∙ unfold get32 central_record in refl

  central_room :
      length pre + central_header_size + length b.name
      ≤ length (pre ++ (central_record b offset ++ rest))
  central_room = omega (
    arith,
    length-append pre (central_record b offset ++ rest),
    length-append (central_record b offset) rest,
    length-central b offset,
  )

module _ (b : Blob) (fits : Fits b) (pre rest : Bytes) where
  local_sig_read : get32 (pre ++ (local_record b ++ rest)) (length pre) ≡ local_sig
  local_sig_read =
      get32-append_start pre (local_record b ++ rest) ∙ unfold get32 local_record in refl

  local_name_length : get16 (pre ++ (local_record b ++ rest)) (length pre + 26) ≡ length b.name
  local_name_length =
      get16-append pre (local_record b ++ rest) 26
      ∙ unfold get16 local_record in join16 (length b.name) fits.name_fits

  local_extra_length : get16 (pre ++ (local_record b ++ rest)) (length pre + 28) ≡ 0
  local_extra_length =
      get16-append pre (local_record b ++ rest) 28 ∙ unfold get16 local_record in refl

  local_room :
      length pre + local_header_size + length b.name + 0 + length b.stored
      ≤ length (pre ++ (local_record b ++ rest))
  local_room = omega (
    arith,
    length-append pre (local_record b ++ rest),
    length-append (local_record b) rest,
    length-local b,
  )

-- What `read` asks of a blob beside its records.
pub record Readable (z : Zlib) (b : Blob) (offset : ℕ) (content : Bytes) : Type 0 where
  pub fits : Fits b
  pub near : offset < 2 ^ 32
  pub safe : name_is_safe b.name ≡ true
  pub sizes : sizes_refused (written_central b offset) ≡ false
  pub unpacked : unpack z (written_central b offset) b.stored ≡ some content
  pub checked : (z.crc32 content == b.crc32) ≡ true

-- The fields that `read` finds, as equations on the image.
record Found (image : Bytes) (b : Blob) (offset p : ℕ) : Type 0 where
  central : central_at image p ≡ written_central b offset
  central_sig_here : get32 image p ≡ central_sig
  central_within : p + central_header_size + length b.name ≤ length image
  name : slice image (p + central_header_size) (length b.name) ≡ b.name
  local_sig_here : get32 image offset ≡ local_sig
  local_name : get16 image (offset + 26) ≡ length b.name
  local_extra : get16 image (offset + 28) ≡ 0
  local_within : offset + local_header_size + length b.name + 0 + length b.stored ≤ length image
  stored : slice image (offset + local_header_size + length b.name + 0) (length b.stored) ≡ b.stored

found :
    (b : Blob) (image : Bytes) (offset p : ℕ)
    → Fits b
    → offset < 2 ^ 32
    → HasRecords image b offset p
    → Found image b offset p
found b image offset p fits near h = record {
  central =
      at_central (λ i q. central_at i q ≡ written_central b offset)
        (central_read b offset fits near h.before h.after);
  central_sig_here =
      at_central (λ i q. get32 i q ≡ central_sig)
        (central_sig_read b offset fits near h.before h.after);
  central_within =
      at_central (λ i q. q + central_header_size + length b.name ≤ length i)
        (central_room b offset fits near h.before h.after);
  name =
      at_central (λ i q. slice i (q + central_header_size) (length b.name) ≡ b.name)
        (central_name b offset h.before h.after);
  local_sig_here =
      at_local (λ i q. get32 i q ≡ local_sig) (local_sig_read b fits h.local_before h.local_after);
  local_name =
      at_local (λ i q. get16 i (q + 26) ≡ length b.name)
        (local_name_length b fits h.local_before h.local_after);
  local_extra =
      at_local (λ i q. get16 i (q + 28) ≡ 0)
        (local_extra_length b fits h.local_before h.local_after);
  local_within =
      at_local (λ i q. q + local_header_size + length b.name + 0 + length b.stored ≤ length i)
        (local_room b fits h.local_before h.local_after);
  stored =
      at_local
        (λ i q. slice i (q + local_header_size + length b.name + 0) (length b.stored) ≡ b.stored)
        (local_stored b h.local_before h.local_after);
}
  where
    at_central :
        (P : Bytes → ℕ → Type 0)
        → P (h.before ++ (central_record b offset ++ h.after)) (length h.before)
        → P image p
    at_central P x =
        subst (λ i. P i p) (sym h.central_here)
          (subst (P (h.before ++ (central_record b offset ++ h.after))) h.central_position x)

    at_local :
        (P : Bytes → ℕ → Type 0)
        → P (h.local_before ++ (local_record b ++ h.local_after)) (length h.local_before)
        → P image offset
    at_local P x =
        subst (λ i. P i offset) (sym h.local_here)
          (subst (P (h.local_before ++ (local_record b ++ h.local_after))) h.local_position x)

module _ (image : Bytes) (b : Blob) (offset p : ℕ) (f : Found image b offset p) where
  first_test : (ltb (length image) (p + 46) || not (get32 image p == central_sig)) ≡ false
  first_test = let within = f.central_within in let here = f.central_sig_here in ground arith

  second_test : (ltb (length image) (offset + 30) || not (get32 image offset == local_sig)) ≡ false
  second_test = let within = f.local_within in let here = f.local_sig_here in ground arith

pub read_entry-written :
    (z : Zlib) (b : Blob) (image : Bytes) (offset p : ℕ) (content : Bytes)
    → HasRecords image b offset p
    → Readable z b offset content
    → read_entry z image p
      ≡ some (record { name = b.name; content = content }, p + 46 + length b.name + 0 + 0)
unfolding read_entry
read_entry-written z b image offset p content h r =
    let f = found b image offset p r.fits r.near h in
    let central_test : (ltb (length image) (p + 46) || not (get32 image p == central_sig)) ≡ false =
      first_test image b offset p f in
    let name_test : ltb (length image) (p + 46 + length b.name) ≡ false =
      ltb-ge (length image) (p + 46 + length b.name) f.central_within in
    let local_test : (ltb (length image) (offset + 30) || not (get32 image offset == local_sig))
        ≡ false =
      second_test image b offset p f in
    let room_test : ltb (length image) (offset + 30 + length b.name + 0 + length b.stored) ≡ false =
      ltb-ge (length image) (offset + 30 + length b.name + 0 + length b.stored) f.local_within in
    rw
      (
        central_test, f.central, r.sizes, name_test, f.name, r.safe, local_test, f.local_name,
        f.local_extra, room_test, f.stored, r.unpacked, r.checked,
      )
      refl
