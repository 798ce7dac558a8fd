-- ===== src/Zip/Packed.antt =====
-- What `compress` of src/mth/core/save/zip_archive.cpp makes of a file, as `read` finds it.
use mathlib.Core.Path.{subst}
use mth_apclient.Zip.Safe.{length-name_is_safe}
use mth_apclient.Base.{
  and_parts, ◌^◌, ◌/◌, ◌≤◌, ◌<◌, ◌≡◌, ◌⊎◌, inl, inr, refl, true, false, ◌&&◌, not, some, [], ◌∷◌,
  ltb, ◌==◌, length, Bool-cases, Option-cases, Bytes, arith, ltb→lt, ℕ, ap, ◌%◌, sym, none,
  if◌then◌else◌,
}
use mth_apclient.Zip.{
  Zlib, deflate_raw, name_is_safe, max_entry_size, Blob, is_nil, deflate_method, max_deflate_ratio,
  store_method, Entry, compress, inflate_raw,
}
use mth_apclient.Zip.Read.{unpack, Central, sizes_refused}
use mth_apclient.Zip.Fields.{Fits, written_central}
use mth_apclient.Zip.Rounds.{Readable}

-- What the container relies on zlib for: a checksum of 32 bits, that inflating a finished stream
-- into room for the data gives the data and uses the stream up, and deflate's best ratio.
pub record IsZlib (z : Zlib) : Type 0 where
  pub crc_fits : (s : Bytes) → z.crc32 s < 2 ^ 32
  pub inflate-deflate :
      (s out : Bytes) → z.deflate s ≡ some out → z.inflate out (length s) ≡ some (s, 0)
  pub deflate_ratio :
      (s out : Bytes) → z.deflate s ≡ some out → length s / max_deflate_ratio ≤ length out

-- A file that the container can hold.
pub record IsFile (f : Entry) : Type 0 where
  pub safe : name_is_safe f.name ≡ true
  pub size : length f.content ≤ max_entry_size

abbrev pub pack : Zlib → Entry → Blob
pack z f = compress z f.name f.content

-- Either the text itself, or a stream that is shorter.
abbrev Packed : Zlib → Bytes → Blob → Type 0
Packed z text b =
    ((b.method ≡ store_method) × (b.stored ≡ text))
    ⊎ ((out : Bytes) × (b.method ≡ deflate_method)
        × (b.stored ≡ out)
        × (z.deflate text ≡ some out)
        × (length out < length text)
        × ((length out == 0) ≡ false))

is_nil-length : (s : Bytes) → not (is_nil s) ≡ true → (length s == 0) ≡ false
is_nil-length [] h = ground arith
is_nil-length (c ∷ s) h = ground arith

-- The blob by the stream that `deflate_raw` answered with.
abbrev packed_as : Zlib → Bytes → Bytes → Bytes → Blob
packed_as z name text out =
    let small = not (is_nil out) && ltb (length out) (length text) in
    record {
      name = name;
      stored = if small then out else text;
      crc32 = z.crc32 text;
      uncompressed_size = length text % 2 ^ 32;
      method = if small then deflate_method else store_method;
    }

packed_as_cases :
    (z : Zlib) (name text out : Bytes)
    → z.deflate text ≡ some out
    → Packed z text (packed_as z name text out)
packed_as_cases z name text out e =
    elim (Bool-cases (not (is_nil out) && ltb (length out) (length text))) [
      | inl small ↦
          let both = and_parts (not (is_nil out)) (ltb (length out) (length text)) small in
          inr (
            out,
            rw small refl,
            rw small refl,
            e,
            ltb→lt (length out) (length text) both.1,
            is_nil-length out both.0,
          )
      | inr big ↦ inl (rw big refl, rw big refl)
    ]

compress_cases : (z : Zlib) (name text : Bytes) → Packed z text (compress z name text)
unfolding compress deflate_raw
compress_cases z name text = elim (Option-cases (z.deflate text)) [
  | inl e ↦
      subst (λ d. Packed z text (packed_as z name text (elim d [ none ↦ [] | some out ↦ out ])))
        (sym e) (inl (refl, refl))
  | inr (out, e) ↦
      subst (λ d. Packed z text (packed_as z name text (elim d [ none ↦ [] | some out ↦ out ])))
        (sym e) (packed_as_cases z name text out e)
]

==_same : (n : ℕ) → (n == n) ≡ true
==_same n = ground arith

-- What `compress` gives, in the terms of the tests that `read` makes.
record Measured (z : Zlib) (f : Entry) (b : Blob) : Type 0 where
  fits : Fits b
  stored_size : length b.stored ≤ length f.content
  empty : length b.stored ≡ 0 → length f.content ≡ 0
  ratio : length f.content / max_deflate_ratio ≤ length b.stored
  unpacked : (offset : ℕ) → unpack z (written_central b offset) b.stored ≡ some f.content

compress-size :
    (z : Zlib) (name text : Bytes)
    → length text ≤ max_entry_size
    → (compress z name text).uncompressed_size ≡ length text
unfolding compress
compress-size z name text h = omega (arith, h)

module _ (z : Zlib) (lib : IsZlib z) (f : Entry) (file : IsFile f) (b : Blob) where
  module _ (same_name : b.name ≡ f.name) (same_crc : b.crc32 ≡ z.crc32 f.content)
      (same_size : b.uncompressed_size ≡ length f.content) where
    fitting : b.method ≤ deflate_method → length b.stored ≤ length f.content → Fits b
    fitting m s =
        let few = file.size in
        record {
          method_fits = omega (arith, m);
          crc_fits = rw same_crc (lib.crc_fits f.content);
          stored_fits = omega (arith, s, few);
          size_fits = omega (arith, same_size, few);
          name_fits =
              let short = length-name_is_safe f.name file.safe in
              omega (arith, short, ap length same_name);
        }

    Measured-stored : b.method ≡ store_method → b.stored ≡ f.content → Measured z f b
    unfolding unpack
    Measured-stored m s = record {
      fits = fitting (omega (arith, m)) (omega (arith, ap length s));
      stored_size = omega (arith, ap length s);
      empty = λ e. omega (arith, e, ap length s);
      ratio = omega (arith, ap length s);
      unpacked = λ offset. rw (m, s, same_size, ==_same (length f.content)) refl;
    }

    Measured-deflated :
        (out : Bytes)
        → b.method ≡ deflate_method
        → b.stored ≡ out
        → z.deflate f.content ≡ some out
        → length out < length f.content
        → (length out == 0) ≡ false
        → Measured z f b
    unfolding unpack inflate_raw
    Measured-deflated out m s e less some_bytes = record {
      fits = fitting (omega (arith, m)) (omega (arith, ap length s, less));
      stored_size = omega (arith, ap length s, less);
      empty = λ h. (let t = ap length s in ground arith);
      ratio = let r = lib.deflate_ratio f.content out e in omega (arith, r, ap length s);
      unpacked = λ offset.
          let full : (length f.content == 0) ≡ false = ground arith in
          rw
            (
              m,
              s,
              same_size,
              full,
              lib.inflate-deflate f.content out e,
              same_size,
              ==_same (length f.content),
            )
            refl;
    }

compress-Measured : (z : Zlib) → IsZlib z → (f : Entry) → IsFile f → Measured z f (pack z f)
compress-Measured z lib f file =
    let size = compress-size z f.name f.content file.size in
    let b = pack z f in
    elim (compress_cases z f.name f.content) [
      | inl (m, s) ↦
          Measured-stored z lib f file b (unfold compress in refl) (unfold compress in refl) size m
            s
      | inr (out, m, s, e, less, some_bytes) ↦
          Measured-deflated z lib f file b (unfold compress in refl) (unfold compress in refl) size
            out m s e less some_bytes
    ]

sizes_accepted :
    (c : Central)
    → c.raw_size ≤ max_entry_size
    → c.comp_size ≤ c.raw_size
    → (c.comp_size ≡ 0 → c.raw_size ≡ 0)
    → c.raw_size / max_deflate_ratio ≤ c.comp_size
    → c.local_off < 0xFFFFFFFF
    → sizes_refused c ≡ false
unfolding sizes_refused
sizes_accepted c a b d e f = ground arith

pub pack-Readable :
    (z : Zlib) (f : Entry) (offset : ℕ)
    → IsZlib z
    → IsFile f
    → offset < 0xFFFFFFFF
    → Readable z (pack z f) offset f.content
pack-Readable z f offset lib file near =
    let m = compress-Measured z lib f file in
    let size = compress-size z f.name f.content file.size in
    record {
      fits = m.fits;
      near = omega (arith, near);
      safe = unfold compress in file.safe;
      sizes =
          sizes_accepted (written_central (pack z f) offset)
            (let few = file.size in omega (arith, few, size))
            (let s = m.stored_size in omega (arith, s, size))
            (λ h. (let s = m.empty h in omega (arith, s, size)))
            (let s = m.ratio in omega (arith, s, size)) near;
      unpacked = m.unpacked offset;
      checked = unfold compress in ==_same (z.crc32 f.content);
    }
