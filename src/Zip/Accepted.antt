-- ===== src/Zip/Accepted.antt =====
-- The entries that `read` of src/mth/core/save/zip_archive.cpp accepts from a user-writable image.
use mathlib.Core.Path.{subst}
use mathlib.Core.Option.{some-injective}
use mth_apclient.Base.{
  ◌>>=◌, ◌>>◌, ℕ, zero, suc, ◌≤◌, ◌≡◌, false, some, [], ◌∷◌, arith, length, take, Bytes, refuse,
  ◌+◌, ◌%◌, refl, Bool, ◌||◌, not, Option, ltb, ◌==◌, ap, ◌⊎◌, inl, inr, true, none, if◌then◌else◌,
  drop, ==_iff, refuse-passed, ◌&&◌, List, All, and_parts, bind-passed, ◌-◌,
}
use mth_apclient.Zip.{
  inflate_raw, max_entry_size, Entry, Zlib, get16, central_sig, local_sig, get32, name_is_safe,
  store_method, deflate_method,
}
use mth_apclient.Zip.Safe.{IsInside, name_is_safe-IsInside}
use mth_apclient.Zip.Read.{
  unpack, Central, sizes_refused, read_entry, slice, central_at, read, read_entries, read_directory,
  find_end, scan_limit,
}

abbrev pub IsAccepted : Entry → Type 0
IsAccepted e = IsInside e.name × (length e.content ≤ max_entry_size)

length-take : (n : ℕ) (s : Bytes) → length (take n s) ≤ n
length-take zero s = omega arith
length-take (suc n) [] = omega arith
length-take (suc n) (c ∷ s) = omega (arith, length-take n s)

sizes-bound : (c : Central) → sizes_refused c ≡ false → (c.raw_size ≤ max_entry_size)
unfolding sizes_refused
sizes-bound c h = ground arith

stored_passed :
    (a b : Bool) (stored content : Bytes) (other : Option Bytes)
    → (if a then (if not b then none else some stored) else other) ≡ some content
    → ((b ≡ true) × (stored ≡ content)) ⊎ (other ≡ some content)
stored_passed true true stored content other h = inl (refl, some-injective stored content h)
stored_passed true false stored content other h = ground arith
stored_passed false b stored content other h = inr h

pub if_some :
    {A : Type 0} (a : Bool) (m : Option A) (content : A)
    → (if a then m else none) ≡ some content
    → (a ≡ true) × (m ≡ some content)
if_some true m content h = (refl, h)
if_some false m content h = ground arith

-- The two exits of `inflate_raw`, by the stream's answer.
inflate_passed :
    (expected : ℕ) (content : Bytes) (answer : Option (Bytes × ℕ))
    → (elim answer [
      | none ↦ none
      | some (out, left) ↦ if (length out == expected) && (left == 0) then some out else none
    ])
      ≡ some content
    → length content ≡ expected
inflate_passed expected content none h = ground arith
inflate_passed expected content (some (out, left)) h =
    let (full, same) = if_some ((length out == expected) && (left == 0)) (some out) content h in
    let exact = (and_parts (length out == expected) (left == 0) full).0 in
    omega
      (arith, ap length (some-injective out content same), (==_iff (length out) expected).0 exact)

pub else_passed : {A : Type 0} (a : Bool) (x y c : A) → a ≡ false → (if a then x else y) ≡ c → y ≡ c
else_passed true x y c e h = ground arith
else_passed false x y c e h = h

inflate_raw-length :
    (z : Zlib) (stored : Bytes) (expected : ℕ) (content : Bytes)
    → inflate_raw z stored expected ≡ some content
    → length content ≡ expected
unfolding inflate_raw
inflate_raw-length z stored zero content h = omega (arith, ap length (some-injective [] content h))
inflate_raw-length z stored (suc n) content h =
    let e : (suc n == 0) ≡ false = ground arith in
    inflate_passed (suc n) content (z.inflate stored (suc n))
      (else_passed (suc n == 0) (some []) _ (some content) e h)

unpack-size :
    (z : Zlib) (c : Central) (stored content : Bytes)
    → length stored ≤ c.comp_size
    → unpack z c stored ≡ some content
    → length content ≤ c.raw_size
unfolding unpack
unpack-size z c stored content short h =
    elim (stored_passed (c.method == store_method) (c.comp_size == c.raw_size) stored content
      (if c.method == deflate_method then inflate_raw z stored c.raw_size else none) h) [
        | inl (e, same) ↦ omega (arith, short, ap length same, (==_iff c.comp_size c.raw_size).0 e)
        | inr other ↦
            let inflated =
              (if_some (c.method == deflate_method) (inflate_raw z stored c.raw_size) content
                other).1 in
            omega (arith, inflate_raw-length z stored c.raw_size content inflated)
      ]

-- The chain of a round, of which the tests before the content are `t1` to `t7`.
round_passed :
    (t1 t2 t3 t4 t5 t6 t7 : Bool) (m : Option Bytes) (t8 : Bytes → Bool) (r : Bytes → Entry × ℕ)
    (e : Entry × ℕ)
    → (do
      refuse t1
      refuse t2
      refuse t3
      refuse t4
      refuse t5
      refuse t6
      refuse t7
      content ← m
      refuse (t8 content)
      some (r content))
      ≡ some e
    → (t3 ≡ false) × (t5 ≡ false) × (content : Bytes) × (m ≡ some content) × (r content ≡ e)
round_passed false false false false false false false (some c) t8 r e h =
    (refl, refl, c, refl, some-injective (r c) e (refuse-passed (t8 c) (some (r c)) h).1)
round_passed false false false false false false false none t8 r e h = ground arith
round_passed false false false false false false true m t8 r e h = ground arith
round_passed false false false false false true t7 m t8 r e h = ground arith
round_passed false false false false true t6 t7 m t8 r e h = ground arith
round_passed false false false true t5 t6 t7 m t8 r e h = ground arith
round_passed false false true t4 t5 t6 t7 m t8 r e h = ground arith
round_passed false true t3 t4 t5 t6 t7 m t8 r e h = ground arith
round_passed true t2 t3 t4 t5 t6 t7 m t8 r e h = ground arith

read_entry-IsAccepted :
    (z : Zlib) (image : Bytes) (p : ℕ) (e : Entry × ℕ)
    → read_entry z image p ≡ some e
    → IsAccepted (e.0)
unfolding read_entry
read_entry-IsAccepted z image p e h =
    let c = central_at image p in
    let name = slice image (p + 46) c.name_len in
    let at = c.local_off + 30 + get16 image (c.local_off + 26) + get16 image (c.local_off + 28) in
    let (sizes, safe, content, unpacked, same) =
      round_passed (ltb (length image) (p + 46) || not (get32 image p == central_sig))
        (not (c.flags % 2 == 0)) (sizes_refused c) (ltb (length image) (p + 46 + c.name_len))
        (not (name_is_safe name))
        (ltb (length image) (c.local_off + 30) || not (get32 image c.local_off == local_sig))
        (ltb (length image) (at + c.comp_size)) (unpack z c (slice image at c.comp_size))
        (λ content. not (z.crc32 content == c.crc))
        (λ content. (
          record { name = name; content = content },
          p + 46 + c.name_len + c.extra_len + c.comment_len,
        ))
        e h in
    subst (λ r. IsAccepted (r.0)) same
      (
        name_is_safe-IsInside name (not_false (name_is_safe name) safe),
        (let size =
              unpack-size z c (slice image at c.comp_size) content
                (length-take c.comp_size (drop at image)) unpacked in
            let small = sizes-bound c sizes in omega (arith, size, small)),
      )
  where
    not_false : (a : Bool) → not a ≡ false → a ≡ true
    not_false a h = ground arith

read_entries-IsAccepted :
    (z : Zlib) (image : Bytes) (n p : ℕ) (entries : List Entry)
    → read_entries z image n p ≡ some entries
    → All IsAccepted entries
unfolding read_entries
read_entries-IsAccepted z image zero p entries h =
    subst (All IsAccepted) (some-injective [] entries h) tt
read_entries-IsAccepted z image (suc n) p entries h =
    let ((entry, next), one, h1) =
      bind-passed (read_entry z image p)
        (λ r. read_entries z image n (r.1) >>= λ es. some (r.0 ∷ es)) h in
    let (rest, more, h2) = bind-passed (read_entries z image n next) (λ es. some (entry ∷ es)) h1 in
    subst (All IsAccepted) (some-injective (entry ∷ rest) entries h2) (
      read_entry-IsAccepted z image p (entry, next) one,
      read_entries-IsAccepted z image n next rest more,
    )

-- The chain of the end record's tests.
directory_passed :
    {A : Type 0} (t1 t2 t3 t4 : Bool) (m : Option A) (a : A)
    → (do refuse t1; refuse t2; refuse t3; refuse t4; m) ≡ some a
    → m ≡ some a
directory_passed false false false false m a h = h
directory_passed false false false true m a h = ground arith
directory_passed false false true t4 m a h = ground arith
directory_passed false true t3 t4 m a h = ground arith
directory_passed true t2 t3 t4 m a h = ground arith

read_directory-IsAccepted :
    (z : Zlib) (image : Bytes) (eocd : ℕ) (entries : List Entry)
    → read_directory z image eocd ≡ some entries
    → All IsAccepted entries
unfolding read_directory
read_directory-IsAccepted z image eocd entries h =
    let count = get16 image (eocd + 10) in
    let cd_size = get32 image (eocd + 12) in
    let cd_offset = get32 image (eocd + 16) in
    read_entries-IsAccepted z image count cd_offset entries (
      directory_passed (not (get16 image (eocd + 4) == 0) || not (get16 image (eocd + 6) == 0))
        (count == 0xFFFF) ((cd_offset == 0xFFFFFFFF) || (cd_size == 0xFFFFFFFF))
        (ltb (length image) (cd_offset + cd_size)) (read_entries z image count cd_offset) entries h)

-- Whatever the bytes of the image, and whatever zlib answers, each entry that `read` accepts has a
-- name that is not empty, does not begin with a slash, has no backslash, colon or zero byte and no
-- component "..", and a content of at most 256 MB.
pub read-IsAccepted :
    (z : Zlib) (image : Bytes) (entries : List Entry)
    → read z image ≡ some entries
    → All IsAccepted entries
unfolding read
read-IsAccepted z image entries h =
    let found = find_end image (scan_limit image) (length image - 22 + 1) in
    let (room, h1) = refuse-passed (ltb (length image) 22) (found >>= read_directory z image) h in
    let (eocd, at, h2) = bind-passed found (read_directory z image) h1 in
    read_directory-IsAccepted z image eocd entries h2
