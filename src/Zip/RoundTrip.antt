-- ===== src/Zip/RoundTrip.antt =====
-- `read` over what `write` makes of compressed files, src/mth/core/save/zip_archive.cpp.
use mathlib.Core.Path.{subst}
use mth_apclient.Base.{
  List, ℕ, suc, ◌+◌, ◌^◌, ◌%◌, ◌≤◌, ◌<◌, ◌≡◌, ◌∙◌, ap, sym, refl, some, [], ◌∷◌, ◌++◌, map, arith,
  length, All, length-append, append-assoc_lem, Bytes,
}
use mth_apclient.Zip.{Zlib, Entry, Blob, compress}
use mth_apclient.Zip.Packed.{pack, IsZlib, pack-Readable, IsFile}
use mth_apclient.Zip.Read.{read, read_entries}
use mth_apclient.Zip.Image.{locals, centrals, image_of, length-write, write-image_of}
use mth_apclient.Zip.Rounds.{read_entry-written}
use mth_apclient.Zip.Entries.{length-central, HasRecords}
use mth_apclient.Zip.Write.{write, local_record, central_record, end_record}
use mth_apclient.Zip.Ends.{read-end}

-- The image around the blobs that the loop has still to read.
record Around (image : Bytes) (bs : List Blob) (k p : ℕ) : Type 0 where
  local_before : Bytes
  local_after : Bytes
  central_before : Bytes
  central_after : Bytes
  local_here : image ≡ local_before ++ (locals bs ++ local_after)
  local_position : length local_before ≡ k
  central_here : image ≡ central_before ++ (centrals k bs ++ central_after)
  central_position : length central_before ≡ p

Around-head :
    (image : Bytes) (b : Blob) (bs : List Blob) (k p : ℕ)
    → k < 2 ^ 32
    → Around image (b ∷ bs) k p
    → HasRecords image b k p
unfolding locals centrals
Around-head image b bs k p near a =
    let same : k % 2 ^ 32 ≡ k = omega (arith, near) in
    record {
      before = a.central_before;
      after = centrals (k + length (local_record b)) bs ++ a.central_after;
      local_before = a.local_before;
      local_after = locals bs ++ a.local_after;
      central_here =
          a.central_here
          ∙ ap (λ m. a.central_before ++ m)
              (append-assoc_lem (central_record b (k % 2 ^ 32))
                  (centrals (k + length (local_record b)) bs) a.central_after
                ∙ ap
                    (λ o.
                      central_record b o
                      ++ (centrals (k + length (local_record b)) bs ++ a.central_after))
                    same);
      central_position = a.central_position;
      local_here =
          a.local_here
          ∙ ap (λ m. a.local_before ++ m)
              (append-assoc_lem (local_record b) (locals bs) a.local_after);
      local_position = a.local_position;
    }

Around-tail :
    (image : Bytes) (b : Blob) (bs : List Blob) (k p : ℕ)
    → Around image (b ∷ bs) k p
    → Around image bs (k + length (local_record b)) (p + 46 + length b.name + 0 + 0)
unfolding locals centrals
Around-tail image b bs k p a =
    let c = central_record b (k % 2 ^ 32) in
    let next = k + length (local_record b) in
    record {
      local_before = a.local_before ++ local_record b;
      local_after = a.local_after;
      central_before = a.central_before ++ c;
      central_after = a.central_after;
      local_here =
          a.local_here
          ∙ ap (λ m. a.local_before ++ m)
              (append-assoc_lem (local_record b) (locals bs) a.local_after)
          ∙ sym (append-assoc_lem a.local_before (local_record b) (locals bs ++ a.local_after));
      local_position =
          let at = a.local_position in
          omega (arith, at, length-append a.local_before (local_record b));
      central_here =
          a.central_here
          ∙ ap (λ m. a.central_before ++ m) (append-assoc_lem c (centrals next bs) a.central_after)
          ∙ sym (append-assoc_lem a.central_before c (centrals next bs ++ a.central_after));
      central_position =
          let at = a.central_position in
          omega (arith, at, length-append a.central_before c, length-central b (k % 2 ^ 32));
    }

Around-offset : (image : Bytes) (bs : List Blob) (k p : ℕ) → Around image bs k p → k ≤ length image
Around-offset image bs k p a =
    let at = a.local_position in
    omega
      (arith, at, ap length a.local_here, length-append a.local_before (locals bs ++ a.local_after))

module _ (z : Zlib) (lib : IsZlib z) (image : Bytes) (small : length image < 0xFFFFFFFF) where
  read_entries-Around :
      (files : List Entry) (k p : ℕ)
      → All IsFile files
      → Around image (map (pack z) files) k p
      → read_entries z image (length files) p ≡ some files
  unfolding read_entries
  read_entries-Around [] k p ok a = refl
  read_entries-Around (f ∷ fs) k p ok a =
      let b = pack z f in
      let below = Around-offset image (map (pack z) (f ∷ fs)) k p a in
      let near : k < 0xFFFFFFFF = omega (arith, below, small) in
      let here = Around-head image b (map (pack z) fs) k p (omega (arith, near)) a in
      let one =
        read_entry-written z b image k p f.content here (pack-Readable z f k lib ok.0 near) in
      let next = Around-tail image b (map (pack z) fs) k p a in
      let rest =
        read_entries-Around fs (k + length (local_record b)) (p + 46 + length b.name + 0 + 0) ok.1
          next in
      rw (one, rest) (unfold compress in refl)

length-map : (z : Zlib) (files : List Entry) → length (map (pack z) files) ≡ length files
length-map z [] = refl
length-map z (f ∷ fs) = ap suc (length-map z fs)

Around-image : (bs : List Blob) → Around (image_of bs) bs 0 (length (locals bs))
Around-image bs =
    let end = end_record (length bs) (length (centrals 0 bs)) (length (locals bs)) in
    record {
      local_before = [];
      local_after = centrals 0 bs ++ end;
      central_before = locals bs;
      central_after = end;
      local_here = append-assoc_lem (locals bs) (centrals 0 bs) end;
      local_position = refl;
      central_here = append-assoc_lem (locals bs) (centrals 0 bs) end;
      central_position = refl;
    }

read-image_of :
    (z : Zlib) (files : List Entry)
    → IsZlib z
    → All IsFile files
    → length files < 0xFFFF
    → length (image_of (map (pack z) files)) < 0xFFFFFFFF
    → read z (image_of (map (pack z) files)) ≡ some files
read-image_of z files lib ok few small =
    let bs = map (pack z) files in
    let n = length (centrals 0 bs) in
    let k = length (locals bs) in
    let body = length-append (locals bs) (centrals 0 bs) in
    let whole = length-append (locals bs ++ centrals 0 bs) (end_record (length bs) n k) in
    read-end (locals bs ++ centrals 0 bs) (length bs) n k (omega (arith, few, length-map z files))
      (omega (arith, body, whole, small)) z (omega (arith, body))
    ∙ ap (λ c. read_entries z (image_of bs) c k) (length-map z files)
    ∙ read_entries-Around z lib (image_of bs) small files 0 k ok (Around-image bs)

-- Files that the container can hold, packed into an image of less than 2 ^ 32 - 1 bytes and fewer
-- than 65535 of them, are read back as they were: every name and every content, in their order.
pub read-write :
    (z : Zlib) (files : List Entry)
    → IsZlib z
    → All IsFile files
    → length files < 0xFFFF
    → length (write (map (pack z) files)) < 0xFFFFFFFF
    → read z (write (map (pack z) files)) ≡ some files
read-write z files lib ok few small =
    let bs = map (pack z) files in
    let len = length-write bs in
    let same = write-image_of bs (omega (arith, len, small)) in
    ap (read z) same
    ∙ read-image_of z files lib ok few (subst (λ i. length i < 0xFFFFFFFF) same small)
