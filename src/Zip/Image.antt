-- ===== src/Zip/Image.antt =====
-- The image that `write` makes, src/mth/core/save/zip_archive.cpp, as its three stretches.
use mathlib.Core.List.{append-nil}
use mth_apclient.Base.{
  List, ℕ, ◌+◌, ◌-◌, ◌^◌, ◌%◌, ◌<◌, ◌≡◌, ◌∙◌, ap, sym, refl, [], ◌∷◌, ◌++◌, arith, length,
  length-append, append-assoc_lem, Bytes,
}
use mth_apclient.Zip.{Blob, eocd_size}
use mth_apclient.Zip.Write.{
  end_record, central_record, write_centrals, write, write_locals, local_record,
}

-- The local records, and the directory's, of blobs of which the first stands at `k`.
unfoldable pub locals : List Blob → Bytes
locals [] = []
locals (b ∷ bs) = local_record b ++ locals bs

unfoldable pub centrals : ℕ → List Blob → Bytes
centrals k [] = []
centrals k (b ∷ bs) = central_record b (k % 2 ^ 32) ++ centrals (k + length (local_record b)) bs

abbrev offsets_from : ℕ → List Blob → List ℕ
offsets_from k [] = []
offsets_from k (b ∷ bs) = (k % 2 ^ 32) ∷ offsets_from (k + length (local_record b)) bs

write_locals-locals :
    (bs : List Blob) (out : Bytes)
    → write_locals bs out ≡ (out ++ locals bs, offsets_from (length out) bs)
unfolding write_locals locals
write_locals-locals [] out = ap (λ o. (o, [])) (sym (append-nil out))
write_locals-locals (b ∷ bs) out =
    rw
      (
        write_locals-locals bs (out ++ local_record b),
        length-append out (local_record b),
        append-assoc_lem out (local_record b) (locals bs),
      )
      refl

write_centrals-centrals :
    (bs : List Blob) (k : ℕ) (out : Bytes)
    → write_centrals bs (offsets_from k bs) out ≡ out ++ centrals k bs
unfolding write_centrals centrals
write_centrals-centrals [] k out = sym (append-nil out)
write_centrals-centrals (b ∷ bs) k out =
    write_centrals-centrals bs (k + length (local_record b)) (out ++ central_record b (k % 2 ^ 32))
    ∙ append-assoc_lem out (central_record b (k % 2 ^ 32))
        (centrals (k + length (local_record b)) bs)

-- The sizes as the end record has them.
abbrev directory_size : List Blob → ℕ
directory_size bs =
    (length (locals bs ++ centrals 0 bs) % 2 ^ 32 + 2 ^ 32 - length (locals bs) % 2 ^ 32) % 2 ^ 32

write_lem :
    (bs : List Blob)
    → write bs
      ≡ (locals bs ++ centrals 0 bs)
        ++ end_record (length bs) (directory_size bs) (length (locals bs) % 2 ^ 32)
unfolding write
write_lem bs = rw (write_locals-locals bs [], write_centrals-centrals bs 0 (locals bs)) refl

-- The image of blobs that fit into it.
abbrev pub image_of : List Blob → Bytes
image_of bs =
    (locals bs ++ centrals 0 bs)
    ++ end_record (length bs) (length (centrals 0 bs)) (length (locals bs))

pub write-image_of :
    (bs : List Blob) → length (locals bs ++ centrals 0 bs) < 2 ^ 32 → write bs ≡ image_of bs
write-image_of bs h =
    let len = length-append (locals bs) (centrals 0 bs) in
    let at : length (locals bs) % 2 ^ 32 ≡ length (locals bs) = omega (arith, h, len) in
    let size : directory_size bs ≡ length (centrals 0 bs) = omega (arith, h, len) in
    write_lem bs
    ∙ ap (λ r. (locals bs ++ centrals 0 bs) ++ r)
        (ap (λ s. end_record (length bs) s (length (locals bs) % 2 ^ 32)) size
          ∙ ap (end_record (length bs) (length (centrals 0 bs))) at)

pub length-write :
    (bs : List Blob) → length (write bs) ≡ length (locals bs ++ centrals 0 bs) + eocd_size
unfolding end_record
length-write bs =
    let size = directory_size bs in
    let at = length (locals bs) % 2 ^ 32 in
    omega (
      arith,
      ap length (write_lem bs),
      length-append (locals bs ++ centrals 0 bs) (end_record (length bs) size at),
    )
