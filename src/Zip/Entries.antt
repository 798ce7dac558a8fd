-- ===== src/Zip/Entries.antt =====
-- One entry of src/mth/core/save/zip_archive.cpp: the records that `write` makes of a blob, and what
-- a round of the loop in `read` makes of them.
use mth_apclient.Base.{
  ℕ, ◌+◌, ◌≡◌, ◌∙◌, ap, refl, [], ◌∷◌, ◌++◌, arith, length, take, drop, length-append, Bytes, zero,
  suc, sym, append-assoc_lem,
}
use mth_apclient.Zip.{Blob, get32}
use mth_apclient.Zip.Read.{slice, central_at}
use mth_apclient.Zip.Write.{local_record, central_record}
use mth_apclient.Zip.Fields.{get32-append, get16-append}

pub central_at-append : (pre s : Bytes) → central_at (pre ++ s) (length pre) ≡ central_at s 0
unfolding central_at
central_at-append pre s = simp (get16-append, get32-append)

pub get32-append_start : (pre s : Bytes) → get32 (pre ++ s) (length pre) ≡ get32 s 0
get32-append_start pre s = rw (← get32-append pre s 0) (ap (get32 (pre ++ s)) (omega arith))

pub drop-append : (xs ys : Bytes) (i : ℕ) → drop (length xs + i) (xs ++ ys) ≡ drop i ys
drop-append [] ys i = ap (λ k. drop k ys) (omega arith)
drop-append (x ∷ xs) ys i =
    let e : suc (length xs) + i ≡ suc (length xs + i) = omega arith in
    ap (λ k. drop k (x ∷ (xs ++ ys))) e ∙ drop-append xs ys i

drop_nil : (n : ℕ) → drop {A = ℕ} n [] ≡ []
drop_nil zero = refl
drop_nil (suc n) = refl

drop_add : (a b : ℕ) (xs : Bytes) → drop (a + b) xs ≡ drop b (drop a xs)
drop_add zero b xs = ap (λ k. drop k xs) (omega arith)
drop_add (suc a) b [] = drop_nil (suc a + b) ∙ sym (drop_nil b)
drop_add (suc a) b (x ∷ xs) =
    let e : suc a + b ≡ suc (a + b) = omega arith in ap (λ k. drop k (x ∷ xs)) e ∙ drop_add a b xs

pub take-append : (xs ys : Bytes) → take (length xs) (xs ++ ys) ≡ xs
take-append [] ys = refl
take-append (x ∷ xs) ys = ap (◌∷◌ x) (take-append xs ys)

pub length-central : (b : Blob) (offset : ℕ) → length (central_record b offset) ≡ 46 + length b.name
unfolding central_record
length-central b offset = omega arith

pub length-local : (b : Blob) → length (local_record b) ≡ 30 + length b.name + length b.stored
unfolding local_record
length-local b = omega (arith, length-append b.name b.stored)

pub central_name :
    (b : Blob) (offset : ℕ) (pre rest : Bytes)
    → slice (pre ++ (central_record b offset ++ rest)) (length pre + 46) (length b.name) ≡ b.name
unfolding central_record
central_name b offset pre rest =
    ap (take (length b.name)) (drop-append pre (central_record b offset ++ rest) 46)
    ∙ take-append b.name rest

pub local_stored :
    (b : Blob) (pre rest : Bytes)
    → slice
        (pre ++ (local_record b ++ rest))
        (length pre + 30 + length b.name + 0)
        (length b.stored)
      ≡ b.stored
unfolding local_record
local_stored b pre rest =
    let n = length b.name in
    let e : length pre + 30 + n + 0 ≡ length pre + (30 + n) = omega arith in
    ap (λ k. take (length b.stored) (drop k (pre ++ (local_record b ++ rest)))) e
    ∙ ap (take (length b.stored)) (
        drop-append pre (local_record b ++ rest) (30 + n)
        ∙ drop_add 30 n (local_record b ++ rest)
        ∙ ap (drop n) (append-assoc_lem b.name b.stored rest)
        ∙ ap (λ k. drop k (b.name ++ (b.stored ++ rest))) (omega arith)
        ∙ drop-append b.name (b.stored ++ rest) 0)
    ∙ take-append b.stored rest

-- An image with a blob's two records in it.
pub record HasRecords (image : Bytes) (b : Blob) (offset p : ℕ) : Type 0 where
  pub before : Bytes
  pub after : Bytes
  pub local_before : Bytes
  pub local_after : Bytes
  pub central_here : image ≡ before ++ (central_record b offset ++ after)
  pub central_position : length before ≡ p
  pub local_here : image ≡ local_before ++ (local_record b ++ local_after)
  pub local_position : length local_before ≡ offset
