-- ===== src/Bundle/Places.antt =====
-- The three paths of a container, and what the calls of src/mth/core/save/ap_save_bundle.cpp leave
-- at each.
use mth_apclient.Base.{
  ◌+◌, ◌≡◌, ◌≢◌, ap, inl, inr, refl, false, none, some, [], ◌∷◌, ◌++◌, arith, length, Bool-cases,
  Option-cases, length-append, codes, Bytes, eqb_bytes, eqb_bytes_refl, eqb_bytes-eq, ◌∙◌,
}
use mth_apclient.Bundle.{Disk}
use mth_apclient.Bundle.Disks.{bak_of, rename, put, tmp_of, remove}

unfoldable pub IsOther : Bytes → Bytes → Type 0
unfolding eqb_bytes
IsOther p q = eqb_bytes p q ≡ false

longer_IsOther : (p q : Bytes) → length p ≢ length q → IsOther p q
unfolding IsOther
longer_IsOther p q h = elim (Bool-cases (eqb_bytes p q)) [
  | inl e ↦ absurd (h (ap length (eqb_bytes-eq p q e)))
  | inr e ↦ e
]

module _ (path : Bytes) where
  tmp_length : length (tmp_of path) ≡ length path + 4
  tmp_length = length-append path (codes ".tmp")

  bak_length : length (bak_of path) ≡ length path + 4
  bak_length = length-append path (codes ".bak")

  pub path-IsOther-tmp : IsOther path (tmp_of path)
  path-IsOther-tmp =
      longer_IsOther path (tmp_of path) (λ e. (let t = tmp_length in omega (arith, e, t)))

  pub path-IsOther-bak : IsOther path (bak_of path)
  path-IsOther-bak =
      longer_IsOther path (bak_of path) (λ e. (let t = bak_length in omega (arith, e, t)))

  pub tmp_IsOther-path : IsOther (tmp_of path) path
  tmp_IsOther-path =
      longer_IsOther (tmp_of path) path (λ e. (let t = tmp_length in omega (arith, e, t)))

  pub bak_IsOther-path : IsOther (bak_of path) path
  bak_IsOther-path =
      longer_IsOther (bak_of path) path (λ e. (let t = bak_length in omega (arith, e, t)))

suffix-IsOther : (path s t : Bytes) → IsOther s t → IsOther (path ++ s) (path ++ t)
unfolding IsOther eqb_bytes
suffix-IsOther [] s t h = h
suffix-IsOther (c ∷ path) s t h = let tails = suffix-IsOther path s t h in ground arith

pub bak_IsOther-tmp : (path : Bytes) → IsOther (bak_of path) (tmp_of path)
bak_IsOther-tmp path =
    suffix-IsOther path (codes ".bak") (codes ".tmp") (unfold IsOther eqb_bytes in refl)

pub tmp_IsOther-bak : (path : Bytes) → IsOther (tmp_of path) (bak_of path)
tmp_IsOther-bak path =
    suffix-IsOther path (codes ".tmp") (codes ".bak") (unfold IsOther eqb_bytes in refl)

module _ (disk : Disk) where
  pub put-same : (p content : Bytes) → put p content disk p ≡ some content
  unfolding put
  put-same p content = rw (eqb_bytes_refl p) refl

  pub put-other : (p q content : Bytes) → IsOther q p → put p content disk q ≡ disk q
  unfolding put IsOther
  put-other p q content h = rw h refl

  pub remove-other : (p q : Bytes) → IsOther q p → remove p disk q ≡ disk q
  unfolding remove IsOther
  remove-other p q h = rw h refl

  pub remove-same : (p : Bytes) → remove p disk p ≡ none
  unfolding remove
  remove-same p = rw (eqb_bytes_refl p) refl

rename_lem :
    (disk : Disk) (p q content : Bytes)
    → disk p ≡ some content
    → rename p q disk ≡ put q content (remove p disk)
unfolding rename
rename_lem disk p q content e =
    ap (λ o. elim o as (λ _. Disk) [ none ↦ disk | some c ↦ put q c (remove p disk) ]) e

rename_nothing : (disk : Disk) (p q : Bytes) → disk p ≡ none → rename p q disk ≡ disk
unfolding rename
rename_nothing disk p q e =
    ap (λ o. elim o as (λ _. Disk) [ none ↦ disk | some c ↦ put q c (remove p disk) ]) e

module _ (disk : Disk) (p q : Bytes) where
  pub rename-from :
      (content : Bytes) → IsOther p q → disk p ≡ some content → rename p q disk p ≡ none
  rename-from content h e =
      ap (λ (d : Disk). d p) (rename_lem disk p q content e)
      ∙ put-other (remove p disk) q p content h
      ∙ remove-same disk p

  pub rename-to : (content : Bytes) → disk p ≡ some content → rename p q disk q ≡ some content
  rename-to content e =
      ap (λ (d : Disk). d q) (rename_lem disk p q content e) ∙ put-same (remove p disk) q content

  pub rename-other : (r : Bytes) → IsOther r p → IsOther r q → rename p q disk r ≡ disk r
  rename-other r hp hq = elim (Option-cases (disk p)) [
    | inl e ↦ ap (λ (d : Disk). d r) (rename_nothing disk p q e)
    | inr (content, e) ↦
        ap (λ (d : Disk). d r) (rename_lem disk p q content e)
        ∙ put-other (remove p disk) q r content hq
        ∙ remove-other disk p r hp
  ]
