-- ===== src/Signatures/Resolved.antt =====
-- `matches_at` and `resolve` of src/mth/core/sig_scan.cpp against the bytes of the region.
use mathlib.Core.Path.{subst}
use mathlib.Core.Bool.{true≢false}
use mth_apclient.Base.{
  ℕ, suc, ◌+◌, ◌≤◌, ◌<◌, ◌≡◌, inl, inr, refl, true, arith, ◌==◌, Bool-cases, Bytes, ◌-◌, sym, Bool,
  false, ◌||◌, not, ltb, if◌then◌else◌, length, ◌^◌, ◌%◌, ◌∙◌, ap, ◌⊎◌, ltb→lt,
}
use mth_apclient.Signatures.{
  matches_at, Signature, find_masked, Match, scan, read_i32le, code, data_ref, Kind, to_size,
  no_match, resolve,
}
use mth_apclient.Signatures.Unique.{Tells, scan-Tells, NoHit}
use mth_apclient.Signatures.Sites.{IsSite, matches_at_iff}

-- The one site of a signature in a region.
abbrev pub IsOnly : Bytes → Signature → ℕ → Type 0
IsOnly region entry o =
    (o + entry.len ≤ length region)
    × IsSite region entry.pattern entry.mask entry.len o
    × ((k : ℕ)
        → k + entry.len ≤ length region
        → IsSite region entry.pattern entry.mask entry.len k
        → k ≡ o)

else_of : {A : Type 0} (b : Bool) (x y : A) → b ≡ false → (if b then x else y) ≡ y
else_of true x y e = ground arith
else_of false x y e = refl

abbrev test_of : Bytes → Signature → ℕ → Bool
test_of region entry i = matches_at region i entry.pattern entry.mask entry.len

abbrev found_in : Bytes → Signature → Match
found_in region entry = find_masked region entry.pattern entry.mask entry.len

find_masked-Tells :
    (region : Bytes) (entry : Signature)
    → 0 < entry.len
    → entry.len ≤ length region
    → Tells (test_of region entry) 0 (suc (length region - entry.len)) (found_in region entry)
unfolding find_masked
find_masked-Tells region entry some_bytes short =
    let fits : ((entry.len == 0) || ltb (length region) entry.len) ≡ false = ground arith in
    subst (Tells (test_of region entry) 0 (suc (length region - entry.len)))
      (sym (
        else_of ((entry.len == 0) || ltb (length region) entry.len) no_match
          (scan (test_of region entry) 0 (suc (length region - entry.len)) no_match) fits))
      (subst
        (λ j.
          Tells (test_of region entry) 0 j
            (scan (test_of region entry) 0 (suc (length region - entry.len)) no_match))
        (omega arith) (scan-Tells (test_of region entry) 0 (suc (length region - entry.len))))

abbrev resolve_with : Bytes → ℕ → Signature → Kind → Match → ℕ
resolve_with region region_base entry kind m =
    let disp_at = (m.offset + to_size entry.disp_off) % 2 ^ 64 in
    let next_ip = (region_base + m.offset + to_size entry.next_insn) % 2 ^ 64 in
    if not m.found || not m.unique then 0 else elim kind [
      | code ↦ (region_base + m.offset) % 2 ^ 64
      | data_ref ↦
          if ltb (length region) ((disp_at + 4) % 2 ^ 64)
          then 0
          else (next_ip + read_i32le region disp_at) % 2 ^ 64
    ]

module _ (region : Bytes) (region_base : ℕ) (entry : Signature) where
  resolve_by :
      (m : Match)
      → found_in region entry ≡ m
      → resolve region region_base entry ≡ resolve_with region region_base entry entry.kind m
  unfolding resolve
  resolve_by m e = ap (resolve_with region region_base entry entry.kind) e

  -- What a scan tells, of the signature's sites.
  abbrev pub Resolves : ℕ → Type 0
  Resolves address =
      ((o : ℕ) × IsOnly region entry o × (entry.kind ≡ code → address ≡ (region_base + o) % 2 ^ 64))
      ⊎ ((address ≡ 0) × ((o : ℕ) → ¬ IsOnly region entry o))

  site_hit :
      (o : ℕ) → IsSite region entry.pattern entry.mask entry.len o → test_of region entry o ≡ true
  site_hit o = (matches_at_iff region entry.pattern entry.mask entry.len o).1

  hit-IsSite :
      (o : ℕ) → test_of region entry o ≡ true → IsSite region entry.pattern entry.mask entry.len o
  hit-IsSite o = (matches_at_iff region entry.pattern entry.mask entry.len o).0

  only_place :
      (o : ℕ)
      → NoHit (test_of region entry) 0 o
      → NoHit (test_of region entry) (suc o) (suc (length region - entry.len))
      → (k : ℕ) → k < suc (length region - entry.len)
      → test_of region entry k ≡ true
      → k ≡ o
  only_place o before after k within hit = elim (Bool-cases (ltb k o)) [
    | inl less ↦ absurd (true≢false (sym hit ∙ before k (omega arith) (ltb→lt k o less)))
    | inr more ↦ elim (Bool-cases (ltb o k)) [
      | inl less ↦
          absurd
            (true≢false (sym hit ∙ after k (let l = ltb→lt o k less in omega (arith, l)) within))
      | inr same ↦ ground arith
    ]
  ]

  Tells-Resolves :
      (m : Match)
      → 0 < entry.len
      → entry.len ≤ length region
      → found_in region entry ≡ m
      → Tells (test_of region entry) 0 (suc (length region - entry.len)) m
      → Resolves (resolve region region_base entry)
  Tells-Resolves m some_bytes short e (inl (same, none_at)) = inr (
    resolve_by no_match (e ∙ same),
    λ o only.
        (let (within, site, alone) = only in
          true≢false
            (sym (site_hit o site) ∙ none_at o (omega arith) (omega (arith, within, short)))),
  )
  Tells-Resolves m some_bytes short e (inr (inl (o, same, (a, b, hit, before, after)))) =
      let it : Match = record { found = true; unique = true; offset = o } in
      inl (
        o,
        (
          omega (arith, b, short),
          hit-IsSite o hit,
          λ k within site.
              only_place o before after k (omega (arith, within, short)) (site_hit k site),
        ),
        λ c.
            resolve_by it (e ∙ same) ∙ ap (λ kind. resolve_with region region_base entry kind it) c,
      )
  Tells-Resolves m some_bytes short e (inr (inr (o, same, (a, b, hit, before, k, c, d, again)))) =
      let it : Match = record { found = true; unique = false; offset = o } in
      inr (
        resolve_by it (e ∙ same),
        λ p only.
            (let (within, site, alone) = only in
              let x = alone o (omega (arith, b, short)) (hit-IsSite o hit) in
              let y = alone k (omega (arith, d, short)) (hit-IsSite k again) in
              omega (arith, x, y, c)),
      )

  -- A function's signature resolves to the address of its one site in the region; and where a
  -- signature, of a function or of a reference, has no site or more than one, it resolves to 0. The
  -- signature has some bytes, and no more than the region.
  pub resolve-Resolves :
      0 < entry.len → entry.len ≤ length region → Resolves (resolve region region_base entry)
  resolve-Resolves some_bytes short =
      Tells-Resolves (found_in region entry) some_bytes short refl
        (find_masked-Tells region entry some_bytes short)
