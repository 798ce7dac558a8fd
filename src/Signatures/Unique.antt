-- ===== src/Signatures/Unique.antt =====
-- The scan of src/mth/core/sig_scan.cpp against the positions that match.
use mathlib.Core.Path.{subst}
use mth_apclient.Base.{
  ℕ, zero, suc, ◌+◌, ◌≤◌, ◌<◌, ◌≡◌, ◌∙◌, ap, ◌⊎◌, inl, inr, refl, Bool, true, false, arith, ◌==◌,
  Bool-cases, ==_iff, sym,
}
use mth_apclient.Signatures.{Match, scan, no_match}

-- No position from `i` to below `j` passes a test.
abbrev pub NoHit : (ℕ → Bool) → ℕ → ℕ → Type 0
NoHit test i j = (k : ℕ) → i ≤ k → k < j → test k ≡ false

-- A first position, and no other.
abbrev pub IsUnique : (ℕ → Bool) → ℕ → ℕ → ℕ → Type 0
IsUnique test i j o = (i ≤ o) × (o < j) × (test o ≡ true) × NoHit test i o × NoHit test (suc o) j

-- A first position, and another.
abbrev pub IsRepeated : (ℕ → Bool) → ℕ → ℕ → ℕ → Type 0
IsRepeated test i j o =
    (i ≤ o)
    × (o < j)
    × (test o ≡ true)
    × NoHit test i o
    × (k : ℕ) × (o < k)
    × (k < j)
    × (test k ≡ true)

-- What a scan of the positions from `i` to below `j` tells of them.
abbrev pub Tells : (ℕ → Bool) → ℕ → ℕ → Match → Type 0
Tells test i j m =
    ((m ≡ no_match) × NoHit test i j)
    ⊎ (((o : ℕ) × (m ≡ record { found = true; unique = true; offset = o }) × IsUnique test i j o)
        ⊎ ((o : ℕ) × (m ≡ record { found = true; unique = false; offset = o })
            × IsRepeated test i j o))

abbrev Behind : (ℕ → Bool) → ℕ → ℕ → ℕ → Match → Type 0
Behind test i j o m =
    ((m ≡ record { found = true; unique = true; offset = o }) × NoHit test i j)
    ⊎ ((k : ℕ) × (m ≡ record { found = true; unique = false; offset = o })
        × (i ≤ k)
        × (k < j)
        × (test k ≡ true))

module _ (test : ℕ → Bool) where
  NoHit-none : (i j : ℕ) → j ≤ i → NoHit test i j
  NoHit-none i j h k a b = absurd (omega (arith, h, a, b))

  NoHit-suc : (i j : ℕ) → test i ≡ false → NoHit test (suc i) j → NoHit test i j
  NoHit-suc i j miss rest k a b = elim (Bool-cases (k == i)) [
    | inl e ↦ ap test ((==_iff k i).0 e) ∙ miss
    | inr e ↦ rest k (ground arith) b
  ]

  NoHit-to : (i j l : ℕ) → j ≡ l → NoHit test i j → NoHit test i l
  NoHit-to i j l e h k a b = h k a (omega (arith, e, b))

  -- The scan behind a first position.
  scan-Behind :
      (i n o : ℕ)
      → Behind test i (i + n) o (scan test i n (record { found = true; unique = true; offset = o }))
  unfolding scan
  scan-Behind i zero o = inl (refl, NoHit-none i (i + 0) (omega arith))
  scan-Behind i (suc n) o = elim (Bool-cases (test i)) [
    | inl hit ↦ inr (i, rw hit refl, omega arith, omega arith, hit)
    | inr miss ↦ elim (scan-Behind (suc i) n o) [
      | inl (same, none_left) ↦ inl (
        rw (miss, same) refl,
        NoHit-suc i (i + suc n) miss
            (NoHit-to (suc i) (suc i + n) (i + suc n) (omega arith) none_left),
      )
      | inr (k, same, a, b, hit) ↦
          inr (k, rw (miss, same) refl, omega (arith, a), omega (arith, b), hit)
    ]
  ]

  scan_hit :
      (i n : ℕ)
      → test i ≡ true
      → scan test i (suc n) no_match
        ≡ scan test (suc i) n (record { found = true; unique = true; offset = i })
  unfolding scan
  scan_hit i n hit = rw hit refl

  scan_miss :
      (i n : ℕ) → test i ≡ false → scan test i (suc n) no_match ≡ scan test (suc i) n no_match
  unfolding scan
  scan_miss i n miss = rw miss refl

  hit-Tells : (i n : ℕ) → test i ≡ true → Tells test i (i + suc n) (scan test i (suc n) no_match)
  hit-Tells i n hit = elim (scan-Behind (suc i) n i) [
    | inl (same, none_left) ↦ inr (
        inl (
          i,
          scan_hit i n hit ∙ same,
          (
            omega arith,
            omega arith,
            hit,
            NoHit-none i i (omega arith),
            NoHit-to (suc i) (suc i + n) (i + suc n) (omega arith) none_left,
          ),
        ))
    | inr (k, same, a, b, again) ↦ inr (
        inr (
          i,
          scan_hit i n hit ∙ same,
          (
            omega arith,
            omega arith,
            hit,
            NoHit-none i i (omega arith),
            k,
            omega (arith, a),
            omega (arith, b),
            again,
          ),
        ))
  ]

  miss-Tells : (i j : ℕ) (m : Match) → test i ≡ false → Tells test (suc i) j m → Tells test i j m
  miss-Tells i j m miss (inl (same, none_at)) = inl (same, NoHit-suc i j miss none_at)
  miss-Tells i j m miss (inr (inl (o, same, (a, b, hit, before, after)))) =
      inr (inl (o, same, (omega (arith, a), b, hit, NoHit-suc i o miss before, after)))
  miss-Tells i j m miss (inr (inr (o, same, (a, b, hit, before, k, c, d, again)))) =
      inr (inr (o, same, (omega (arith, a), b, hit, NoHit-suc i o miss before, k, c, d, again)))

  pub scan-Tells : (i n : ℕ) → Tells test i (i + n) (scan test i n no_match)
  unfolding scan
  scan-Tells i zero = inl (refl, NoHit-none i (i + 0) (omega arith))
  scan-Tells i (suc n) = elim (Bool-cases (test i)) [
    | inl hit ↦ hit-Tells i n hit
    | inr miss ↦
        let e : suc i + n ≡ i + suc n = omega arith in
        miss-Tells i (i + suc n) (scan test i (suc n) no_match) miss (
          subst (λ m. Tells test (suc i) (i + suc n) m) (sym (scan_miss i n miss))
            (subst (λ j. Tells test (suc i) j (scan test (suc i) n no_match)) e
              (scan-Tells (suc i) n)))
  ]
