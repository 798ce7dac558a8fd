-- ===== src/Signatures/Sites.antt =====
-- `matches_at` of src/mth/core/sig_scan.cpp against the bytes of the region.
use mathlib.Core.Path.{subst}
use mth_apclient.Base.{
  ℕ, zero, suc, ◌+◌, ◌≤◌, ◌<◌, ◌≡◌, ◌≢◌, inl, inr, refl, true, arith, ◌==◌, get_or, Bool-cases,
  Bytes, ◌↔◌, sym, Bool, false, ◌&&◌, not, if◌then◌else◌, ==_iff,
}
use mth_apclient.Signatures.{matches_from, matches_at}

-- A place of a region that agrees with a pattern wherever the mask asks for it.
abbrev pub IsSite : Bytes → Bytes → Bytes → ℕ → ℕ → Type 0
IsSite region pattern mask len base =
    (k : ℕ) → k < len → get_or mask k 0 ≢ 0 → get_or region (base + k) 0 ≡ get_or pattern k 0

pub round_true :
    (wild same rest : Bool)
    → (if not wild && not same then false else rest) ≡ true
    → ((wild ≡ false → same ≡ true) × (rest ≡ true))
round_true true same rest h = ((λ e. (ground arith)), h)
round_true false true rest h = ((λ e. refl), h)
round_true false false rest h = ground arith

pub round_agrees :
    (wild same rest : Bool)
    → (wild ≡ false → same ≡ true)
    → rest ≡ true
    → (if not wild && not same then false else rest) ≡ true
round_agrees true same rest h r = r
round_agrees false true rest h r = r
round_agrees false false rest h r = let e = h refl in ground arith

pub nonzero : (n : ℕ) → n ≢ 0 → (n == 0) ≡ false
nonzero n h = ground arith

pub nonzero_back : (n : ℕ) → (n == 0) ≡ false → n ≢ 0
nonzero_back n h e = ground arith

module _ (region pattern mask : Bytes) (base : ℕ) where
  abbrev pub AgreesAt : ℕ → Type 0
  AgreesAt k = get_or mask k 0 ≢ 0 → get_or region (base + k) 0 ≡ get_or pattern k 0

  abbrev pub AgreesFrom : ℕ → ℕ → Type 0
  AgreesFrom i j = (k : ℕ) → i ≤ k → k < j → AgreesAt k

  pub matches_from-AgreesFrom :
      (i n : ℕ) → matches_from region base pattern mask i n ≡ true → AgreesFrom i (i + n)
  unfolding matches_from
  matches_from-AgreesFrom i zero h k a b asked = absurd (omega (arith, a, b))
  matches_from-AgreesFrom i (suc n) h k a b asked =
      let (here, rest) =
        round_true (get_or mask i 0 == 0) (get_or region (base + i) 0 == get_or pattern i 0)
          (matches_from region base pattern mask (suc i) n) h in
      elim (Bool-cases (k == i)) [
        | inl e ↦
            let same = (==_iff k i).0 e in
            subst AgreesAt (sym same)
              (λ m.
                (==_iff (get_or region (base + i) 0) (get_or pattern i 0)).0
                  (here (nonzero (get_or mask i 0) m)))
              asked
        | inr e ↦ matches_from-AgreesFrom (suc i) n rest k (ground arith) (omega (arith, b)) asked
      ]

  pub AgreesFrom-matches_from :
      (i n : ℕ) → AgreesFrom i (i + n) → matches_from region base pattern mask i n ≡ true
  unfolding matches_from
  AgreesFrom-matches_from i zero h = refl
  AgreesFrom-matches_from i (suc n) h =
      let rest =
        AgreesFrom-matches_from (suc i) n
          (λ k a b asked. h k (omega (arith, a)) (omega (arith, b)) asked) in
      round_agrees (get_or mask i 0 == 0) (get_or region (base + i) 0 == get_or pattern i 0)
        (matches_from region base pattern mask (suc i) n)
        (λ e.
          (==_iff (get_or region (base + i) 0) (get_or pattern i 0)).1
            (h i (omega arith) (omega arith) (nonzero_back (get_or mask i 0) e)))
        rest

-- A place matches exactly when its bytes agree with the pattern's wherever the mask asks for it.
pub matches_at_iff :
    (region pattern mask : Bytes) (len base : ℕ)
    → (matches_at region base pattern mask len ≡ true) ↔ IsSite region pattern mask len base
unfolding matches_at
matches_at_iff region pattern mask len base = (
  λ h k b asked.
      matches_from-AgreesFrom region pattern mask base 0 len h k (omega arith) (omega (arith, b))
        asked,
  λ h.
      AgreesFrom-matches_from region pattern mask base 0 len
        (λ k a b asked. h k (omega (arith, b)) asked),
)
