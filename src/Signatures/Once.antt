-- ===== src/Signatures/Once.antt =====
-- The loop of `find_riprel_load` against that of `find_masked`, in src/mth/core/sig_scan.cpp.
use mth_apclient.Base.{
  ℕ, zero, suc, ◌≡◌, inl, inr, refl, Bool, true, ◌&&◌, Option, none, some, if◌then◌else◌,
  Bool-cases,
}
use mth_apclient.Signatures.{Match, scan_once, scan, no_match}

-- The offset of a match that is found and unique.
abbrev pub only_of : Match → Option ℕ
only_of m = if m.found && m.unique then some m.offset else none

module _ (test : ℕ → Bool) where
  once_behind :
      (i n o : ℕ)
      → scan_once test i n (some o)
        ≡ only_of (scan test i n (record { found = true; unique = true; offset = o }))
  unfolding scan_once scan
  once_behind i zero o = refl
  once_behind i (suc n) o = elim (Bool-cases (test i)) [
    | inl hit ↦ rw hit refl
    | inr miss ↦ rw miss (once_behind (suc i) n o)
  ]

  -- The two loops agree on every test and every stretch: the one that gives up at a second site
  -- gives the offset of the other's match where that is found and unique, and nothing elsewhere.
  pub scan_once-scan : (i n : ℕ) → scan_once test i n none ≡ only_of (scan test i n no_match)
  unfolding scan_once scan
  scan_once-scan i zero = refl
  scan_once-scan i (suc n) = elim (Bool-cases (test i)) [
    | inl hit ↦ rw hit (once_behind (suc i) n i)
    | inr miss ↦ rw miss (scan_once-scan (suc i) n)
  ]
