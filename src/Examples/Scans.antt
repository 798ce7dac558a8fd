-- ===== src/Examples/Scans.antt =====
-- Runs of src/mth/core/sig_scan.cpp.
use mth_apclient.Base.{ℕ, ◌≡◌, refl, Bool, [], ◌∷◌, arith, ◌==◌, get_or, pos, Bytes}
use mth_apclient.Signatures.{
  read_i32le, matches_at, code, resolve, matches_from, scan, Signature, find_masked,
}
use mth_apclient.Signatures.Resolved.{resolve-Resolves, Resolves}

abbrev region : Bytes
region = 1 ∷ 2 ∷ 9 ∷ 4 ∷ 2 ∷ 5 ∷ 4 ∷ 3 ∷ []

abbrev entry : Signature
entry = record {
  kind = code;
  pattern = 2 ∷ 0 ∷ 4 ∷ 2 ∷ [];
  mask = 1 ∷ 0 ∷ 1 ∷ 1 ∷ [];
  len = 4;
  disp_off = pos 0;
  next_insn = pos 0;
}

resolved : resolve region 4096 entry ≡ 4097
unfolding resolve find_masked scan matches_at matches_from read_i32le
resolved = refl

resolve-Resolves_example : Resolves region 4096 entry (resolve region 4096 entry)
resolve-Resolves_example = resolve-Resolves region 4096 entry (omega arith) (omega arith)

is_two : ℕ → Bool
is_two i = get_or region i 0 == 2
