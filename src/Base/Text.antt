-- ===== src/Base/Text.antt =====
-- `std::string` as the list of its bytes.
use Prim.Native.Nat.{ℕ}
use Prim.Native.Char.{code}
use Prim.Native.String.{String}
use mathlib.Core.List.{List, [], ◌∷◌}
use mathlib.Core.Path.{◌≡◌, refl}
use mathlib.Core.Bool.{Bool, true, false, ◌&&◌}
use native.Mathlib.Omega.{arith}
use mth_apclient.Base.Tests.{◌==◌}

abbrev pub Bytes : Type 0
Bytes = List ℕ

-- The bytes of an ASCII text.
abbrev pub codes : String → Bytes
codes String.[] = []
codes (String.◌∷◌ c s) = code c ∷ codes s

unfoldable pub eqb_bytes : Bytes → Bytes → Bool
eqb_bytes [] [] = true
eqb_bytes [] (y ∷ ys) = false
eqb_bytes (x ∷ xs) [] = false
eqb_bytes (x ∷ xs) (y ∷ ys) = (x == y) && eqb_bytes xs ys

-- The text begins with the first argument.
abbrev pub starts_with : Bytes → Bytes → Bool
starts_with [] s = true
starts_with (p ∷ ps) [] = false
starts_with (p ∷ ps) (c ∷ s) = (p == c) && starts_with ps s

pub eqb_bytes_refl : (x : Bytes) → eqb_bytes x x ≡ true
unfolding eqb_bytes
eqb_bytes_refl [] = refl
eqb_bytes_refl (x ∷ xs) = let same = eqb_bytes_refl xs in ground arith

pub eqb_bytes-eq : (x y : Bytes) → eqb_bytes x y ≡ true → x ≡ y
unfolding eqb_bytes
eqb_bytes-eq [] [] h = refl
eqb_bytes-eq [] (y ∷ ys) h = ground arith
eqb_bytes-eq (x ∷ xs) [] h = ground arith
eqb_bytes-eq (x ∷ xs) (y ∷ ys) h =
    let heads : (x ≡ y) × (eqb_bytes xs ys ≡ true) = ground arith in
    let tails = eqb_bytes-eq xs ys heads.1 in rw heads.0 (rw tails refl)
