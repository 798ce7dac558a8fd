-- ===== src/Base/Decimal.antt =====
-- `std::to_string` of an `int`, and the formatted reads `in >> tag` and `in >> value` of a character
-- and of an `int`, on a stream in the classic locale.
pub mod Lengths
use mth_apclient.Base.{
  ℕ, zero, suc, ◌+◌, ◌-◌, ◌*◌, ◌^◌, ◌/◌, ◌%◌, ◌≤◌, ◌<◌, ◌≡◌, ◌∙◌, inl, inr, refl, Bool, true, false,
  ◌&&◌, ◌||◌, Option, none, some, [], ◌∷◌, ◌++◌, arith, ltb, leb, ◌==◌, if◌then◌else◌, ℤ, pos,
  negsuc, pos_part, neg_part, Bool-cases, codes, Bytes, le→leb,
}

abbrev pub is_digit : ℕ → Bool
is_digit c = leb b'0' c && leb c b'9'

abbrev pub is_space : ℕ → Bool
is_space c = (leb 9 c && leb c 13) || c == 32

-- The digits of `n` in front of `out`; a fuel above `n` is enough.
pub digits : ℕ → ℕ → Bytes → Bytes
digits zero n out = out
digits (suc fuel) n out =
    let rest = digits fuel (n / 10) ((b'0' + n % 10) ∷ out) in
    if ltb n 10 then (b'0' + n) ∷ out else rest

unfoldable pub to_string : ℤ → Bytes
unfolding digits
to_string (pos n) = digits (suc n) n []
to_string (negsuc n) = b'-' ∷ digits (suc (suc n)) (suc n) []

unfoldable pub skip_space : Bytes → Bytes
skip_space [] = []
skip_space (c ∷ s) = if is_space c then skip_space s else c ∷ s

unfoldable pub take_char : Bytes → Option (ℕ × Bytes)
take_char [] = none
take_char (c ∷ s) = some (c, s)

-- `in >> tag`.
unfoldable pub read_char : Bytes → Option (ℕ × Bytes)
unfolding take_char
read_char s = take_char (skip_space s)

-- The value of the digits at the front, behind `n`, and what follows them.
pub scan_digits : Bytes → ℕ → ℕ × Bytes
scan_digits [] n = (n, [])
scan_digits (c ∷ s) n = if is_digit c then scan_digits s (n * 10 + (c - b'0')) else (n, c ∷ s)

abbrev pub starts_digit : Bytes → Bool
starts_digit [] = false
starts_digit (c ∷ s) = is_digit c

-- A magnitude up to `limit`; the read fails on a missing number and on one out of range.
pub read_magnitude : ℕ → (ℕ → ℤ) → Bytes → Option (ℤ × Bytes)
unfolding scan_digits
read_magnitude limit sign s =
    let (n, rest) = scan_digits s 0 in
    if starts_digit s && leb n limit then some (sign n, rest) else none

abbrev pub negated : ℕ → ℤ
negated zero = pos 0
negated (suc n) = negsuc n

pub read_signed : Bytes → Option (ℤ × Bytes)
unfolding read_magnitude
read_signed [] = none
read_signed (c ∷ s) =
    if c == b'-'
    then read_magnitude (2 ^ 31) negated s
    else if c == b'+'
    then read_magnitude (2 ^ 31 - 1) pos s
    else read_magnitude (2 ^ 31 - 1) pos (c ∷ s)

-- `in >> value` into an `int` of 32 bits.
unfoldable pub read_int : Bytes → Option (ℤ × Bytes)
unfolding read_signed
read_int s = read_signed (skip_space s)

abbrev pub IsInt32 : ℤ → Type 0
IsInt32 v = (pos_part v < 2 ^ 31) × (neg_part v ≤ 2 ^ 31)

read_42 : read_int (codes " -42\ng") ≡ some (negsuc 41, codes "\ng")
unfolding read_int skip_space
read_42 = refl

-- Reading the digits of `n` and going on behind them is going on with `n`.
scan_digits-digits :
    (fuel n : ℕ) (out : Bytes) → n < fuel → scan_digits (digits fuel n out) 0 ≡ scan_digits out n
unfolding digits scan_digits
scan_digits-digits zero n out h = elim h [ ]
scan_digits-digits (suc fuel) n out h = elim (Bool-cases (ltb n 10)) [
  | inl small ↦ rw small (ground arith)
  | inr large ↦
      rw large
        (scan_digits-digits fuel (n / 10) ((b'0' + n % 10) ∷ out) (ground arith) ∙ ground arith)
]

digits-starts_digit :
    (fuel n : ℕ) (out : Bytes) → n < fuel → starts_digit (digits fuel n out) ≡ true
unfolding digits
digits-starts_digit zero n out h = elim h [ ]
digits-starts_digit (suc fuel) n out h = elim (Bool-cases (ltb n 10)) [
  | inl small ↦ rw small (ground arith)
  | inr large ↦ rw large (digits-starts_digit fuel (n / 10) ((b'0' + n % 10) ∷ out) (ground arith))
]

digits-append :
    (fuel n : ℕ) (out rest : Bytes) → digits fuel n out ++ rest ≡ digits fuel n (out ++ rest)
unfolding digits
digits-append zero n out rest = refl
digits-append (suc fuel) n out rest = elim (Bool-cases (ltb n 10)) [
  | inl small ↦ rw small refl
  | inr large ↦ rw large (digits-append fuel (n / 10) ((b'0' + n % 10) ∷ out) rest)
]

scan_digits_stops :
    (rest : Bytes) (n : ℕ) → starts_digit rest ≡ false → scan_digits rest n ≡ (n, rest)
unfolding scan_digits
scan_digits_stops [] n h = refl
scan_digits_stops (c ∷ rest) n h = rw h refl

read_magnitude-digits :
    (limit fuel n : ℕ) (sign : ℕ → ℤ) (rest : Bytes)
    → n < fuel
    → n ≤ limit
    → starts_digit rest ≡ false
    → read_magnitude limit sign (digits fuel n rest) ≡ some (sign n, rest)
unfolding read_magnitude
read_magnitude-digits limit fuel n sign rest h k stop =
    rw
      (
        scan_digits-digits fuel n rest h,
        scan_digits_stops rest n stop,
        digits-starts_digit fuel n rest h,
        le→leb n limit k,
      )
      refl

-- A text that starts with a digit is read with neither blank nor sign in front.
read_int_unsigned :
    (s : Bytes) → starts_digit s ≡ true → read_int s ≡ read_magnitude (2 ^ 31 - 1) pos s
unfolding read_int skip_space read_signed
read_int_unsigned [] h = cc
read_int_unsigned (c ∷ s) h = ground arith

-- Every `int` is read back from its decimal print, where no digit follows the print.
pub read_int-to_string :
    (v : ℤ) (rest : Bytes)
    → IsInt32 v
    → starts_digit rest ≡ false
    → read_int (to_string v ++ rest) ≡ some (v, rest)
unfolding to_string
read_int-to_string (pos n) rest h stop = rw digits-append (
    read_int_unsigned _ (digits-starts_digit (suc n) n rest (omega arith))
    ∙ read_magnitude-digits (2 ^ 31 - 1) (suc n) n pos rest (omega arith) (omega arith) stop)
read_int-to_string (negsuc n) rest h stop =
    unfold read_int skip_space read_signed in
    rw digits-append (
      read_magnitude-digits (2 ^ 31) (suc (suc n)) (suc n) negated rest (omega arith) (omega arith)
        stop)
