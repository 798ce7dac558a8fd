-- ===== src/Base/Decimal/Lengths.antt =====
-- The lengths of what the reads of a stream leave.
use mth_apclient.Base.Decimal.{
  skip_space, take_char, read_char, scan_digits, read_magnitude, read_signed, read_int, negated,
}
use mth_apclient.Base.{
  ℕ, ◌+◌, ◌-◌, ◌*◌, ◌^◌, ◌≤◌, ◌<◌, ◌≡◌, some, [], ◌∷◌, arith, length, ℤ, pos, Bytes,
}

skip_space-length : (s : Bytes) → length (skip_space s) ≤ length s
unfolding skip_space
skip_space-length [] = omega arith
skip_space-length (c ∷ s) = ground (arith, skip_space-length s)

take_char-length :
    (s : Bytes) (c : ℕ) (rest : Bytes) → take_char s ≡ some (c, rest) → length rest < length s
unfolding take_char
take_char-length [] c rest e = ground arith
take_char-length (x ∷ s) c rest e = ground arith

pub read_char-length :
    (s : Bytes) (c : ℕ) (rest : Bytes) → read_char s ≡ some (c, rest) → length rest < length s
unfolding read_char
read_char-length s c rest e =
    omega (arith, skip_space-length s, take_char-length (skip_space s) c rest e)

scan_digits-length : (s : Bytes) (n : ℕ) → length (scan_digits s n).1 ≤ length s
unfolding scan_digits
scan_digits-length [] n = omega arith
scan_digits-length (c ∷ s) n = ground (arith, scan_digits-length s (n * 10 + (c - b'0')))

read_magnitude-length :
    (limit : ℕ) (sign : ℕ → ℤ) (s : Bytes) (v : ℤ) (rest : Bytes)
    → read_magnitude limit sign s ≡ some (v, rest)
    → length rest ≤ length s
unfolding read_magnitude
read_magnitude-length limit sign s v rest e = ground (arith, scan_digits-length s 0)

read_signed-length :
    (s : Bytes) (v : ℤ) (rest : Bytes) → read_signed s ≡ some (v, rest) → length rest ≤ length s
unfolding read_signed
read_signed-length [] v rest e = ground arith
read_signed-length (c ∷ s) v rest e = ground (
  arith,
  read_magnitude-length (2 ^ 31) negated s v rest,
  read_magnitude-length (2 ^ 31 - 1) pos s v rest,
  read_magnitude-length (2 ^ 31 - 1) pos (c ∷ s) v rest,
  e,
)

pub read_int-length :
    (s : Bytes) (v : ℤ) (rest : Bytes) → read_int s ≡ some (v, rest) → length rest ≤ length s
unfolding read_int
read_int-length s v rest e =
    omega (arith, skip_space-length s, read_signed-length (skip_space s) v rest e)
