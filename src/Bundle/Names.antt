-- ===== src/Bundle/Names.antt =====
-- src/mth/core/save/ap_save_store.cpp, and the file names of ap_save_bundle.cpp.
use mth_apclient.Base.{
  starts_with, bit_xor, ℕ, zero, suc, ◌*◌, ◌^◌, ◌/◌, ◌%◌, Bool, ◌&&◌, ◌||◌, not, Option, none, some,
  [], ◌∷◌, ◌++◌, ltb, leb, ◌==◌, if◌then◌else◌, get_or, length, codes, Bytes, eqb_bytes,
}
use mth_apclient.Zip.{is_nil, has_byte}

abbrev pub header : Bytes
header = codes "[YCD Version: 1]"

abbrev pub body_tag : Bytes
body_tag = codes "SaveSlot"

unfoldable pub fnv1a64 : Bytes → ℕ → ℕ
fnv1a64 [] hash = hash
fnv1a64 (c ∷ s) hash = fnv1a64 s (bit_xor hash c * 1099511628211 % 2 ^ 64)

abbrev pub hex_digit : ℕ → ℕ
hex_digit n = get_or (codes "0123456789abcdef") n 0

-- The last `n` digits.
unfoldable pub hex_digits : ℕ → ℕ → Bytes
hex_digits zero value = []
hex_digits (suc n) value = hex_digits n (value / 16) ++ hex_digit (value % 16) ∷ []

unfoldable pub hex16 : ℕ → Bytes
unfolding hex_digits
hex16 value = hex_digits 16 value

unfoldable pub key_hash : Bytes → Bytes → ℕ
unfolding fnv1a64
key_hash seed slot = fnv1a64 slot (fnv1a64 (0 ∷ []) (fnv1a64 seed 14695981039346656037))

abbrev pub is_between : ℕ → ℕ → ℕ → Bool
is_between low high c = leb low c && leb c high

-- `isalnum` in the C locale, or one of the two signs.
unfoldable pub is_safe : ℕ → Bool
is_safe c =
    is_between b'0' b'9' c
    || (is_between b'A' b'Z' c || (is_between b'a' b'z' c || ((c == b'-') || (c == b'_'))))

unfoldable pub fold_unsafe : Bytes → Bytes
unfolding is_safe
fold_unsafe [] = []
fold_unsafe (c ∷ s) = (if is_safe c then c else b'_') ∷ fold_unsafe s

unfoldable pub sanitize_save_key_part : Bytes → Bytes
unfolding fold_unsafe
sanitize_save_key_part raw = if is_nil raw then codes "unnamed" else fold_unsafe raw

unfoldable pub ap_save_filename : Bytes → Bytes → Bytes
unfolding sanitize_save_key_part hex16 key_hash
ap_save_filename seed slot =
    codes "ap_"
    ++ (sanitize_save_key_part seed
        ++ (codes "_"
            ++ (sanitize_save_key_part slot
                ++ (codes "_" ++ (hex16 (key_hash seed slot) ++ codes ".ycsave")))))

unfoldable pub ap_bundle_filename : Bytes → Bytes → Bytes
unfolding sanitize_save_key_part
ap_bundle_filename seed slot =
    codes "ap_"
    ++ (sanitize_save_key_part seed ++ (codes "_" ++ (sanitize_save_key_part slot ++ codes ".zip")))

unfoldable pub contains : Bytes → Bytes → Bool
contains tag [] = starts_with tag []
contains tag (c ∷ s) = starts_with tag (c ∷ s) || contains tag s

unfoldable pub looks_like_save_blob : Bytes → Bool
unfolding contains
looks_like_save_blob blob =
    ltb (length header) (length blob) && (starts_with header blob && contains body_tag blob)

-- The tests of a part of the old state file's name.
abbrev pub is_legacy_part : Bytes → Bool
unfolding has_byte
is_legacy_part part =
    not (has_byte b'/' part || has_byte b'\\' part)
    && (not (has_byte b':' part || has_byte 0 part)
        && not (eqb_bytes part (codes ".") || eqb_bytes part (codes "..")))

unfoldable pub legacy_state_filename : Bytes → Bytes → Option Bytes
unfolding has_byte eqb_bytes
legacy_state_filename seed slot =
    if is_legacy_part seed && is_legacy_part slot
    then some (codes "ap_" ++ (seed ++ (codes "_" ++ (slot ++ codes ".state"))))
    else none
