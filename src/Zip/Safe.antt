-- ===== src/Zip/Safe.antt =====
-- What `read` of src/mth/core/save/zip_archive.cpp accepts from a user-writable image.
use mathlib.Core.Bool.{true≢false}
use mth_apclient.Base.{
  ◌≤◌, and_parts, or_parts, not_parts, List, ℕ, ◌≡◌, ◌≢◌, true, false, [], ◌∷◌, ◌++◌, ◌==◌,
  if◌then◌else◌, get_or, All, Bytes, ◌∙◌, ap, sym, Bool, ◌&&◌, ◌||◌, not, arith, ltb, length, inl,
  inr, refl, Bool-cases, Option, none, some, eqb_bytes, eqb_bytes-eq,
}
use mth_apclient.Zip.{parts_safe, is_dotdot, name_is_safe, has_byte, is_nil}

-- The components of a path.
abbrev components : Bytes → Bytes → List Bytes
components part [] = part ∷ []
components part (c ∷ s) =
    let ended = components [] s in
    let longer = components (part ++ c ∷ []) s in if c == b'/' then part ∷ ended else longer

-- A name that is not empty, does not begin with a slash, has no backslash, colon or zero byte, and
-- has no component "..".
abbrev pub IsInside : Bytes → Type 0
IsInside name =
    (name ≢ [])
    × (get_or name 0 0 ≢ b'/')
    × All (λ c. (c ≢ b'\\') × (c ≢ b':') × (c ≢ 0)) name
    × All (λ part. part ≢ b'.' ∷ b'.' ∷ []) (components [] name)

abbrev IsDown : Bytes → Type 0
IsDown part = part ≢ b'.' ∷ b'.' ∷ []

is_dotdot-IsDown : (part : Bytes) → is_dotdot part ≡ false → IsDown part
is_dotdot-IsDown part h e = true≢false (ap is_dotdot (sym e) ∙ h)

parts_safe_step :
    (slash : Bool) (part : Bytes) (ended longer : Bool) (xs ys : List Bytes)
    → (if slash then not (is_dotdot part) && ended else longer) ≡ true
    → (ended ≡ true → All IsDown xs)
    → (longer ≡ true → All IsDown ys)
    → All IsDown (if slash then part ∷ xs else ys)
parts_safe_step true part ended longer xs ys h hx hy =
    let both = and_parts (not (is_dotdot part)) ended h in
    (is_dotdot-IsDown part (not_parts (is_dotdot part) both.0), hx both.1)
parts_safe_step false part ended longer xs ys h hx hy = hy h

parts_safe-IsDown : (part s : Bytes) → parts_safe part s ≡ true → All IsDown (components part s)
unfolding parts_safe
parts_safe-IsDown part [] h = (is_dotdot-IsDown part (not_parts (is_dotdot part) h), tt)
parts_safe-IsDown part (c ∷ s) h =
    parts_safe_step (c == b'/') part (parts_safe [] s) (parts_safe (part ++ c ∷ []) s)
      (components [] s) (components (part ++ c ∷ []) s) h (parts_safe-IsDown [] s)
      (parts_safe-IsDown (part ++ c ∷ []) s)

has_byte_lem : (c : ℕ) (s : Bytes) → has_byte c s ≡ false → All (λ x. x ≢ c) s
unfolding has_byte
has_byte_lem c [] h = tt
has_byte_lem c (x ∷ s) h =
    let both = or_parts (x == c) (has_byte c s) h in
    ((λ e. (let f = both.0 in ground arith)), has_byte_lem c s both.1)

zip-All :
    (s : Bytes)
    → All (λ c. c ≢ b'\\') s
    → All (λ c. c ≢ b':') s
    → All (λ c. c ≢ 0) s
    → All (λ c. (c ≢ b'\\') × (c ≢ b':') × (c ≢ 0)) s
zip-All [] a b c = tt
zip-All (x ∷ s) a b c = ((a.0, b.0, c.0), zip-All s a.1 b.1 c.1)

guards :
    (a b c d e f : Bool)
    → (if a
        then false
        else if b
        then false
        else if c
        then false
        else if d
        then false
        else if e
        then false
        else f)
      ≡ true
    → (a ≡ false) × (b ≡ false) × (c ≡ false) × (d ≡ false) × (e ≡ false) × (f ≡ true)
guards a b c d e f h = ground arith

pub name_is_safe-IsInside : (name : Bytes) → name_is_safe name ≡ true → IsInside name
unfolding name_is_safe
name_is_safe-IsInside name h =
    let first = get_or name 0 0 in
    let (size, front, backslash, colon, nul, down) =
      guards (is_nil name || ltb 4096 (length name)) ((first == b'/') || (first == b'\\'))
        (has_byte b'\\' name) (has_byte b':' name) (has_byte 0 name) (parts_safe [] name) h in
    let some_bytes = (or_parts (is_nil name) (ltb 4096 (length name)) size).0 in
    let relative = (or_parts (first == b'/') (first == b'\\') front).0 in
    (
      (λ e. true≢false (ap is_nil (sym e) ∙ some_bytes)),
      (λ e. (let r = relative in ground arith)),
      zip-All name (has_byte_lem b'\\' name backslash) (has_byte_lem b':' name colon)
          (has_byte_lem 0 name nul),
      parts_safe-IsDown [] name down,
    )

pub length-name_is_safe : (name : Bytes) → name_is_safe name ≡ true → length name ≤ 4096
unfolding name_is_safe
length-name_is_safe name h = ground arith

-- The systems that may extract an archive, by what they take for a separator.
pub data Host : Type 0 where
  posix windows : Host

abbrev pub is_separator : Host → ℕ → Bool
is_separator posix c = c == b'/'
is_separator windows c = (c == b'/') || (c == b'\\')

-- A name that does not go from the target directory: it begins at a root or, on Windows, may name
-- a drive or a stream.
abbrev pub is_rooted : Host → Bytes → Bool
is_rooted posix name = get_or name 0 0 == b'/'
is_rooted windows name = is_separator windows (get_or name 0 0) || has_byte b':' name

unfoldable pub parts_of : Host → Bytes → Bytes → List Bytes
parts_of host part [] = part ∷ []
parts_of host part (c ∷ s) =
    let ended = parts_of host [] s in
    let longer = parts_of host (part ++ c ∷ []) s in
    if is_separator host c then part ∷ ended else longer

-- A component that changes nothing: an empty one, or a dot.
abbrev pub stays : Bytes → Bool
stays [] = true
stays (c ∷ []) = c == b'.'
stays _ = false

-- Walking the components from a directory, which is the list of its own components, innermost
-- first; `none` leads above the root.
unfoldable pub walk : List Bytes → List Bytes → Option (List Bytes)
walk dir [] = some dir
walk dir (part ∷ parts) =
    let stay = walk dir parts in
    let down = walk (part ∷ dir) parts in
    let up : Option (List Bytes) = elim dir [ [] ↦ none | top ∷ above ↦ walk above parts ] in
    if stays part then stay else if eqb_bytes part (b'.' ∷ b'.' ∷ []) then up else down

-- Where a host that extracts into a directory puts a name, without checks of its own.
unfoldable pub extracted : Host → List Bytes → Bytes → Option (List Bytes)
unfolding parts_of walk
extracted host dir name = if is_rooted host name then none else walk dir (parts_of host [] name)

walk-down :
    (parts below dir : List Bytes)
    → All IsDown parts
    → (path : List Bytes) × (walk (below ++ dir) parts ≡ some (path ++ dir))
unfolding walk
walk-down [] below dir h = (below, refl)
walk-down (part ∷ parts) below dir h = elim (Bool-cases (stays part)) [
  | inl e ↦ let (path, ends) = walk-down parts below dir h.1 in (path, rw e ends)
  | inr e ↦ elim (Bool-cases (eqb_bytes part (b'.' ∷ b'.' ∷ []))) [
    | inl up ↦ absurd (h.0 (eqb_bytes-eq part (b'.' ∷ b'.' ∷ []) up))
    | inr down ↦
        let (path, ends) = walk-down parts (part ∷ below) dir h.1 in (path, rw (e, down) ends)
  ]
]

parts_of-components :
    (host : Host) (part s : Bytes)
    → All (λ c. (c ≢ b'\\') × (c ≢ b':') × (c ≢ 0)) s
    → parts_of host part s ≡ components part s
unfolding parts_of
parts_of-components host part [] h = refl
parts_of-components host part (c ∷ s) h =
    rw
      (
        separator host,
        parts_of-components host [] s h.1,
        parts_of-components host (part ++ c ∷ []) s h.1,
      )
      refl
  where
    separator : (host : Host) → is_separator host c ≡ (c == b'/')
    separator posix = refl
    separator windows = let other = h.0.0 in ground arith

not_rooted : (host : Host) (name : Bytes) → name_is_safe name ≡ true → is_rooted host name ≡ false
unfolding name_is_safe
not_rooted posix name h = ground arith
not_rooted windows name h = ground arith

-- A name that the test accepts leads nowhere but below the directory it is extracted in, or to
-- that directory itself, when its components are walked from there: whichever directory that is, on
-- a system where only slashes are separators, and on one where backslashes are too and a colon
-- names a drive or a stream.
pub name_is_safe-extracted :
    (host : Host) (dir : List Bytes) (name : Bytes)
    → name_is_safe name ≡ true
    → (path : List Bytes) × (extracted host dir name ≡ some (path ++ dir))
unfolding extracted
name_is_safe-extracted host dir name h =
    let (some_bytes, relative, plain, down) = name_is_safe-IsInside name h in
    rw (not_rooted host name h, parts_of-components host [] name plain)
      (walk-down (components [] name) [] dir down)
