-- ===== src/Signatures.antt =====
-- src/mth/core/sig_scan.hpp and sig_scan.cpp: signatures of code in a region of bytes. An address is
-- a number below 2 ^ 64, and what is added to one wraps round there; a read outside of a table of
-- bytes, which the callers rule out, gives 0.
pub mod Unique
pub mod Sites
pub mod Resolved
pub mod Once
use mth_apclient.Base.{
  ℕ, zero, suc, ◌+◌, ◌-◌, ◌*◌, ◌^◌, ◌%◌, Bool, true, false, ◌&&◌, ◌||◌, not, ltb, ◌==◌,
  if◌then◌else◌, get_or, length, ℤ, pos, negsuc, Bytes, Option, none, some, [], ◌∷◌,
}

pub data Kind : Type 0 where
  code : Kind
  data_ref : Kind

pub record Signature : Type 0 where
  pub kind : Kind
  pub pattern : Bytes
  pub mask : Bytes
  pub len : ℕ
  pub disp_off : ℤ
  pub next_insn : ℤ

pub record Match : Type 0 where
  pub found : Bool
  pub unique : Bool
  pub offset : ℕ

-- The loop of `matches_at`, with the rounds left, over the bytes from `base`.
unfoldable pub matches_from : Bytes → ℕ → Bytes → Bytes → ℕ → ℕ → Bool
matches_from region base pattern mask i zero = true
matches_from region base pattern mask i (suc n) =
    let rest = matches_from region base pattern mask (suc i) n in
    if not (get_or mask i 0 == 0) && not (get_or region (base + i) 0 == get_or pattern i 0)
    then false
    else rest

unfoldable pub matches_at : Bytes → ℕ → Bytes → Bytes → ℕ → Bool
unfolding matches_from
matches_at region base pattern mask len = matches_from region base pattern mask 0 len

-- The loop of `find_masked` by the test of a position, with the rounds left.
unfoldable pub scan : (ℕ → Bool) → ℕ → ℕ → Match → Match
scan test i zero result = result
scan test i (suc n) result =
    let missed = scan test (suc i) n result in
    let first = scan test (suc i) n (record { found = true; unique = true; offset = i }) in
    if not (test i)
    then missed
    else if not result.found
    then first
    else record result { unique = false }

abbrev pub no_match : Match
no_match = record { found = false; unique = false; offset = 0 }

unfoldable pub find_masked : Bytes → Bytes → Bytes → ℕ → Match
unfolding scan matches_at
find_masked region pattern mask len =
    if (len == 0) || ltb (length region) len
    then no_match
    else scan (λ i. matches_at region i pattern mask len) 0 (suc (length region - len)) no_match

-- `read_i32le`, as the 64 bits that its sign extension has.
unfoldable pub read_i32le : Bytes → ℕ → ℕ
read_i32le region p =
    let v =
      get_or region p 0
      + 256 * get_or region (p + 1) 0
      + 65536 * get_or region (p + 2) 0
      + 16777216 * get_or region (p + 3) 0 in
    if ltb v (2 ^ 31) then v else v + 2 ^ 64 - 2 ^ 32

-- A cast to 64 bits.
abbrev pub to_size : ℤ → ℕ
to_size (pos n) = n % 2 ^ 64
to_size (negsuc n) = 2 ^ 64 - 1 - n % 2 ^ 64

unfoldable pub resolve : Bytes → ℕ → Signature → ℕ
unfolding find_masked read_i32le
resolve region region_base entry =
    let m = find_masked region entry.pattern entry.mask entry.len in
    let disp_at = (m.offset + to_size entry.disp_off) % 2 ^ 64 in
    let next_ip = (region_base + m.offset + to_size entry.next_insn) % 2 ^ 64 in
    if not m.found || not m.unique then 0 else elim entry.kind [
      | code ↦ (region_base + m.offset) % 2 ^ 64
      | data_ref ↦
          if ltb (length region) ((disp_at + 4) % 2 ^ 64)
          then 0
          else (next_ip + read_i32le region disp_at) % 2 ^ 64
    ]

-- The target of an instruction at `insn` in a region; the two lengths are those of instructions.
unfoldable pub read_riprel_target : Bytes → ℕ → ℕ → ℕ → ℕ → ℕ
unfolding read_i32le
read_riprel_target region insn insn_addr disp_off insn_len =
    (insn_addr + insn_len + read_i32le region (insn + disp_off)) % 2 ^ 64

-- The comparison with the operation's bytes, from byte `j`.
unfoldable pub op_from : Bytes → ℕ → ℕ → Bytes → Bool
op_from region i j [] = true
op_from region i j (b ∷ op) =
    let rest = op_from region i (suc j) op in
    if not (get_or region (i + j) 0 == b) then false else rest

-- The loop of `find_riprel_load`, with the site found so far; a second one ends it.
unfoldable pub scan_once : (ℕ → Bool) → ℕ → ℕ → Option ℕ → Option ℕ
scan_once test i zero at = at
scan_once test i (suc n) at =
    let missed = scan_once test (suc i) n at in
    let hit = scan_once test (suc i) n (some i) in
    if not (test i) then missed else elim at [ none ↦ hit | some other ↦ none ]

abbrev pub max : ℕ → ℕ → ℕ
max a b = if ltb a b then b else a

unfoldable pub find_riprel_load : Bytes → ℕ → Bytes → ℕ → ℕ → ℕ
unfolding scan_once op_from read_riprel_target
find_riprel_load region region_base op disp_off insn_len =
    let need = max insn_len (length op) in
    if ltb (length region) need
    then 0
    else elim (scan_once (λ i. op_from region i 0 op) 0 (suc (length region - need)) none) [
      | none ↦ 0
      | some at ↦ read_riprel_target region at (region_base + at) disp_off insn_len
    ]
