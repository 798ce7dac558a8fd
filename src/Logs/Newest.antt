-- ===== src/Logs/Newest.antt =====
-- `LogRing` of src/mth/core/log_ring.cpp against the list of all that was pushed.
use mathlib.Core.Path.{subst}
use mathlib.Core.List.{append-nil}
use mth_apclient.Base.{
  ℕ, zero, suc, ◌+◌, ◌-◌, ◌<◌, ◌≡◌, ◌∙◌, ap, sym, inl, inr, refl, List, [], ◌∷◌, ◌++◌, arith, ltb,
  ◌==◌, if◌then◌else◌, get_or, length, Bool-cases, drop, ltb→lt, append-assoc_lem, Bytes,
}
use mth_apclient.Logs.{push, LogRing, snapshot, new_ring, read_from}
use mth_apclient.Logs.Holds.{overwrite-Holds, append-Holds, new_ring-Holds, Holds}

unfoldable pub push_all : List Bytes → LogRing → LogRing
push_all [] r = r
push_all (line ∷ lines) r = push_all lines (push line r)

push-Holds :
    (line : Bytes) (r : LogRing) (all : List Bytes)
    → Holds r all
    → Holds (push line r) (all ++ line ∷ [])
unfolding push
push-Holds line r all v = elim (Bool-cases (ltb (length r.lines) r.capacity)) [
  | inl less ↦ rw less (append-Holds line r all (ltb→lt _ _ less) v)
  | inr full ↦ let within = v.within in rw full (overwrite-Holds line r all (ground arith) v)
]

push_all-Holds :
    (lines all : List Bytes) (r : LogRing) → Holds r all → Holds (push_all lines r) (all ++ lines)
unfolding push_all
push_all-Holds [] all r v = subst (λ x. Holds r x) (sym (append-nil all)) v
push_all-Holds (line ∷ lines) all r v =
    subst (λ x. Holds (push_all lines (push line r)) x) (append-assoc_lem all (line ∷ []) lines)
      (push_all-Holds lines (all ++ line ∷ []) (push line r) (push-Holds line r all v))

drop-get_or :
    (k : ℕ) (xs : List Bytes) → k < length xs → drop k xs ≡ get_or xs k [] ∷ drop (suc k) xs
drop-get_or zero [] h = elim h [ ]
drop-get_or zero (x ∷ xs) h = refl
drop-get_or (suc k) [] h = elim h [ ]
drop-get_or (suc k) (x ∷ xs) h = drop-get_or k xs (omega (arith, h))

drop-length : (xs : List Bytes) → drop (length xs) xs ≡ []
drop-length [] = refl
drop-length (x ∷ xs) = drop-length xs

-- Reading the ring's positions in order reads the end of what was pushed.
read_from-drop :
    (n i k : ℕ) (r : LogRing) (all : List Bytes)
    → i + n ≡ length r.lines
    → k + n ≡ length all
    → Holds r all
    → read_from r i n ≡ drop k all
unfolding read_from
read_from-drop zero i k r all h e v =
    sym (ap (λ x. drop x all) (omega (arith, e)) ∙ drop-length all)
read_from-drop (suc n) i k r all h e v =
    let inside : i < length r.lines = omega (arith, h) in
    let index : (length all - length r.lines) + i ≡ k = omega (arith, h, e) in
    let rest = read_from-drop n (suc i) (suc k) r all (omega (arith, h)) (omega (arith, e)) v in
    rw (drop-get_or k all (omega (arith, e)), v.newest i inside, index, rest) refl

capacity-push : (line : Bytes) (r : LogRing) → (push line r).capacity ≡ r.capacity
unfolding push
capacity-push line r = ground arith

capacity-push_all : (lines : List Bytes) (r : LogRing) → (push_all lines r).capacity ≡ r.capacity
unfolding push_all
capacity-push_all [] r = refl
capacity-push_all (line ∷ lines) r = capacity-push_all lines (push line r) ∙ capacity-push line r

dropped_count :
    (r : LogRing) (all : List Bytes)
    → Holds r all
    → length all - length r.lines ≡ length all - r.capacity
dropped_count r all v =
    let within = v.within in
    elim (Bool-cases (ltb (length r.lines) r.capacity)) [
      | inl less ↦ let same = (v.filling (ltb→lt _ _ less)).1 in omega (arith, within, same)
      | inr full ↦ ground arith
    ]

-- Whatever is logged, a snapshot is the newest lines, oldest first: as many as the capacity, or all
-- of them where there are fewer; a capacity of 0 counts as 1.
pub snapshot-push_all :
    (capacity : ℕ) (lines : List Bytes)
    → snapshot (push_all lines (new_ring capacity))
      ≡ drop (length lines - (if capacity == 0 then 1 else capacity)) lines
unfolding snapshot new_ring
snapshot-push_all capacity lines =
    let r = push_all lines (new_ring capacity) in
    let v = push_all-Holds lines [] (new_ring capacity) (new_ring-Holds capacity) in
    let older = v.pushed in
    let within = v.within in
    let room = capacity-push_all lines (new_ring capacity) in
    let start : length lines - length r.lines ≡ length lines - (new_ring capacity).capacity =
      dropped_count r lines v ∙ ap (λ x. length lines - x) room in
    read_from-drop (length r.lines) 0 (length lines - length r.lines) r lines (omega arith)
      (omega (arith, older)) v
    ∙ ap (λ x. drop x lines) start
