-- ===== src/Logs/Holds.antt =====
-- The invariant of `LogRing` (src/mth/core/log_ring.cpp), kept by its two ways of writing a line.
use native.Mathlib.Nat.{mod-eq_of_lt, mod-eq-sub-mod, mod-add-mod, mod-lt}
use mth_apclient.Base.{
  ℕ, zero, suc, ◌+◌, ◌-◌, ◌%◌, ◌≤◌, ◌<◌, ◌≡◌, ◌∙◌, ◌⊎◌, inl, inr, refl, List, [], ◌∷◌, ◌++◌, arith,
  ltb, ◌==◌, if◌then◌else◌, get_or, set, length, Bool-cases, ltb→lt, Bytes, ap, length-append,
  length-set, get_or-set,
}
use mth_apclient.Logs.{new_ring, LogRing}

-- A remainder just above the divisor.
wrap : (a n : ℕ) → 0 < n → a < n + n → a % n ≡ (if ltb a n then a else a - n)
wrap a n h k = elim (Bool-cases (ltb a n)) [
  | inl less ↦ rw less (mod-eq_of_lt (ltb→lt a n less))
  | inr more ↦ rw more (mod-eq-sub-mod (ground arith) ∙ mod-eq_of_lt (ground arith))
]

get_or-snoc :
    (xs : List Bytes) (x : Bytes) (i : ℕ)
    → get_or (xs ++ x ∷ []) i []
      ≡ (if ltb i (length xs) then get_or xs i [] else if i == length xs then x else [])
get_or-snoc [] x zero = refl
get_or-snoc [] x (suc i) = ground arith
get_or-snoc (y ∷ xs) x zero = ground arith
get_or-snoc (y ∷ xs) x (suc i) = ground (arith, get_or-snoc xs x i)

-- `all` is everything that was pushed, oldest first.
pub record Holds (r : LogRing) (all : List Bytes) : Type 0 where
  pub room : 0 < r.capacity
  pub within : length r.lines ≤ r.capacity
  pub filling : length r.lines < r.capacity → (r.head ≡ 0) × (length r.lines ≡ length all)
  pub pushed : length r.lines ≤ length all
  pub head_inside : (r.head < length r.lines) ⊎ (r.head ≡ 0)
  pub newest :
      (j : ℕ)
      → j < length r.lines
      → get_or r.lines ((r.head + j) % length r.lines) []
        ≡ get_or all ((length all - length r.lines) + j) []

pub new_ring-Holds : (capacity : ℕ) → Holds (new_ring capacity) []
unfolding new_ring
new_ring-Holds capacity = record {
  room = ground arith;
  within = ground arith;
  filling = λ h. (refl, refl);
  pushed = ground arith;
  head_inside = inr refl;
  newest = λ j h. ground arith;
}

-- While the ring fills, it is what was pushed.
filling_newest :
    (r : LogRing) (all : List Bytes) (j : ℕ)
    → length r.lines < r.capacity
    → Holds r all
    → j < length r.lines
    → get_or r.lines j [] ≡ get_or all j []
filling_newest r all j h v k =
    let (start, same) = v.filling h in
    let at : r.head + j ≡ j = omega (arith, start) in
    let old : (length all - length r.lines) + j ≡ j = omega (arith, same) in
    let here = mod-eq_of_lt k in let now = v.newest j k in grind (arith, at, old, here, now)

sum_from_zero : (a b : ℕ) → a ≡ 0 → a + b ≡ b
sum_from_zero a b h = omega (arith, h)

pub append-Holds :
    (line : Bytes) (r : LogRing) (all : List Bytes)
    → length r.lines < r.capacity
    → Holds r all
    → Holds (record r { lines = r.lines ++ line ∷ [] }) (all ++ line ∷ [])
append-Holds line r all h v =
    let lines_length = length-append r.lines (line ∷ []) in
    let all_length = length-append all (line ∷ []) in
    let (start, same) = v.filling h in
    record {
      room = v.room;
      within = omega (arith, lines_length, h);
      filling = λ k. (start, omega (arith, lines_length, all_length, same));
      pushed = omega (arith, lines_length, all_length, same);
      head_inside = inr start;
      newest = λ j k. append_newest j k;
    }
  where
    append_newest :
        (j : ℕ)
        → j < length (r.lines ++ line ∷ [])
        → get_or (r.lines ++ line ∷ []) ((r.head + j) % length (r.lines ++ line ∷ [])) []
          ≡ get_or
              (all ++ line ∷ [])
              ((length (all ++ line ∷ []) - length (r.lines ++ line ∷ [])) + j)
              []
    append_newest j k =
        let start = (v.filling h).0 in
        let same = (v.filling h).1 in
        let position =
          ap (λ x. x % length (r.lines ++ line ∷ [])) (sum_from_zero r.head j start)
          ∙ mod-eq_of_lt k in
        let index : (length (all ++ line ∷ []) - length (r.lines ++ line ∷ [])) + j ≡ j =
          omega (arith, same, length-append r.lines (line ∷ []), length-append all (line ∷ [])) in
        rw (position, index)
          (ground (
            arith,
            get_or-snoc r.lines line j,
            get_or-snoc all line j,
            filling_newest r all j h v,
            same,
          ))

-- The position that holds the line `j + 1` after the oldest, `j` after the next oldest.
next_position : (head j n : ℕ) → (suc head % n + j) % n ≡ (head + suc j) % n
next_position head j n = mod-add-mod (suc head) n j ∙ ap (λ x. x % n) (omega arith)

pub overwrite-Holds :
    (line : Bytes) (r : LogRing) (all : List Bytes)
    → length r.lines ≡ r.capacity
    → Holds r all
    → Holds
        (record r { lines = set r.lines r.head line; head = suc r.head % length r.lines })
        (all ++ line ∷ [])
overwrite-Holds line r all h v =
    let same = length-set r.lines r.head line in
    let longer = length-append all (line ∷ []) in
    let some_room = v.room in
    let older = v.pushed in
    record {
      room = v.room;
      within = omega (arith, same, h);
      filling = λ k. (omega (arith, same, h, k), omega (arith, same, h, k));
      pushed = omega (arith, same, longer, older);
      head_inside = inl (rw same (mod-lt (suc r.head) (omega (arith, h, some_room))));
      newest = λ j k. overwrite_newest j (omega (arith, same, k));
    }
  where
    inside : r.head < length r.lines
    inside = let some_room = v.room in let place = v.head_inside in ground (arith, h)

    overwrite_newest :
        (j : ℕ)
        → j < length r.lines
        → get_or
            (set r.lines r.head line)
            ((suc r.head % length r.lines + j) % length (set r.lines r.head line))
            []
          ≡ get_or
              (all ++ line ∷ [])
              ((length (all ++ line ∷ []) - length (set r.lines r.head line)) + j)
              []
    overwrite_newest j k =
        let position =
          wrap (r.head + suc j) (length r.lines) (omega (arith, k)) (omega (arith, inside, k)) in
        let older = v.pushed in
        rw (length-set r.lines r.head line, next_position r.head j (length r.lines), position)
          (ground (
            arith,
            get_or-set r.lines r.head
                (if ltb (r.head + suc j) (length r.lines)
                  then r.head + suc j
                  else (r.head + suc j) - length r.lines)
                line [] inside,
            get_or-snoc all line ((length (all ++ line ∷ []) - length r.lines) + j),
            length-append all (line ∷ []),
            v.newest (suc j),
            position,
            older,
            inside,
            k,
          ))
