-- ===== src/Base/IntSet.antt =====
-- `std::set<int>` and `std::set<std::int64_t>`: the elements in increasing order.
use mathlib.Core.Path.{◌≡◌, refl, sym, ◌∙◌}
use mathlib.Core.Bool.{Bool, false, ◌||◌}
use mathlib.Core.List.{List, [], ◌∷◌, ◌++◌, append-nil}
use mth_apclient.Base.Lists.{append-assoc_lem}
use native.Mathlib.Omega.{arith}
use mth_apclient.Base.Tests.{if◌then◌else◌}
use mth_apclient.Base.Int.{ℤ, ltb_ℤ, eqb_ℤ, ◌<ℤ◌, eqb_ℤ_iff}

unfoldable pub contains : List ℤ → ℤ → Bool
contains [] a = false
contains (x ∷ xs) a = eqb_ℤ x a || contains xs a

unfoldable pub insert : ℤ → List ℤ → List ℤ
insert a [] = a ∷ []
insert a (x ∷ xs) = if ltb_ℤ a x then a ∷ x ∷ xs else if eqb_ℤ a x then x ∷ xs else x ∷ insert a xs

unfoldable pub remove : ℤ → List ℤ → List ℤ
remove a [] = []
remove a (x ∷ xs) = if eqb_ℤ x a then xs else x ∷ remove a xs

-- Every element is above the bound, and the elements rise.
abbrev pub Above : ℤ → List ℤ → Type 0
Above a [] = Unit {0}
Above a (x ∷ xs) = (a <ℤ x) × Above x xs

abbrev pub IsSorted : List ℤ → Type 0
IsSorted [] = Unit {0}
IsSorted (x ∷ xs) = Above x xs

pub contains-insert :
    (a b : ℤ) (xs : List ℤ) → contains (insert a xs) b ≡ (eqb_ℤ a b || contains xs b)
unfolding contains insert
contains-insert a b [] = refl
contains-insert a b (x ∷ xs) = ground (arith, eqb_ℤ_iff a x, contains-insert a b xs)

pub insert-Above : (a b : ℤ) (xs : List ℤ) → a <ℤ b → Above a xs → Above a (insert b xs)
unfolding insert
insert-Above a b [] h s = (h, tt)
insert-Above a b (x ∷ xs) h s = ground (arith, insert-Above x b xs)

pub insert-IsSorted : (a : ℤ) (xs : List ℤ) → IsSorted xs → IsSorted (insert a xs)
unfolding insert
insert-IsSorted a [] s = tt
insert-IsSorted a (x ∷ xs) s = ground (arith, insert-Above x a xs)

-- `insert(begin, end)` of a range.
unfoldable pub insert_all : List ℤ → List ℤ → List ℤ
insert_all [] s = s
insert_all (a ∷ rest) s = insert_all rest (insert a s)

pub contains-insert_all :
    (xs s : List ℤ) (a : ℤ) → contains (insert_all xs s) a ≡ (contains s a || contains xs a)
unfolding insert_all contains
contains-insert_all [] s a = ground arith
contains-insert_all (x ∷ xs) s a =
    ground (arith, contains-insert_all xs (insert x s) a, contains-insert x a s)

pub insert_all-IsSorted : (xs s : List ℤ) → IsSorted s → IsSorted (insert_all xs s)
unfolding insert_all
insert_all-IsSorted [] s h = h
insert_all-IsSorted (x ∷ xs) s h = insert_all-IsSorted xs (insert x s) (insert-IsSorted x s h)

Above-later : (a v : ℤ) (xs vs : List ℤ) → Above a (xs ++ v ∷ vs) → a <ℤ v
Above-later a v [] vs h = h.0
Above-later a v (x ∷ xs) vs h = omega (arith, h.0, Above-later x v xs vs h.1)

IsSorted-tail : (a : ℤ) (xs : List ℤ) → Above a xs → IsSorted xs
IsSorted-tail a [] h = tt
IsSorted-tail a (x ∷ xs) h = h.1

insert-snoc : (v : ℤ) (xs vs : List ℤ) → IsSorted (xs ++ v ∷ vs) → insert v xs ≡ xs ++ v ∷ []
unfolding insert
insert-snoc v [] vs h = refl
insert-snoc v (x ∷ xs) vs h =
    ground (arith, Above-later x v xs vs h, insert-snoc v xs vs (IsSorted-tail x (xs ++ v ∷ vs) h))

-- Inserting a sorted range behind smaller elements appends it.
insert_all-append : (vs xs : List ℤ) → IsSorted (xs ++ vs) → insert_all vs xs ≡ xs ++ vs
unfolding insert_all
insert_all-append [] xs h = sym (append-nil xs)
insert_all-append (v ∷ vs) xs h = rw (insert-snoc v xs vs h) (
    insert_all-append vs (xs ++ v ∷ []) (rw (append-assoc_lem xs (v ∷ []) vs) h)
    ∙ append-assoc_lem xs (v ∷ []) vs)

pub insert_all-sorted : (vs : List ℤ) → IsSorted vs → insert_all vs [] ≡ vs
insert_all-sorted vs h = insert_all-append vs [] h

pub contains-remove :
    (a b : ℤ) (xs : List ℤ) → eqb_ℤ a b ≡ false → contains (remove a xs) b ≡ contains xs b
unfolding contains remove
contains-remove a b [] h = refl
contains-remove a b (x ∷ xs) h =
    ground (arith, eqb_ℤ_iff a b, eqb_ℤ_iff x a, eqb_ℤ_iff x b, contains-remove a b xs h)
