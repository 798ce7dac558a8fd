-- ===== src/Goal/Monotone.antt =====
-- `have_all_kears` of src/mth/core/kear_completion.hpp under further receipts.
use mth_apclient.Base.{
  ℕ, zero, suc, ◌+◌, ◌≤◌, ◌≡◌, refl, true, ◌||◌, List, [], ◌∷◌, ◌++◌, arith, ℤ, pos, eqb_ℤ_iff, leb,
}
use mth_apclient.Goal.{
  holds_from, have_all_kears, single_kear_item_ids, count_kears, area_kear_first_item_id,
  count_held, received_has, single_kear_required, area_kear_count,
}
use mth_apclient.Ap.Events.{area_ap_items, vanilla, KearMode, ap_items, ReceivedItem}

received_has-append :
    (xs ys : List ReceivedItem) (id : ℤ)
    → received_has (xs ++ ys) id ≡ (received_has xs id || received_has ys id)
unfolding received_has
received_has-append [] ys id = refl
received_has-append (x ∷ xs) ys id = ground (arith, received_has-append xs ys id)

count_kears-append :
    (xs ys : List ReceivedItem) → count_kears (xs ++ ys) ≡ count_kears xs + count_kears ys
unfolding count_kears
count_kears-append [] ys = omega arith
count_kears-append (x ∷ xs) ys = omega (arith, count_kears-append xs ys)

count_held-append :
    (ids : List ℕ) (xs ys : List ReceivedItem) → count_held ids xs ≤ count_held ids (xs ++ ys)
unfolding count_held
count_held-append [] xs ys = omega arith
count_held-append (id ∷ ids) xs ys =
    ground (arith, received_has-append xs ys (pos id), count_held-append ids xs ys)

holds_from-append :
    (id n : ℕ) (xs ys : List ReceivedItem)
    → holds_from id n xs ≡ true
    → holds_from id n (xs ++ ys) ≡ true
unfolding holds_from
holds_from-append id zero xs ys h = refl
holds_from-append id (suc n) xs ys h =
    ground (arith, received_has-append xs ys (pos id), holds_from-append (suc id) n xs ys)

leb_mono : (n a b : ℕ) → a ≤ b → leb n a ≡ true → leb n b ≡ true
leb_mono n a b h k = ground arith

-- In every mode, a run that holds all its kears still holds them after any further receipts.
pub have_all_kears-append :
    (mode : KearMode) (xs ys : List ReceivedItem)
    → have_all_kears mode xs ≡ true
    → have_all_kears mode (xs ++ ys) ≡ true
unfolding have_all_kears
have_all_kears-append vanilla xs ys h = ground (arith, count_kears-append xs ys)
have_all_kears-append ap_items xs ys h =
    leb_mono single_kear_required (count_held single_kear_item_ids xs)
      (count_held single_kear_item_ids (xs ++ ys)) (count_held-append single_kear_item_ids xs ys) h
have_all_kears-append area_ap_items xs ys h =
    holds_from-append area_kear_first_item_id area_kear_count xs ys h

duplicate_held :
    (ids : List ℕ) (x : ReceivedItem) (xs : List ReceivedItem)
    → received_has xs x.item_id ≡ true
    → count_held ids (x ∷ xs) ≡ count_held ids xs
unfolding count_held received_has
duplicate_held [] x xs h = refl
duplicate_held (id ∷ ids) x xs h =
    ground (arith, duplicate_held ids x xs h, eqb_ℤ_iff x.item_id (pos id))

-- With kears as their own items, a duplicate counts for nothing: one more receipt of an id that is
-- held leaves the verdict as it is.
pub have_all_kears-duplicate :
    (x : ReceivedItem) (xs : List ReceivedItem)
    → received_has xs x.item_id ≡ true
    → have_all_kears ap_items (x ∷ xs) ≡ have_all_kears ap_items xs
unfolding have_all_kears
have_all_kears-duplicate x xs h = rw (duplicate_held single_kear_item_ids x xs h) refl
