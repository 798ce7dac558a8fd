-- ===== src/Caps/Applied.antt =====
-- `UpgradeState` of src/mth/core/upgrade_state.cpp: what was written to the save, and what is to be.
use mth_apclient.Base.{
  ℕ, zero, suc, ◌≤◌, ◌≡◌, ◌∙◌, sym, ◌⊎◌, inl, inr, refl, true, List, [], ◌∷◌, arith, get_or, set,
  length, pos_part, Bool-cases, length-set,
}
use mth_apclient.Caps.{
  clamped_upgrades, recompute_upgrades, clamp_all, force_dirty, mark_applied, eqb_counts,
  UpgradeState, new_upgrades, count_upgrades,
}
use mth_apclient.Ids.Vanilla.{is_capacity_upgrade_item, upgrade_caps, upgrade_index}
use mth_apclient.Ap.State.{ApState}
use mth_apclient.Ap.Events.{ReceivedItem}

eqb_counts-eq : (xs ys : List ℕ) → eqb_counts xs ys ≡ true → xs ≡ ys
unfolding eqb_counts
eqb_counts-eq [] [] h = refl
eqb_counts-eq [] (y ∷ ys) h = ground arith
eqb_counts-eq (x ∷ xs) [] h = ground arith
eqb_counts-eq (x ∷ xs) (y ∷ ys) h =
    let heads : (x ≡ y) × (eqb_counts xs ys ≡ true) = ground arith in
    rw (heads.0, eqb_counts-eq xs ys heads.1) refl

-- What the owner of an `UpgradeState` does with it; `writes` pushes the counts to the save.
pub data Operation : Type 0 where
  recomputes : ApState → Operation
  writes : Operation
  suppresses : Operation

unfoldable pub perform : Operation → UpgradeState → UpgradeState
perform (recomputes s) u = recompute_upgrades s u
perform writes u = mark_applied u
perform suppresses u = force_dirty u

unfoldable pub perform_all : List Operation → UpgradeState → UpgradeState
perform_all [] u = u
perform_all (op ∷ ops) u = perform_all ops (perform op u)

abbrev pub IsApplied : UpgradeState → Type 0
IsApplied u = (u.dirty ≡ true) ⊎ (u.applied ≡ u.counts)

perform-IsApplied : (op : Operation) (u : UpgradeState) → IsApplied u → IsApplied (perform op u)
unfolding perform
perform-IsApplied (recomputes s) u h =
    unfold recompute_upgrades in
    elim (Bool-cases (eqb_counts (clamped_upgrades s.received_items) u.applied)) [
      | inl same ↦ inr (sym (eqb_counts-eq (clamped_upgrades s.received_items) u.applied same))
      | inr other ↦ inl (ground (arith, other))
    ]
perform-IsApplied writes u h = unfold mark_applied in inr refl
perform-IsApplied suppresses u h = unfold force_dirty in inl refl

perform_all-IsApplied' :
    (ops : List Operation) (u : UpgradeState) → IsApplied u → IsApplied (perform_all ops u)
unfolding perform_all
perform_all-IsApplied' [] u h = h
perform_all-IsApplied' (op ∷ ops) u h =
    perform_all-IsApplied' ops (perform op u) (perform-IsApplied op u h)

-- After any sequence of recomputations, writes and suppressions, an upgrade state that is not dirty
-- has written exactly the counts it holds.
pub perform_all-IsApplied : (ops : List Operation) → IsApplied (perform_all ops new_upgrades)
perform_all-IsApplied ops =
    perform_all-IsApplied' ops new_upgrades (unfold new_upgrades in inr refl)

clamp_all-bound :
    (ns caps : List ℕ) (i : ℕ)
    → length ns ≡ length caps
    → get_or (clamp_all ns caps) i 0 ≤ get_or caps i 0
unfolding clamp_all
clamp_all-bound [] caps i h = ground arith
clamp_all-bound (n ∷ ns) [] i h = ground arith
clamp_all-bound (n ∷ ns) (cap ∷ caps) zero h = ground arith
clamp_all-bound (n ∷ ns) (cap ∷ caps) (suc i) h = clamp_all-bound ns caps i (omega (arith, h))

length-count_upgrades :
    (items : List ReceivedItem) (counts : List ℕ)
    → length (count_upgrades items counts) ≡ length counts
unfolding count_upgrades
length-count_upgrades [] counts = refl
length-count_upgrades (it ∷ items) counts =
    let i = pos_part (upgrade_index it.item_id) in
    let next = suc (get_or counts i 0) in
    elim (Bool-cases (is_capacity_upgrade_item it.item_id)) [
      | inl counted ↦
          rw counted (length-count_upgrades items (set counts i next) ∙ length-set counts i next)
      | inr other ↦ rw other (length-count_upgrades items counts)
    ]

-- However many receipts of an upgrade arrive, duplicates and unreceivable ones included, no count
-- that is written exceeds the game's number of that upgrade.
pub clamped_upgrades-bound :
    (items : List ReceivedItem) (i : ℕ)
    → get_or (clamped_upgrades items) i 0 ≤ get_or upgrade_caps i 0
unfolding clamped_upgrades
clamped_upgrades-bound items i =
    clamp_all-bound (count_upgrades items (0 ∷ 0 ∷ 0 ∷ 0 ∷ 0 ∷ [])) upgrade_caps i
      (length-count_upgrades items (0 ∷ 0 ∷ 0 ∷ 0 ∷ 0 ∷ []))
