-- ===== src/Ap/State/Stream.antt =====
-- The item stream of a connection, applied to `ApState` (src/mth/core/ap/ap_state.cpp).
use mathlib.Core.List.{append-nil}
use mth_apclient.Base.{
  ◌≡◌, ◌∙◌, sym, refl, List, [], ◌∷◌, ◌++◌, arith, ℤ, ◌≤ℤ◌, ◌<ℤ◌, All, ltb-ge, lt→ltb,
  append-assoc_lem,
}
use mth_apclient.Ap.State.{ApState, push_received, apply_item, apply}
use mth_apclient.Ap.Events.{ReceivedItem, ap_item_received}

-- The server's stream, item after item.
unfoldable pub apply_items : List ReceivedItem → ApState → ApState
apply_items [] s = s
apply_items (it ∷ items) s = apply_items items (apply (ap_item_received it) s)

apply_items_seen :
    (items : List ReceivedItem) (s : ApState)
    → All (λ it. it.index ≤ℤ s.last_item_index) items
    → apply_items items s ≡ s
unfolding apply_items apply apply_item
apply_items_seen [] s h = refl
apply_items_seen (it ∷ items) s (h, hs) = rw (ltb-ge _ _ h) (apply_items_seen items s hs)

apply_item-cursor :
    (item : ReceivedItem) (s : ApState)
    → (s.last_item_index ≤ℤ (apply_item item s).last_item_index)
      × (item.index ≤ℤ (apply_item item s).last_item_index)
unfolding apply_item push_received
apply_item-cursor item s = ground arith

cursor-apply_items :
    (items : List ReceivedItem) (s : ApState)
    → s.last_item_index ≤ℤ (apply_items items s).last_item_index
unfolding apply_items apply
cursor-apply_items [] s = omega arith
cursor-apply_items (it ∷ items) s =
    omega (arith, (apply_item-cursor it s).0, cursor-apply_items items (apply_item it s))

All-le_mono :
    (a b : ℤ) (items : List ReceivedItem)
    → a ≤ℤ b
    → All (λ it. it.index ≤ℤ a) items
    → All (λ it. it.index ≤ℤ b) items
All-le_mono a b [] h r = tt
All-le_mono a b (it ∷ items) h (r, rs) = (omega arith, All-le_mono a b items h rs)

apply_items-passed :
    (items : List ReceivedItem) (s : ApState)
    → All (λ it. it.index ≤ℤ (apply_items items s).last_item_index) items
unfolding apply_items apply
apply_items-passed [] s = tt
apply_items-passed (it ∷ items) s = (
  omega (arith, (apply_item-cursor it s).1, cursor-apply_items items (apply_item it s)),
  apply_items-passed items (apply_item it s),
)

-- A stream that the server sends a second time, whatever its indices are, changes nothing.
pub apply_items_resend :
    (items : List ReceivedItem) (s : ApState)
    → apply_items items (apply_items items s) ≡ apply_items items s
apply_items_resend items s =
    apply_items_seen items (apply_items items s) (apply_items-passed items s)

-- The indices rise, from above `last` on.
abbrev pub Rises : ℤ → List ReceivedItem → Type 0
Rises last [] = Unit {0}
Rises last (it ∷ items) = (last <ℤ it.index) × Rises it.index items

-- A stream whose indices rise above the cursor is appended whole and in order.
pub received-apply_items :
    (items : List ReceivedItem) (s : ApState)
    → Rises s.last_item_index items
    → (apply_items items s).received_items ≡ s.received_items ++ items
unfolding apply_items apply apply_item push_received
received-apply_items [] s h = sym (append-nil s.received_items)
received-apply_items (it ∷ items) s (h, hs) =
    rw (lt→ltb _ _ h, apply_items)
      (received-apply_items items _ hs ∙ append-assoc_lem s.received_items (it ∷ []) items)
