-- ===== src/ItemQueue.antt =====
-- src/mth/features/item_granter.cpp and src/mth/core/item_granter_interface.hpp: the queue of items
-- that the game is still to be given. What the game has at a call is the parameter `Scene`; a call of
-- the game's own function, and a call of the sink for applied receipts, are entries of a log.
pub mod Accounts
use mth_apclient.Base.{
  List, Bool, true, false, ◌&&◌, ◌||◌, not, [], ◌∷◌, ◌++◌, if◌then◌else◌, ℤ, pos, negsuc, leb_ℤ,
  eqb_ℤ,
}
use mth_apclient.Ids.Vanilla.{is_valid_item_type}

pub record PendingGrant : Type 0 where
  pub item_type : ℤ
  pub receipt : ℤ

-- Whether the game's function is resolved, the player known, the position cached and finite, and a
-- sink for applied receipts installed.
pub record Scene : Type 0 where
  pub callable : Bool
  pub has_player : Bool
  pub has_position : Bool
  pub has_sink : Bool

pub data Effect : Type 0 where
  picked_up : ℤ → Effect
  applied : ℤ → Effect

abbrev pub no_receipt : ℤ
no_receipt = negsuc 2147483647

unfoldable pub notify_applied : Scene → ℤ → List Effect
notify_applied scene receipt =
    if not (eqb_ℤ receipt no_receipt) && scene.has_sink then applied receipt ∷ [] else []

-- The answer, the queue and the effects.
unfoldable pub grant : Scene → ℤ → ℤ → List PendingGrant → Bool × List PendingGrant × List Effect
unfolding notify_applied
grant scene item_type receipt queued =
    if not scene.callable || not scene.has_player
    then (false, queued, [])
    else if leb_ℤ item_type (pos 0)
    then (true, queued, notify_applied scene receipt)
    else if not (is_valid_item_type item_type)
    then (true, queued, notify_applied scene receipt)
    else (true, queued ++ record { item_type = item_type; receipt = receipt } ∷ [], [])

abbrev pub discard_pending : List PendingGrant → List PendingGrant
discard_pending queued = []

-- The loop over a batch.
unfoldable pub give_all : Scene → List PendingGrant → List Effect
unfolding notify_applied
give_all scene [] = []
give_all scene (p ∷ batch) =
    picked_up p.item_type ∷ (notify_applied scene p.receipt ++ give_all scene batch)

unfoldable pub drain_pending : Scene → List PendingGrant → List PendingGrant × List Effect
unfolding give_all
drain_pending scene queued =
    if not (scene.callable && (scene.has_player && scene.has_position))
    then (queued, [])
    else ([], give_all scene queued)
