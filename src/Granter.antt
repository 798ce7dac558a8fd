-- ===== src/Granter.antt =====
-- src/mth/core/inbound_granter.cpp: `InboundGranter::tick`, its branches in the order of the source.
pub mod Receipts
pub mod Moves
pub mod Logs
pub mod Once
pub mod Recorded
use mth_apclient.Base.{
  suc, Bool, true, false, ◌&&◌, ◌||◌, not, Option, none, some, List, [], ◌∷◌, leb, if◌then◌else◌,
  length, ℤ, pos, ltb_ℤ,
}
use mth_apclient.Ids.Progressive.{
  tally_add, weapon_family, is_map_item, fishing_rod_itemtype, empty_tally, map_itemtype,
  weapon_itemtype, is_weapon_item, is_fishing_rod_item,
}
use mth_apclient.Ids.Blocks.{is_trap_item, trap_modifier_index}
use mth_apclient.Ids.Vanilla.{
  is_vanilla_kear_item, is_vanilla_game_item, is_capacity_upgrade_item, game_item_type,
}
use mth_apclient.Granter.Receipts.{
  credited, unavailable, trapped, offer_turn, Turn, handled, InboundGranter, mark, Pass, TrapArm,
  consume, not_ready, count_handled, continue, stuck_tick_warn, break, Effects,
}
use mth_apclient.Ap.State.{ApState, is_vanilla_mode}
use mth_apclient.Ap.Events.{ReceivedItem}

module _ {W : Type 0} (effects : Effects W) where
  -- The end of the three branches of progressive items, behind the count of the tier.
  unfoldable pub grant_tier : ℤ → ℤ → InboundGranter W → Pass → Turn W
  grant_tier game_type index g p =
      if handled g index
      then continue g (count_handled p)
      else if ltb_ℤ game_type (pos 0)
      then continue (consume index g) p
      else offer_turn effects game_type index g p

  unfoldable pub credit : Option (W → W × Bool) → ℤ → InboundGranter W → InboundGranter W × Bool
  credit none index g = (g, false)
  credit (some f) index g =
      let (w, ok) = f g.world in
      let asked = record g { world = w; log = credited index ok ∷ g.log } in
      if ok then (mark index asked, true) else (asked, false)

  unfoldable pub grant_kear : ℤ → InboundGranter W → Pass → Turn W
  unfolding credit
  grant_kear index g p =
      if handled g index
      then continue g (count_handled p)
      else let (g', ok) = credit effects.credit_kear_key index g in
        if ok then continue g' p else break g' p

  unfoldable pub grant_fishing_rod : ℤ → InboundGranter W → Pass → Turn W
  grant_fishing_rod index g p =
      let tier = suc p.fishing_tier in
      grant_tier (fishing_rod_itemtype (pos tier)) index g (record p { fishing_tier = tier })

  unfoldable pub grant_weapon : ℤ → ℤ → InboundGranter W → Pass → Turn W
  grant_weapon item_id index g p =
      let (tally, tier) = tally_add p.weapon_tally item_id in
      grant_tier (weapon_itemtype (weapon_family item_id) (pos tier)) index g
        (record p { weapon_tally = tally })

  unfoldable pub grant_map : ℤ → InboundGranter W → Pass → Turn W
  grant_map index g p =
      let tier = suc p.map_tier in
      grant_tier (map_itemtype (pos tier)) index g (record p { map_tier = tier })

  -- A build without traps answers `unavailable`.
  unfoldable pub arm : Option (ℤ → W → W × TrapArm) → ℤ → W → W × TrapArm
  arm none modifier_index w = (w, unavailable)
  arm (some f) modifier_index w = f modifier_index w

  unfoldable pub settle_trap : TrapArm → ℤ → InboundGranter W → Pass → Turn W
  settle_trap not_ready index g p = continue g (record p { trap_stalled = true })
  settle_trap _ index g p = continue (mark index g) p

  unfoldable pub grant_trap : ℤ → ℤ → InboundGranter W → Pass → Turn W
  unfolding arm settle_trap
  grant_trap item_id index g p =
      if handled g index
      then continue g (count_handled p)
      else let modifier_index = trap_modifier_index item_id in
        let (w, result) = arm effects.arm_trap modifier_index g.world in
        settle_trap result index
          (record g { world = w; log = trapped modifier_index index result ∷ g.log }) p

  unfoldable pub grant_vanilla : ℤ → ℤ → InboundGranter W → Pass → Turn W
  grant_vanilla item_id index g p =
      if not (is_vanilla_game_item item_id) || is_capacity_upgrade_item item_id
      then continue g (record p { n_ungrantable = suc p.n_ungrantable })
      else if handled g index
      then continue g (count_handled p)
      else offer_turn effects (game_item_type item_id) index g p

  -- The body of the loop over the received items.
  unfoldable pub grant_item : Bool → ReceivedItem → InboundGranter W → Pass → Turn W
  grant_item vanilla_kear it g p =
      if vanilla_kear && is_vanilla_kear_item it.item_id
      then grant_kear it.index g p
      else if is_fishing_rod_item it.item_id
      then grant_fishing_rod it.index g p
      else if is_weapon_item it.item_id
      then grant_weapon it.item_id it.index g p
      else if is_map_item it.item_id
      then grant_map it.index g p
      else if is_trap_item it.item_id
      then grant_trap it.item_id it.index g p
      else grant_vanilla it.item_id it.index g p

  unfoldable pub grant_items :
      Bool → List ReceivedItem → InboundGranter W → Pass → InboundGranter W × Pass
  grant_items vanilla_kear [] g p = (g, p)
  grant_items vanilla_kear (it ∷ items) g p =
      let turn = grant_item vanilla_kear it g p in
      let rest = grant_items vanilla_kear items turn.granter turn.pass in
      if turn.goes_on then rest else (turn.granter, turn.pass)

abbrev pub start_pass : Pass
start_pass = record {
  weapon_tally = empty_tally;
  fishing_tier = 0;
  map_tier = 0;
  trap_stalled = false;
  n_handled = 0;
  n_ungrantable = 0;
}

abbrev is_nil : List ℤ → Bool
is_nil [] = true
is_nil (x ∷ xs) = false

module _ {W : Type 0} where
  -- The skip census: the counts of the last line that was logged. A line is logged if they moved, so
  -- afterwards they are the counts of this pass either way.
  unfoldable pub census : Pass → InboundGranter W → InboundGranter W
  census p g = record g {
    last_handled = pos p.n_handled;
    last_ungrantable = pos p.n_ungrantable;
    last_in_flight = pos (length g.in_flight);
  }

  unfoldable pub watch_queue : InboundGranter W → InboundGranter W
  watch_queue g =
      if is_nil g.in_flight then record g { stuck_ticks = 0; stuck_warned = false } else record g {
        stuck_ticks = suc g.stuck_ticks;
        stuck_warned = leb stuck_tick_warn (suc g.stuck_ticks) || g.stuck_warned;
      }

  unfoldable pub watch_traps : Pass → InboundGranter W → InboundGranter W
  watch_traps p g =
      if not p.trap_stalled
      then record g { trap_notready_ticks = 0; trap_notready_warned = false }
      else record g {
        trap_notready_ticks = suc g.trap_notready_ticks;
        trap_notready_warned =
            leb stuck_tick_warn (suc g.trap_notready_ticks) || g.trap_notready_warned;
      }

module _ {W : Type 0} (effects : Effects W) where
  unfoldable pub tick : ApState → InboundGranter W → InboundGranter W
  unfolding census watch_queue watch_traps
  tick state g =
      let (g', p) =
        grant_items effects (is_vanilla_mode state.config.kear_mode) state.received_items g
          start_pass in
      watch_traps p (watch_queue (census p g'))
