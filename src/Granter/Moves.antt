-- ===== src/Granter/Moves.antt =====
-- A tick of src/mth/core/inbound_granter.cpp as a sequence of moves, each on one receipt.
use mathlib.Core.Path.{subst}
use mth_apclient.Base.{
  ◌≡◌, ◌⊎◌, inl, inr, refl, Bool, false, ◌&&◌, ◌||◌, not, ◌∷◌, arith, ℤ, pos, ltb_ℤ, Bool-cases,
  take, List, [],
}
use mth_apclient.Granter.{
  grant_tier, grant_weapon, credit, grant_kear, grant_vanilla, grant_map, grant_item, start_pass,
  grant_trap, settle_trap, grant_fishing_rod, arm, grant_items, tick, census, watch_queue,
  watch_traps,
}
use mth_apclient.Ids.Progressive.{is_weapon_item, is_fishing_rod_item, is_map_item}
use mth_apclient.Ids.Blocks.{trap_modifier_index, is_trap_item}
use mth_apclient.Ids.Vanilla.{
  is_vanilla_game_item, game_item_type, is_capacity_upgrade_item, is_vanilla_kear_item,
}
use mth_apclient.Granter.Receipts.{
  InboundGranter, trapped, Effects, Pass, offer, offer_turn, consume, handled,
}
use mth_apclient.Ap.Events.{ReceivedItem}
use mth_apclient.Ap.State.{ApState, is_vanilla_mode}

module _ {W : Type 0} (effects : Effects W) where
  -- The trap's move, behind the test of `handled`.
  unfoldable pub spring : ℤ → ℤ → InboundGranter W → InboundGranter W
  spring modifier_index index g =
      let (w, result) = arm effects effects.arm_trap modifier_index g.world in
      (settle_trap effects result index
        (record g { world = w; log = trapped modifier_index index result ∷ g.log })
        start_pass).granter

  pub data Move (g h : InboundGranter W) : Type 0 where
    offering :
        (game_type index : ℤ)
        → handled g index ≡ false
        → h ≡ (offer effects game_type index g).0
        → Move g h
    crediting :
        (index : ℤ)
        → handled g index ≡ false
        → h ≡ (credit effects effects.credit_kear_key index g).0
        → Move g h
    springing :
        (modifier_index index : ℤ)
        → handled g index ≡ false
        → h ≡ spring modifier_index index g
        → Move g h
    consuming : (index : ℤ) → handled g index ≡ false → h ≡ consume index g → Move g h

  pub data Moves : InboundGranter W → InboundGranter W → Type 0 where
    done : {g : InboundGranter W} → Moves g g
    next : {g h k : InboundGranter W} → Move g h → Moves h k → Moves g k

  -- A round of the loop makes one move or none.
  abbrev pub Round : InboundGranter W → InboundGranter W → Type 0
  Round g h = (h ≡ g) ⊎ Move g h

  offer_turn-Round :
      (game_type index : ℤ) (g : InboundGranter W) (p : Pass)
      → handled g index ≡ false
      → Round g (offer_turn effects game_type index g p).granter
  unfolding offer_turn
  offer_turn-Round game_type index g p new = inr (offering game_type index new (ground arith))

  grant_tier-Round :
      (game_type index : ℤ) (g : InboundGranter W) (p : Pass)
      → Round g (grant_tier effects game_type index g p).granter
  unfolding grant_tier
  grant_tier-Round game_type index g p = elim (Bool-cases (handled g index)) [
    | inl old ↦ rw old (inl refl)
    | inr new ↦ elim (Bool-cases (ltb_ℤ game_type (pos 0))) [
      | inl top ↦ rw (new, top) (inr (consuming index new refl))
      | inr more ↦ rw (new, more) (offer_turn-Round game_type index g p new)
    ]
  ]

  grant_kear-Round :
      (index : ℤ) (g : InboundGranter W) (p : Pass) → Round g (grant_kear effects index g p).granter
  unfolding grant_kear
  grant_kear-Round index g p = elim (Bool-cases (handled g index)) [
    | inl old ↦ rw old (inl refl)
    | inr new ↦ inr (crediting index new (ground arith))
  ]

  grant_trap-Round :
      (item_id index : ℤ) (g : InboundGranter W) (p : Pass)
      → Round g (grant_trap effects item_id index g p).granter
  unfolding grant_trap spring
  grant_trap-Round item_id index g p = elim (Bool-cases (handled g index)) [
    | inl old ↦ rw old (inl refl)
    | inr new ↦ inr (springing (trap_modifier_index item_id) index new (ground arith))
  ]

  grant_vanilla-Round :
      (item_id index : ℤ) (g : InboundGranter W) (p : Pass)
      → Round g (grant_vanilla effects item_id index g p).granter
  unfolding grant_vanilla
  grant_vanilla-Round item_id index g p = elim (Bool-cases (handled g index)) [
    | inl old ↦ inl (ground arith)
    | inr new ↦
        elim (Bool-cases (not (is_vanilla_game_item item_id) || is_capacity_upgrade_item item_id)) [
          | inl skip ↦ inl (ground arith)
          | inr take ↦ rw (new, take) (offer_turn-Round (game_item_type item_id) index g p new)
        ]
  ]

  grant_item-Round :
      (kear : Bool) (it : ReceivedItem) (g : InboundGranter W) (p : Pass)
      → Round g (grant_item effects kear it g p).granter
  unfolding grant_item grant_fishing_rod grant_weapon grant_map
  grant_item-Round kear it g p = elim (Bool-cases (kear && is_vanilla_kear_item it.item_id)) [
    | inl a ↦ rw a (grant_kear-Round it.index g p)
    | inr a ↦ elim (Bool-cases (is_fishing_rod_item it.item_id)) [
      | inl b ↦ rw (a, b) (grant_tier-Round _ it.index g _)
      | inr b ↦ elim (Bool-cases (is_weapon_item it.item_id)) [
        | inl c ↦ rw (a, b, c) (grant_tier-Round _ it.index g _)
        | inr c ↦ elim (Bool-cases (is_map_item it.item_id)) [
          | inl d ↦ rw (a, b, c, d) (grant_tier-Round _ it.index g _)
          | inr d ↦ elim (Bool-cases (is_trap_item it.item_id)) [
            | inl e ↦ rw (a, b, c, d, e) (grant_trap-Round it.item_id it.index g p)
            | inr e ↦ rw (a, b, c, d, e) (grant_vanilla-Round it.item_id it.index g p)
          ]
        ]
      ]
    ]
  ]

  Round-Moves : (g h k : InboundGranter W) → Round g h → Moves h k → Moves g k
  Round-Moves g h k (inl e) ms = subst (λ x. Moves x k) e ms
  Round-Moves g h k (inr m) ms = next m ms

  grant_items-Moves :
      (kear : Bool) (items : List ReceivedItem) (g : InboundGranter W) (p : Pass)
      → Moves g (grant_items effects kear items g p).0
  unfolding grant_items
  grant_items-Moves kear [] g p = done
  grant_items-Moves kear (it ∷ items) g p =
      let turn = grant_item effects kear it g p in
      elim (Bool-cases turn.goes_on) [
        | inl on ↦ rw on (
            Round-Moves g turn.granter _ (grant_item-Round kear it g p)
              (grant_items-Moves kear items turn.granter turn.pass))
        | inr off ↦ rw off (Round-Moves g turn.granter _ (grant_item-Round kear it g p) done)
      ]

  -- The counters behind the loop touch nothing else.
  tick-grant_items :
      (state : ApState) (g : InboundGranter W)
      → let h =
          (grant_items effects
            (is_vanilla_mode state.config.kear_mode)
            state.received_items
            g
            start_pass).0 in
        ((tick effects state g).save ≡ h.save)
        × ((tick effects state g).in_flight ≡ h.in_flight)
        × ((tick effects state g).log ≡ h.log)
  unfolding tick watch_queue watch_traps census
  tick-grant_items state g = ground arith

-- A property that the moves of a tick keep, and that reads the save, the receipts in flight and the
-- log alone, is kept by a tick.
module _ {ℓ} {W : Type 0} (effects : Effects W) (P : InboundGranter W → Type ℓ) where
  by_moves :
      ((g h : InboundGranter W) → Move effects g h → P g → P h)
      → {g h : InboundGranter W} → Moves effects g h
      → P g
      → P h
  by_moves keep done h = h
  by_moves keep (next {g = g} {h = h} m ms) x = by_moves keep ms (keep g h m x)

  pub by_tick :
      ((g h : InboundGranter W) → Move effects g h → P g → P h)
      → ((g h : InboundGranter W)
          → h.save ≡ g.save
          → h.in_flight ≡ g.in_flight
          → h.log ≡ g.log
          → P g
          → P h)
      → (state : ApState) (g : InboundGranter W) → P g
      → P (tick effects state g)
  by_tick keep reads state g x =
      let (save, flying, log) = tick-grant_items effects state g in
      let kear = is_vanilla_mode state.config.kear_mode in
      reads (grant_items effects kear state.received_items g start_pass).0 (tick effects state g)
        save flying log
        (by_moves keep (grant_items-Moves effects kear state.received_items g start_pass) x)
