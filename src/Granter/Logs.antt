-- ===== src/Granter/Logs.antt =====
-- The effects that `InboundGranter` (src/mth/core/inbound_granter.cpp) asks for, counted by receipt,
-- and what one entry of the log does to the count.
use mth_apclient.Base.IntSet
use mth_apclient.Base.IntSet.{contains-insert, contains-remove}
use mth_apclient.Base.{
  ℕ, ◌+◌, ◌≤◌, ◌≡◌, ◌∙◌, refl, Bool, true, false, ◌&&◌, ◌||◌, List, [], ◌∷◌, arith, if◌then◌else◌,
  ℤ, eqb_ℤ, inl, inr, Bool-cases, eqb_ℤ_iff,
}
use mth_apclient.Granter.Receipts.{
  mark, credited, Effect, skipped, InboundGranter, offered, not_ready, acknowledge, unavailable,
  armed, on_applied, handled, exceeded, trapped, offer_answered,
}
use mth_apclient.Ap.SaveState.{stage, is_granted, mark_granted}

-- An effect on the receipt `index` that went through: an accepted offer, a credited key, a trap that
-- was armed, skipped or given up, or a tier that was consumed.
abbrev pub took_effect : Effect → ℤ → Bool
took_effect (offered game_type i accepted) index = accepted && eqb_ℤ i index
took_effect (credited i ok) index = ok && eqb_ℤ i index
took_effect (trapped m i armed) index = eqb_ℤ i index
took_effect (trapped m i not_ready) index = false
took_effect (trapped m i unavailable) index = eqb_ℤ i index
took_effect (trapped m i skipped) index = eqb_ℤ i index
took_effect (exceeded i) index = eqb_ℤ i index

unfoldable pub times : ℤ → List Effect → ℕ
times index [] = 0
times index (e ∷ log) = (if took_effect e index then 1 else 0) + times index log

-- A receipt took effect at most once, and only if it is recorded or in flight.
abbrev pub AtMostOnce : {W : Type 0} → InboundGranter W → Type 0
AtMostOnce g = (index : ℤ) → times index g.log ≤ (if handled g index then 1 else 0)

module _ {W : Type 0} where
  pub is_granted-mark :
      (receipt index : ℤ) (g : InboundGranter W)
      → is_granted (mark receipt g).save index ≡ (eqb_ℤ receipt index || is_granted g.save index)
  unfolding mark mark_granted stage
  is_granted-mark receipt index g = ground (arith, contains-insert receipt index g.save.granted)

  pub mark_keeps :
      (receipt : ℤ) (g : InboundGranter W)
      → ((mark receipt g).log ≡ g.log) × ((mark receipt g).in_flight ≡ g.in_flight)
  unfolding mark
  mark_keeps receipt g = (refl, refl)

  -- An acknowledgement handles its receipt and forgets no other.
  on_applied-handled :
      (receipt index : ℤ) (g : InboundGranter W)
      → handled (on_applied receipt g) index ≡ (eqb_ℤ receipt index || handled g index)
  unfolding on_applied
  on_applied-handled receipt index g =
      let r = record g { in_flight = IntSet.remove receipt g.in_flight } in
      ground (
        arith,
        is_granted-mark receipt index r,
        mark_keeps receipt r,
        contains-remove receipt index g.in_flight,
      )

  on_applied-log : (receipt : ℤ) (g : InboundGranter W) → (on_applied receipt g).log ≡ g.log
  unfolding on_applied
  on_applied-log receipt g =
      (mark_keeps receipt (record g { in_flight = IntSet.remove receipt g.in_flight })).0

  acknowledge-log :
      (receipts : List ℤ) (g : InboundGranter W) → (acknowledge receipts g).log ≡ g.log
  unfolding acknowledge
  acknowledge-log [] g = refl
  acknowledge-log (r ∷ receipts) g = acknowledge-log receipts (on_applied r g) ∙ on_applied-log r g

  acknowledge-handled :
      (receipts : List ℤ) (index : ℤ) (g : InboundGranter W)
      → handled g index ≡ true
      → handled (acknowledge receipts g) index ≡ true
  unfolding acknowledge
  acknowledge-handled [] index g h = h
  acknowledge-handled (r ∷ receipts) index g h =
      acknowledge-handled receipts index (on_applied r g)
        (on_applied-handled r index g ∙ ground (arith, h))

  pub on_applied-AtMostOnce :
      (receipt : ℤ) (g : InboundGranter W) → AtMostOnce g → AtMostOnce (on_applied receipt g)
  on_applied-AtMostOnce receipt g once index =
      ground (arith, on_applied-log receipt g, on_applied-handled receipt index g, once index)

-- A move's entry in the log, and what becomes of the receipts it names and of the others.
pub record Logs {W : Type 0} (g h : InboundGranter W) : Type 0 where
  pub entry : Effect
  pub logged : h.log ≡ entry ∷ g.log
  pub taken :
      (index : ℤ)
      → took_effect entry index ≡ true
      → (handled g index ≡ false) × (handled h index ≡ true)
  pub kept : (index : ℤ) → handled g index ≡ true → handled h index ≡ true

pub Logs-AtMostOnce : {W : Type 0} (g h : InboundGranter W) → Logs g h → AtMostOnce g → AtMostOnce h
unfolding times
Logs-AtMostOnce g h l once index = elim (Bool-cases (took_effect l.entry index)) [
  | inl taken ↦ rw (l.logged, times) (ground (arith, l.taken index taken, once index))
  | inr not_taken ↦ rw (l.logged, times) (ground (arith, l.kept index, once index))
]

module _ {W : Type 0} where
  asked : ℤ → ℤ → InboundGranter W → W → Bool → InboundGranter W
  asked game_type i g w accepted = record g {
    world = w;
    in_flight = IntSet.insert i g.in_flight;
    log = offered game_type i accepted ∷ g.log;
  }

  asked-handled :
      (game_type i index : ℤ) (g : InboundGranter W) (w : W) (accepted : Bool)
      → handled (asked game_type i g w accepted) index ≡ (eqb_ℤ i index || handled g index)
  unfolding asked
  asked-handled game_type i index g w accepted = ground (arith, contains-insert i index g.in_flight)

  pub offer_answered-Logs :
      (game_type i : ℤ) (g : InboundGranter W) (w : W) (accepted : Bool) (acked : List ℤ)
      → handled g i ≡ false
      → Logs g (offer_answered game_type i g (w, accepted, acked)).0
  unfolding offer_answered asked
  offer_answered-Logs game_type i g w true acked new = record {
    entry = offered game_type i true;
    logged = acknowledge-log acked (asked game_type i g w true);
    taken = λ index t. (
      ground (arith, eqb_ℤ_iff i index),
      acknowledge-handled acked index (asked game_type i g w true)
          (ground (arith, asked-handled game_type i index g w true)),
    );
    kept = λ index t.
        acknowledge-handled acked index (asked game_type i g w true)
          (ground (arith, asked-handled game_type i index g w true));
  }
  offer_answered-Logs game_type i g w false acked new = record {
    entry = offered game_type i false;
    logged = acknowledge-log acked (asked game_type i g w false);
    taken = λ index t. absurd (cc);
    kept = λ index t.
        let told = acknowledge acked (asked game_type i g w false) in
        ground (
          arith,
          eqb_ℤ_iff i index,
          contains-remove i index told.in_flight,
          acknowledge-handled acked index (asked game_type i g w false),
          asked-handled game_type i index g w false,
        );
  }

  pub mark-Logs :
      (i : ℤ) (e : Effect) (g asked : InboundGranter W)
      → ((index : ℤ) → took_effect e index ≡ eqb_ℤ i index)
      → asked.log ≡ e ∷ g.log
      → asked.save ≡ g.save
      → asked.in_flight ≡ g.in_flight
      → handled g i ≡ false
      → Logs g (mark i asked)
  mark-Logs i e g asked names log save flying new = record {
    entry = e;
    logged = (mark_keeps i asked).0 ∙ log;
    taken = λ index t. (
      ground (arith, eqb_ℤ_iff i index, names index),
      ground (arith, is_granted-mark i index asked, names index),
    );
    kept =
        λ index t. ground (arith, is_granted-mark i index asked, mark_keeps i asked, save, flying);
  }

  pub note-Logs :
      (e : Effect) (g h : InboundGranter W)
      → ((index : ℤ) → took_effect e index ≡ false)
      → h.log ≡ e ∷ g.log
      → h.save ≡ g.save
      → h.in_flight ≡ g.in_flight
      → Logs g h
  note-Logs e g h idle log save flying = record {
    entry = e;
    logged = log;
    taken = λ index t. absurd (ground (arith, idle index));
    kept = λ index t. ground (arith, save, flying);
  }
