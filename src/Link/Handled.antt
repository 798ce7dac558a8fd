-- ===== src/Link/Handled.antt =====
-- That `ApLink` of src/mth/net/ap_link_apclient.cpp agrees with the monitor of its event stream
-- behind each callback of the client.
use mathlib.Core.Path.{subst}
use mth_apclient.Base.{
  ◌≡◌, ◌≢◌, ◌∙◌, ap, sym, inl, inr, refl, true, none, List, [], ◌∷◌, negsuc, leb_ℤ, Bool-cases,
  eqb_ℤ_refl, eqb_bytes_refl, ◌&&◌, not, arith, eqb_ℤ, eqb_ℤ_iff, Bytes, eqb_bytes, eqb_bytes-eq,
}
use mth_apclient.Link.{
  ApLink, push_event, log_call, status_playing, connect_update, set_connected, flagged, pushed,
}
use mth_apclient.Link.Handlers.{
  on_items_received, on_item, receipt_of, on_bounced, adopt_session, connected_event, push_segments,
  on_slot_connected, on_print_json,
}
use mth_apclient.Link.Monitor.{
  Agrees, watched-push_event, Monitor, watched, Holds, track, track_all, flag_of, IsPublished,
  IsPublished-now, is_up,
}
use mth_apclient.Ap.Events.{
  ap_connected, ApConnected, ApEvent, ap_session_ended, ap_item_received, SlotDataConfig,
  BannerSegment, ap_print_broadcast,
}
use mth_apclient.SlotData.Library.{JsonLibrary}
use mth_apclient.Link.Agreement.{same-Holds, mention-Holds}
use mth_apclient.Link.Callbacks.{NetworkItem, Names, Room, PrintArgs}
use mth_apclient.SlotData.{flag}

module _ (m : Monitor) where
  -- An event that is pushed in a change of other fields.
  said-Holds :
      (ev : ApEvent) (l k : ApLink)
      → k.events ≡ (push_event ev l).events
      → Agrees k (track ev (watched m l))
      → Holds m k
  unfolding Holds
  said-Holds ev l k e a =
      subst (Agrees k) (sym (ap (λ events. track_all events m) e ∙ watched-push_event m ev l)) a

  on_item-Holds : (it : NetworkItem) (l : ApLink) → Holds m l → Holds m (on_item it l)
  unfolding on_item Holds push_event is_up flag_of IsPublished
  on_item-Holds it l h = elim (Bool-cases (leb_ℤ it.index l.last_item_index)) [
    | inl old ↦ rw old h
    | inr new ↦
        let next = record (push_event (ap_item_received (receipt_of it)) l) {
          last_item_index = it.index;
        } in
        let held : Holds m next =
          said-Holds (ap_item_received (receipt_of it)) l next refl (record {
            announced = h.announced;
            kept = h.kept;
            seen = refl;
            risen = ground (arith, h.risen, h.seen, new);
            said = h.said;
            ordered = ((IsPublished-now l.accesses h.ordered.0, h.ordered.0), h.ordered.1);
            attached = h.attached;
          }) in
        rw new held
  ]

  pub on_items_received-Holds :
      (items : List NetworkItem) (l : ApLink) → Holds m l → Holds m (on_items_received items l)
  unfolding on_items_received
  on_items_received-Holds [] l h = h
  on_items_received-Holds (it ∷ items) l h =
      on_items_received-Holds items (on_item it l) (on_item-Holds it l h)

  -- A connect to the room that the object is in.
  rejoined-Holds :
      (e : ApConnected) (l : ApLink)
      → e.seed ≡ l.session_seed
      → e.player_slot ≡ l.session_slot
      → l.client ≢ none
      → Holds m l
      → Holds m (set_connected true (push_event (ap_connected e) l))
  unfolding Holds push_event is_up flag_of IsPublished
  rejoined-Holds e l seed slot client h = said-Holds (ap_connected e) l _ refl (record {
    announced = rw (seed, slot) refl;
    kept = rw (h.kept, h.announced, seed, slot, eqb_bytes_refl, eqb_ℤ_refl) refl;
    seen = h.seen;
    risen = h.risen;
    said = refl;
    ordered = ((λ up. refl, (λ up. refl, h.ordered.0)), refl);
    attached = λ e. absurd (client e);
  })

  -- A connect behind the marker of a new room.
  joined-Holds :
      (e : ApConnected) (l k : ApLink)
      → k.events ≡ (push_event (ap_connected e) (push_event ap_session_ended l)).events
      → k.session_seed ≡ e.seed
      → k.session_slot ≡ e.player_slot
      → k.last_item_index ≡ negsuc 0
      → k.client ≢ none
      → k.connected ≡ true
      → k.accesses ≡ flagged true ∷ pushed (ap_connected e) ∷ pushed ap_session_ended ∷ l.accesses
      → Holds m l
      → Holds m k
  unfolding Holds push_event is_up flag_of IsPublished
  joined-Holds e l k events seed slot index client flag accesses h =
      said-Holds (ap_connected e) (push_event ap_session_ended l) k events (
        subst (λ w. Agrees k (track (ap_connected e) w))
          (sym (watched-push_event m ap_session_ended l))
          (record {
            announced = rw (seed, slot) refl;
            kept = rw h.kept refl;
            seen = sym index;
            risen = h.risen;
            said = sym (ap is_up accesses);
            ordered =
                rw (accesses, flag)
                  (
                    (
                      λ up. refl,
                      (λ up. refl, (IsPublished-now l.accesses h.ordered.0, h.ordered.0)),
                    ),
                    refl,
                  );
            attached = λ e. absurd (client e);
          }))

  pub on_slot_connected-Holds :
      (text : Bytes) (parsed : SlotDataConfig) (room : Room) (l : ApLink)
      → l.client ≢ none
      → Holds m l
      → Holds m (on_slot_connected text parsed room l)
  unfolding on_slot_connected adopt_session push_event
  on_slot_connected-Holds text parsed room l client h =
      let effective = parsed.deathlink && not l.force_off in
      let permitted = record l { slot_deathlink = parsed.deathlink; deathlink = effective } in
      let told = log_call status_playing (log_call (connect_update effective) permitted) in
      let e = connected_event room text (record parsed { deathlink = effective }) in
      let held : Holds m told = same-Holds m l told refl refl refl refl refl refl refl h in
      let anew = record told {
        session_seed = room.seed;
        session_slot = room.player_number;
        last_item_index = negsuc 0;
      } in
      let new_room : Holds m
          (set_connected true (push_event (ap_connected e) (push_event ap_session_ended anew))) =
        joined-Holds e told _ refl refl refl refl client refl refl held in
      elim (Bool-cases (eqb_bytes room.seed l.session_seed)) [
        | inl seed ↦ elim (Bool-cases (eqb_ℤ room.player_number l.session_slot)) [
          | inl slot ↦ ground (
            arith,
            seed,
            slot,
            rejoined-Holds e told (eqb_bytes-eq _ _ seed) ((eqb_ℤ_iff _ _).0 slot) client held,
          )
          | inr slot ↦ ground (arith, seed, slot, new_room)
        ]
        | inr seed ↦ ground (arith, seed, new_room)
      ]

  pub on_bounced-Holds :
      (lib : JsonLibrary) (cmd : lib.Json) (l : ApLink) → Holds m l → Holds m (on_bounced lib cmd l)
  unfolding on_bounced
  on_bounced-Holds lib cmd l h = grind (arith, mention-Holds)

  push_segments-Holds :
      (segments : List BannerSegment) (l : ApLink) → Holds m l → Holds m (push_segments segments l)
  unfolding push_segments
  push_segments-Holds [] l h = h
  push_segments-Holds (segment ∷ segments) l h =
      mention-Holds m (ap_print_broadcast (segment ∷ segments)) l (λ w. refl) h

  pub on_print_json-Holds :
      (names : Names) (args : PrintArgs) (l : ApLink)
      → Holds m l
      → Holds m (on_print_json names args l)
  unfolding on_print_json push_segments
  on_print_json-Holds names args l h = grind (arith, push_segments-Holds)
