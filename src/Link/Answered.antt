-- ===== src/Link/Answered.antt =====
-- That the rounds of `ApLink::run` (src/mth/net/ap_link_apclient.cpp) answer each connect.
use mth_apclient.Base.{
  ℕ, ◌+◌, ◌≤◌, ◌<◌, ◌≡◌, ◌⊎◌, refl, some, List, [], ◌∷◌, ◌++◌, arith, ◌≢◌, none, negsuc, inl, inr,
  ◌&&◌, not, Option, map, if◌then◌else◌, Option-cases, All, Bytes, false, codes,
}
use mth_apclient.Link.{
  push_event, ApLink, Client, log_call, connect_update, status_playing, set_connected,
}
use mth_apclient.Link.Handlers.{
  on_items_received, on_item, on_print_json, on_bounced, handle, push_segments, banner_segments,
  adopt_session, receipt_of, on_slot_refused, connected_event, on_slot_connected, on_socket_error,
  handle_slot_connected, on_socket_disconnected, on_location_info, on_room_info, scout_info,
}
use mth_apclient.Ap.Events.{
  ApEvent, ap_connected, ap_connection_refused, ap_disconnected, ap_item_received, ap_session_ended,
  ap_locations_checked, BannerSegment, ap_print_broadcast, SlotDataConfig, ap_scout_info,
}
use mth_apclient.SlotData.{parse_slot_data}
use mth_apclient.SlotData.Library.{JsonLibrary}
use mth_apclient.Link.Followed.{object_of, Outcome-cases}
use mth_apclient.Link.Loop.{invoke, catch_poll, after_callbacks}
use mth_apclient.Link.Callbacks.{
  NetworkItem, socket_disconnected, location_checked, location_info, slot_connected, items_received,
  room_info, slot_refused, Names, Callback, print_json, Room, bounced, socket_error, PrintArgs,
}

-- The events that tell the login window how an attempt ended.
abbrev pub answer : ApEvent → ℕ
answer (ap_connected e) = 1
answer (ap_connection_refused errors) = 1
answer ap_disconnected = 1
answer _ = 0

unfoldable pub answers : List ApEvent → ℕ
answers [] = 0
answers (ev ∷ events) = answer ev + answers events

answers-append : (xs ys : List ApEvent) → answers (xs ++ ys) ≡ answers xs + answers ys
unfolding answers
answers-append [] ys = omega arith
answers-append (x ∷ xs) ys = omega (arith, answers-append xs ys)

pub answers-push_event :
    (ev : ApEvent) (l : ApLink) → answers (push_event ev l).events ≡ answers l.events + answer ev
unfolding push_event answers
answers-push_event ev l = omega (arith, answers-append l.events (ev ∷ []))

-- More than `n` answers were given, or the attempt with this deadline is in flight.
abbrev pub IsPending : ℕ → ℕ → ApLink → Type 0
IsPending n deadline l =
    (n < answers l.events) ⊎ ((l.connect_deadline ≡ some deadline) × (n ≤ answers l.events))

-- The slot data of a callback parses.
abbrev pub Parses : (lib : JsonLibrary) → Callback lib → Type 0
Parses lib (slot_connected json room) = parse_slot_data lib json ≢ none
Parses lib _ = Unit {0}

module _ (n deadline : ℕ) where
  -- Behind an answer, the deadline is nothing to go by.
  pub told-IsPending :
      (ev : ApEvent) (l k : ApLink)
      → answer ev ≡ 1
      → k.events ≡ (push_event ev l).events
      → n ≤ answers l.events
      → n < answers k.events
  told-IsPending ev l k one events h = ground (arith, answers-push_event ev l)

  pub answers-IsPending : (l : ApLink) → IsPending n deadline l → n ≤ answers l.events
  answers-IsPending l h = ground arith

  -- A handler that leaves the deadline alone and takes no event back.
  abbrev Keeps : ApLink → ApLink → Type 0
  Keeps l k = (k.connect_deadline ≡ l.connect_deadline) × (answers l.events ≤ answers k.events)

  quiet-IsPending : (l k : ApLink) → Keeps l k → IsPending n deadline l → IsPending n deadline k
  quiet-IsPending l k kept h = ground (arith, kept)

  pub push_event-Keeps : (ev : ApEvent) (l : ApLink) → Keeps l (push_event ev l)
  unfolding push_event
  push_event-Keeps ev l = (refl, omega (arith, answers-append l.events (ev ∷ [])))

  on_item-Keeps : (it : NetworkItem) (l : ApLink) → Keeps l (on_item it l)
  unfolding on_item
  on_item-Keeps it l = ground (arith, push_event-Keeps (ap_item_received (receipt_of it)) l)

  on_items_received-Keeps :
      (items : List NetworkItem) (l : ApLink) → Keeps l (on_items_received items l)
  unfolding on_items_received
  on_items_received-Keeps [] l = (refl, omega arith)
  on_items_received-Keeps (it ∷ items) l =
      ground (arith, on_item-Keeps it l, on_items_received-Keeps items (on_item it l))

  push_segments-Keeps :
      (segments : List BannerSegment) (l : ApLink) → Keeps l (push_segments segments l)
  unfolding push_segments
  push_segments-Keeps [] l = (refl, omega arith)
  push_segments-Keeps (segment ∷ segments) l =
      push_event-Keeps (ap_print_broadcast (segment ∷ segments)) l

  on_bounced-Keeps :
      (lib : JsonLibrary) (cmd : lib.Json) (l : ApLink) → Keeps l (on_bounced lib cmd l)
  unfolding on_bounced
  on_bounced-Keeps lib cmd l = grind (arith, push_event-Keeps)

  on_print_json-Keeps :
      (names : Names) (args : PrintArgs) (l : ApLink) → Keeps l (on_print_json names args l)
  unfolding on_print_json
  on_print_json-Keeps names args l =
      ground (arith, push_segments-Keeps (banner_segments names args.nodes) l)

  adopt_session-Keeps : (room : Room) (l : ApLink) → Keeps l (adopt_session room l)
  unfolding adopt_session
  adopt_session-Keeps room l = ground (
    arith,
    push_event-Keeps ap_session_ended (record l {
      session_seed = room.seed;
      session_slot = room.player_number;
      last_item_index = negsuc 0;
    }),
  )

  connected-answers :
      (text : Bytes) (parsed : SlotDataConfig) (room : Room) (l : ApLink)
      → n ≤ answers l.events
      → n < answers (on_slot_connected text parsed room l).events
  unfolding on_slot_connected
  connected-answers text parsed room l h =
      let effective = parsed.deathlink && not l.force_off in
      let permitted = record l { slot_deathlink = parsed.deathlink; deathlink = effective } in
      let told = log_call status_playing (log_call (connect_update effective) permitted) in
      let config = record parsed { deathlink = effective } in
      told-IsPending (ap_connected (connected_event room text config)) (adopt_session room told)
        (on_slot_connected text parsed room l) refl refl
        (omega (arith, (adopt_session-Keeps room told).1))

  module _ (lib : JsonLibrary) where
    open lib use {is_null, dump}

    handle-IsPending :
        (c : Client) (cb : Callback lib) (l : ApLink)
        → Parses lib cb
        → IsPending n deadline l
        → IsPending n deadline (object_of (handle lib c cb l))
    unfolding handle on_socket_error on_socket_disconnected on_room_info on_slot_refused
        on_location_info handle_slot_connected push_event
    handle-IsPending c socket_error l parses h =
        let flipped = record l { encrypted_attempt = not l.encrypted_attempt } in
        ground (arith, h, quiet-IsPending l flipped (refl, omega arith) h)
    handle-IsPending c socket_disconnected l parses h = inl (
        told-IsPending ap_disconnected l (on_socket_disconnected l) refl refl
          (answers-IsPending l h))
    handle-IsPending c room_info l parses h =
        quiet-IsPending l (on_room_info c l) (refl, omega arith) h
    handle-IsPending c (slot_connected json room) l parses h =
        elim (Option-cases (parse_slot_data lib json)) [
          | inl e ↦ absurd (parses e)
          | inr (parsed, e) ↦
              let text = if is_null json then [] else dump json in
              let l' = record l { connect_deadline = none } in
              ground (arith, e, connected-answers text parsed room l' (answers-IsPending l h))
        ]
    handle-IsPending c (slot_refused errors) l parses h = inl (
        told-IsPending (ap_connection_refused errors) l (on_slot_refused errors l) refl refl
          (answers-IsPending l h))
    handle-IsPending c (items_received items) l parses h =
        quiet-IsPending l (on_items_received items l) (on_items_received-Keeps items l) h
    handle-IsPending c (location_checked ids) l parses h =
        let ev = ap_locations_checked ids in
        quiet-IsPending l (push_event ev l) (push_event-Keeps ev l) h
    handle-IsPending c (location_info names items) l parses h =
        let ev = ap_scout_info (map (scout_info names) items) in
        quiet-IsPending l (push_event ev l) (push_event-Keeps ev l) h
    handle-IsPending c (bounced cmd) l parses h =
        quiet-IsPending l (on_bounced lib cmd l) (on_bounced-Keeps lib cmd l) h
    handle-IsPending c (print_json names args) l parses h =
        quiet-IsPending l (on_print_json names args l) (on_print_json-Keeps names args l) h

    catch_poll-IsPending :
        (what : Bytes) (l : ApLink)
        → IsPending n deadline l
        → IsPending n deadline (catch_poll what l)
    unfolding catch_poll push_event
    catch_poll-IsPending what l h =
        let l' = set_connected false l in
        let refused = ap_connection_refused ((codes "connection failed: " ++ what) ∷ []) in
        ground (
          arith,
          h,
          told-IsPending ap_disconnected l' (push_event ap_disconnected l') refl refl
              (answers-IsPending l h),
          told-IsPending refused l (push_event refused l) refl refl (answers-IsPending l h),
        )

    pub invoke-IsPending :
        (c : Client) (cbs : List (Callback lib)) (failure : Option Bytes) (l : ApLink)
        → All (Parses lib) cbs
        → IsPending n deadline l
        → IsPending n deadline (invoke lib c cbs failure l)
    unfolding invoke after_callbacks
    invoke-IsPending c [] none l parses h = h
    invoke-IsPending c [] (some what) l parses h = catch_poll-IsPending what l h
    invoke-IsPending c (cb ∷ cbs) failure l (first, parses) h =
        let pending = handle-IsPending c cb l first h in
        elim (Outcome-cases (handle lib c cb l)) [
          | inl (next, done) ↦
              ground (arith, done, invoke-IsPending c cbs failure next parses (rw done at pending))
          | inr (what, thrown, done) ↦
              ground (arith, done, catch_poll-IsPending what thrown (rw done at pending))
        ]
