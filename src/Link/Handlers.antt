-- ===== src/Link/Handlers.antt =====
-- `ApLink::setup_handlers` of src/mth/net/ap_link_apclient.cpp: what each callback of the client
-- does. What the client would answer inside a callback comes with the callback.
use mth_apclient.Base.{
  Bool, true, false, ◌&&◌, ◌||◌, not, none, some, List, [], ◌∷◌, map, if◌then◌else◌, negsuc, ◌-ℤ◌,
  leb_ℤ, eqb_ℤ, codes, Bytes, eqb_bytes,
}
use mth_apclient.Link.{
  connect_update, store_deathlink, Client, status_playing, ApLink, connect_slot, log_call,
  push_event, set_connected,
}
use mth_apclient.Broadcast.{banner_color, is_ours, broadcast_relevant}
use mth_apclient.Zip.{is_nil}
use mth_apclient.SlotData.{parse_slot_data}
use mth_apclient.SlotData.Library.{JsonLibrary}
use mth_apclient.Link.Deaths.{parse_deathlink_payload}
use mth_apclient.Ids.Blocks.{loc_base}
use mth_apclient.Ap.Events.{
  ap_session_ended, ap_locations_checked, ap_connection_refused, ScoutInfo, ap_death_received,
  ap_item_received, ap_connected, ApConnected, SlotDataConfig, ap_scout_info, ap_disconnected,
  ap_print_broadcast, ReceivedItem, BannerSegment,
}
use mth_apclient.Link.Callbacks.{
  NetworkItem, Room, Names, Node, PrintArgs, death_tag, Callback, Outcome, returned, threw,
  socket_error, socket_disconnected, room_info, slot_connected, slot_refused, items_received,
  location_checked, location_info, bounced, print_json,
}

unfoldable pub on_socket_error : Client → ApLink → ApLink
on_socket_error c l =
    if c.alternates then record l { encrypted_attempt = not l.encrypted_attempt } else l

unfoldable pub on_socket_disconnected : ApLink → ApLink
unfolding push_event
on_socket_disconnected l =
    push_event ap_disconnected (record (set_connected false l) { connect_deadline = none })

unfoldable pub on_room_info : Client → ApLink → ApLink
on_room_info c l = log_call (connect_slot c.slot c.password l.deathlink) l

-- A changed (seed, slot) ends the session before.
unfoldable pub adopt_session : Room → ApLink → ApLink
unfolding push_event
adopt_session room l =
    if not (eqb_bytes room.seed l.session_seed) || not (eqb_ℤ room.player_number l.session_slot)
    then push_event ap_session_ended (record l {
      session_seed = room.seed;
      session_slot = room.player_number;
      last_item_index = negsuc 0;
    })
    else l

abbrev pub connected_event : Room → Bytes → SlotDataConfig → ApConnected
connected_event room text config = record {
  seed = room.seed;
  slot_data = text;
  player_slot = room.player_number;
  checked_locations = room.checked;
  missing_locations = room.missing;
  config = config;
}

-- The atomics of a connect: the slot's permission is stored, `force_off_` is read, and what
-- holds of both is stored. The game thread may come in between.
abbrev pub store_slot_deathlink : Bool → ApLink → ApLink
store_slot_deathlink on l = record l { slot_deathlink = on }

abbrev pub effective_deathlink : Bool → ApLink → Bool
effective_deathlink on l = on && not l.force_off

-- The handler of a slot that connected, behind the parse of its data.
unfoldable pub on_slot_connected : Bytes → SlotDataConfig → Room → ApLink → ApLink
unfolding adopt_session push_event
on_slot_connected text parsed room l =
    let stored = store_slot_deathlink parsed.deathlink l in
    let effective = effective_deathlink parsed.deathlink stored in
    let permitted = store_deathlink effective stored in
    let told = log_call status_playing (log_call (connect_update effective) permitted) in
    let config = record parsed { deathlink = effective } in
    set_connected true
      (push_event (ap_connected (connected_event room text config)) (adopt_session room told))

unfoldable pub on_slot_refused : List Bytes → ApLink → ApLink
unfolding push_event
on_slot_refused errors l =
    push_event (ap_connection_refused errors)
      (record (set_connected false l) { connect_deadline = none })

abbrev pub receipt_of : NetworkItem → ReceivedItem
receipt_of it = record {
  item_id = it.item;
  index = it.index;
  player_from = it.player;
  flags = it.flags;
}

unfoldable pub on_item : NetworkItem → ApLink → ApLink
unfolding push_event
on_item it l =
    if leb_ℤ it.index l.last_item_index
    then l
    else record (push_event (ap_item_received (receipt_of it)) l) { last_item_index = it.index }

unfoldable pub on_items_received : List NetworkItem → ApLink → ApLink
unfolding on_item
on_items_received [] l = l
on_items_received (it ∷ items) l = on_items_received items (on_item it l)

-- The cast to `int` keeps the slot of every location id.
unfoldable pub scout_info : Names → NetworkItem → ScoutInfo
scout_info names it = record {
  collection_slot = it.location -ℤ loc_base;
  item_name = names.get_item_name it.item (names.get_player_game it.player);
  player_alias = names.get_player_alias it.player;
  player_game = names.get_player_game it.player;
  item_flags = it.flags;
  is_self = eqb_ℤ it.player names.our_slot;
}

unfoldable pub on_location_info : Names → List NetworkItem → ApLink → ApLink
unfolding push_event scout_info
on_location_info names items l = push_event (ap_scout_info (map (scout_info names) items)) l

abbrev pub banner_segment : Names → Node → BannerSegment
banner_segment names node =
    let is_self =
      eqb_bytes node.type_name (codes "player_id") && is_ours node.own_number names.our_slot in
    record {
      text = node.rendered;
      rgba = banner_color node.type_name node.color node.flags node.hint_status is_self;
    }

unfoldable pub banner_segments : Names → List Node → List BannerSegment
banner_segments names [] = []
banner_segments names (node ∷ nodes) =
    if is_nil node.rendered
    then banner_segments names nodes
    else banner_segment names node ∷ banner_segments names nodes

unfoldable pub push_segments : List BannerSegment → ApLink → ApLink
unfolding push_event
push_segments [] l = l
push_segments (segment ∷ segments) l = push_event (ap_print_broadcast (segment ∷ segments)) l

unfoldable pub on_print_json : Names → PrintArgs → ApLink → ApLink
unfolding push_segments banner_segments
on_print_json names args l =
    if broadcast_relevant args.type_name names.our_team names.our_slot args.team args.slot
      args.receiving args.item_player
    then push_segments (banner_segments names args.nodes) l
    else l

module _ (lib : JsonLibrary) where
  open lib use {Json, is_null, dump, find, iterate, string, what}

  -- `std::find` of a text among values.
  has_text : Bytes → List Json → Bool
  has_text text [] = false
  has_text text (v ∷ vs) =
      elim (string v) [ none ↦ false | some s ↦ eqb_bytes s text ] || has_text text vs

  unfoldable pub is_death_bounce : Json → Bool
  unfolding has_text
  is_death_bounce cmd = elim (find cmd (codes "tags")) [
    | none ↦ false
    | some tags ↦ has_text death_tag (iterate tags)
  ]

  bounce_payload : Json → Bytes
  bounce_payload cmd = elim (find cmd (codes "data")) [ none ↦ [] | some json ↦ dump json ]

  unfoldable pub on_bounced : Json → ApLink → ApLink
  unfolding push_event is_death_bounce bounce_payload
  on_bounced cmd l =
      if not l.deathlink
      then l
      else if not (is_death_bounce cmd)
      then l
      else elim (parse_deathlink_payload lib (bounce_payload cmd)) [
        | none ↦ push_event (ap_death_received [] []) l
        | some dl ↦
            if not (is_nil l.slot_name) && eqb_bytes dl.source l.slot_name
            then l
            else push_event (ap_death_received dl.source dl.cause) l
      ]

  unfoldable pub handle_slot_connected : Json → Room → ApLink → Outcome
  unfolding on_slot_connected
  handle_slot_connected json room link =
      let l = record link { connect_deadline = none } in
      let text = if is_null json then [] else dump json in
      elim (parse_slot_data lib json) [
        | none ↦ threw (what json) l
        | some parsed ↦ returned (on_slot_connected text parsed room l)
      ]

  unfoldable pub handle : Client → Callback lib → ApLink → Outcome
  unfolding on_socket_error on_socket_disconnected on_room_info on_slot_refused on_items_received
      on_location_info on_bounced on_print_json handle_slot_connected push_event
  handle c socket_error l = returned (on_socket_error c l)
  handle c socket_disconnected l = returned (on_socket_disconnected l)
  handle c room_info l = returned (on_room_info c l)
  handle c (slot_connected json room) l = handle_slot_connected json room l
  handle c (slot_refused errors) l = returned (on_slot_refused errors l)
  handle c (items_received items) l = returned (on_items_received items l)
  handle c (location_checked ids) l = returned (push_event (ap_locations_checked ids) l)
  handle c (location_info names items) l = returned (on_location_info names items l)
  handle c (bounced cmd) l = returned (on_bounced cmd l)
  handle c (print_json names args) l = returned (on_print_json names args l)
