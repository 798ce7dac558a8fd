-- ===== src/Examples/Net.antt =====
-- The net thread on a small server, with a JSON library of three values: 0 is null, 1 an object
-- without members, and 2 an object whose members are of the wrong type.
use mth_apclient.Link.Loop.{
  executes, launched, poll_phase, enqueues, drains, Step, perform_all, polls,
}
use mth_apclient.Base.{
  ℕ, ◌<◌, ◌≡◌, refl, true, false, not, none, some, List, [], ◌∷◌, arith, ◌==◌, if◌then◌else◌, pos,
  codes,
}
use mth_apclient.Link.{
  do_connect, new_link, push_event, do_disconnect, enable_deathlink, ApLink, open_client,
  Surroundings, connect_to, store_deathlink,
}
use mth_apclient.SlotData.{number, flag, parse_slot_data}
use mth_apclient.SlotData.Defaults.{parse_slot_data-non_object}
use mth_apclient.SlotData.Library.{JsonLibrary}
use mth_apclient.SlotData.Bounds.{parse_slot_data-IsBounded, IsBounded}
use mth_apclient.Link.Receipts.{since_marker, received-drained}
use mth_apclient.Link.Handlers.{effective_deathlink, store_slot_deathlink}
use mth_apclient.Link.Answered.{answers}
use mth_apclient.Link.Monitor.{fresh_monitor, track_all, IsPublished, flag_of, is_up}
use mth_apclient.Link.Rounds.{
  connect_answered, throwing_slot_data_silent, run_round, run_rounds, Round,
}
use mth_apclient.Link.Permission.{interleaved_opt_out_lost, IsPermitted, launched-IsPermitted}
use mth_apclient.Link.Stream.{stream, connected-IsPublished, perform_all-stream}
use mth_apclient.Link.Targets.{choose_cert, plan_connection}
use mth_apclient.Ap.Coordinator.{after_apply, before_apply, Callbacks, App, tick}
use mth_apclient.Ap.State.{launch, reset_session}
use mth_apclient.Ap.Events.{SlotDataConfig, ApEvent, default_config}
use mth_apclient.Link.Callbacks.{
  Room, socket_disconnected, Callback, items_received, slot_connected, room_info, NetworkItem,
}

abbrev toy_json : JsonLibrary
toy_json = record {
  Json = ℕ;
  is_null = λ n. n == 0;
  is_object = λ n. not (n == 0);
  dump = λ n. codes "{}";
  parse = λ text. none;
  find = λ n key. none;
  value = λ n key d. if n == 2 then none else some d;
  elements = λ n. none;
  iterate = λ n. [];
  is_number_integer = λ n. false;
  get_int = λ n. pos n;
  get_int64 = λ n. pos n;
  string = λ n. none;
  what = λ n. codes "type must be number";
}

abbrev machine : Surroundings
machine = record { now = 5; bundle = codes "ca.pem"; make_client = λ server uri cert. none }

abbrev first_room : Room
first_room = record { seed = codes "s1"; player_number = pos 1; checked = []; missing = pos 4 ∷ [] }

abbrev second_room : Room
second_room = record first_room { seed = codes "s2" }

abbrev sent : ℕ → NetworkItem
sent n = record { item = pos 14; location = pos 4; player = pos 2; flags = 1; index = pos n }

abbrev poll_of : List (Callback toy_json) → Step toy_json
poll_of cbs = polls (record { callbacks = cbs; failure = none })

-- A connect, its items sent twice, a reconnect to another seed.
abbrev session : List (Step toy_json)
session =
    enqueues (connect_to (codes "localhost") (codes "Mina") [])
    ∷ executes machine
    ∷ poll_of (room_info ∷ slot_connected 1 first_room ∷ items_received (sent 0 ∷ sent 1 ∷ []) ∷ [])
    ∷ poll_of (
        socket_disconnected
        ∷ slot_connected 1 first_room
        ∷ items_received (sent 0 ∷ sent 1 ∷ sent 2 ∷ [])
        ∷ [])
    ∷ drains
    ∷ poll_of
        (socket_disconnected ∷ slot_connected 1 second_room ∷ items_received (sent 0 ∷ []) ∷ [])
    ∷ drains
    ∷ []

perform_all-stream_example :
    ((track_all (stream (perform_all toy_json session launched)) fresh_monitor).constant ≡ true)
    × ((track_all (stream (perform_all toy_json session launched)) fresh_monitor).rising ≡ true)
perform_all-stream_example = perform_all-stream toy_json session

connected-IsPublished_example :
    let r = perform_all toy_json session launched in
    IsPublished r.link.accesses
    × (flag_of r.link.accesses ≡ r.link.connected)
    × (is_up r.link.accesses ≡ (track_all (stream r) fresh_monitor).up)
connected-IsPublished_example = connected-IsPublished toy_json session

launched-IsPermitted_example : IsPermitted (perform_all toy_json session launched).link
launched-IsPermitted_example = launched-IsPermitted toy_json session

abbrev resetting : Callbacks ℕ
resetting = record {
  on_death = none;
  on_broadcast = none;
  on_scout = none;
  on_session_reset = none;
  on_session_end = some (λ a. record a { state = reset_session a.state });
}

after_apply-kept : (ev : ApEvent) (a : App ℕ) → (after_apply resetting ev a).state ≡ a.state
unfolding after_apply
after_apply-kept ev a = ground arith

received-drained_example :
    (tick resetting
      (perform_all toy_json session launched).drained
      (record { state = launch; rest = 0 })).state.received_items
    ≡ since_marker (perform_all toy_json session launched).drained []
unfolding before_apply
received-drained_example =
    received-drained (record { end_resets = λ a. refl; others_keep = after_apply-kept }) toy_json
      session (record { state = launch; rest = 0 }) refl

abbrev quiet_round : ℕ → Round toy_json
quiet_round n = record { poll = record { callbacks = room_info ∷ []; failure = none }; now = n }

connect_answered_example :
    0
    < answers
        (run_round toy_json (quiet_round 30000000006) (
          run_rounds toy_json
            (quiet_round 7 ∷ [])
            (do_connect machine (codes "localhost") (codes "Mina") [] new_link))).events
unfolding do_disconnect new_link answers
connect_answered_example =
    connect_answered toy_json machine (codes "localhost") (codes "Mina") [] new_link
      (quiet_round 7 ∷ []) (quiet_round 30000000006) ((tt, tt), tt) (tt, tt) (ground arith)

abbrev opened : ApLink
opened = do_connect machine (codes "localhost") (codes "Mina") [] new_link

throwing_slot_data_silent_example :
    poll_phase toy_json
      (record { callbacks = slot_connected 2 first_room ∷ []; failure = none })
      opened
    ≡ record opened { client = none; connect_deadline = none }
unfolding do_connect do_disconnect open_client plan_connection choose_cert push_event new_link
    parse_slot_data flag
throwing_slot_data_silent_example =
    throwing_slot_data_silent toy_json 2 first_room [] none
      (record { slot = codes "Mina"; password = []; alternates = false }) opened refl refl refl

interleaved_opt_out_lost_example :
    let stored = store_slot_deathlink true opened in
    let left = store_deathlink (effective_deathlink true stored) (enable_deathlink false stored) in
    (left.force_off ≡ true) × (left.deathlink ≡ true)
unfolding do_connect do_disconnect open_client plan_connection choose_cert push_event new_link
interleaved_opt_out_lost_example = interleaved_opt_out_lost opened refl

abbrev plain : SlotDataConfig
plain = elim (parse_slot_data toy_json 1) [ none ↦ default_config | some cfg ↦ cfg ]

parse_slot_data-IsBounded_example : IsBounded plain
unfolding parse_slot_data number flag
parse_slot_data-IsBounded_example = parse_slot_data-IsBounded toy_json 1 {cfg = plain} refl

parse_slot_data-non_object_example :
    parse_slot_data toy_json 0 ≡ some (record default_config { train_rando = false })
parse_slot_data-non_object_example = parse_slot_data-non_object toy_json 0 refl
