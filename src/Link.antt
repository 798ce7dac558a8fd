-- ===== src/Link.antt =====
-- src/mth/net/ap_link_apclient.hpp and ap_link_apclient.cpp: `ApLink`, which runs apclientpp on a
-- thread of its own. The state is the object's, with the lambdas of the command queue as data; a
-- client that exists is what its handlers captured. `calls` is the log of what is asked of the
-- client, whose answers the source ignores or only logs. Clock readings are nanoseconds.
pub mod Targets
pub mod Callbacks
pub mod Handlers
pub mod Loop
pub mod Rounds
pub mod Stream
pub mod Receipts
pub mod Answered
pub mod Permission
pub mod Handled
pub mod Followed
pub mod Agreement
pub mod Monitor
pub mod Deaths
use mth_apclient.Link.Targets.{plan_connection, choose_cert, is_preferred, is_off, TlsMode}
use mth_apclient.Link.Deaths.{deathlink_cause}
use mth_apclient.Base.{
  ℕ, ◌+◌, Bool, true, false, ◌&&◌, ◌||◌, not, Option, none, some, List, [], ◌∷◌, ◌++◌,
  if◌then◌else◌, ℤ, negsuc, codes, Bytes, refuse, set,
}
use mth_apclient.Zip.{is_nil}
use mth_apclient.Ap.Events.{ap_connecting, ApEvent, ap_connection_refused, ap_disconnected}

-- What the handlers of a client capture.
pub record Client : Type 0 where
  pub slot : Bytes
  pub password : Bytes
  pub alternates : Bool

-- The calls of the client. The flag of a call says whether its tags hold "DeathLink".
pub data ClientCall : Type 0 where
  location_checks location_scouts : List ℤ → ClientCall
  status_goal status_playing : ClientCall
  connect_slot : Bytes → Bytes → Bool → ClientCall
  connect_update : Bool → ClientCall
  bounce : (source cause : Bytes) → ClientCall
  set_area : ℤ → ClientCall

-- The lambdas that the game thread enqueues.
pub data Command : Type 0 where
  connect_to : (server slot password : Bytes) → Command
  leave : Command
  check_at scout_at : List ℤ → Command
  report_goal : Command
  update_tags : Bool → Command
  send_death_of : Bytes → Command
  report_area_of : ℤ → Command

-- What the game thread can see the net thread do, in the order it is done: an event is pushed, and
-- `connected_` is stored.
pub data Access : Type 0 where
  pushed : ApEvent → Access
  flagged : Bool → Access

-- `accesses` are those accesses, newest first; nothing reads them. The exchange of the catch behind
-- a poll that finds the flag down already stores nothing new and is left out.
pub record ApLink : Type 0 where
  pub client : Option Client
  pub encrypted_attempt : Bool
  pub last_item_index : ℤ
  pub session_seed : Bytes
  pub session_slot : ℤ
  pub slot_name : Bytes
  pub connect_deadline : Option ℕ
  pub connected : Bool
  pub deathlink : Bool
  pub force_off : Bool
  pub slot_deathlink : Bool
  pub commands : List Command
  pub events : List ApEvent
  pub calls : List ClientCall
  pub accesses : List Access

-- The member initializers.
unfoldable pub new_link : ApLink
new_link = record {
  client = none;
  encrypted_attempt = true;
  last_item_index = negsuc 0;
  session_seed = [];
  session_slot = negsuc 0;
  slot_name = [];
  connect_deadline = none;
  connected = false;
  deathlink = false;
  force_off = false;
  slot_deathlink = false;
  commands = [];
  events = [];
  calls = [];
  accesses = [];
}

unfoldable pub enqueue : Command → ApLink → ApLink
enqueue cmd l = record l { commands = l.commands ++ cmd ∷ [] }

unfoldable pub push_event : ApEvent → ApLink → ApLink
push_event ev l = record l { events = l.events ++ ev ∷ []; accesses = pushed ev ∷ l.accesses }

abbrev pub set_connected : Bool → ApLink → ApLink
set_connected up l = record l { connected = up; accesses = flagged up ∷ l.accesses }

unfoldable pub drain_events : ApLink → List ApEvent × ApLink
drain_events l = (l.events, record l { events = [] })

abbrev pub log_call : ClientCall → ApLink → ApLink
log_call c l = record l { calls = l.calls ++ c ∷ [] }

-- The atomics of the game thread's call: `force_off_` is stored, the slot's permission and
-- `force_off_` are read, and what holds of both is stored. The net thread may come in between.
abbrev pub store_force_off : Bool → ApLink → ApLink
store_force_off opted l = record l { force_off = opted }

abbrev pub wanted_deathlink : ApLink → Bool
wanted_deathlink l = l.slot_deathlink && not l.force_off

abbrev pub store_deathlink : Bool → ApLink → ApLink
store_deathlink effective l = record l { deathlink = effective }

-- The whole call, with the command it enqueues.
unfoldable pub enable_deathlink : Bool → ApLink → ApLink
unfolding enqueue
enable_deathlink on l =
    let opted = store_force_off (not on) l in
    let effective = wanted_deathlink opted in
    enqueue (update_tags effective) (store_deathlink effective opted)

-- A call inside `if (!client_ || ids.empty()) return`.
abbrev on_client : Option Client → ApLink → ApLink → ApLink
on_client none quiet loud = quiet
on_client (some c) quiet loud = loud

abbrev is_empty_list : List ℤ → Bool
is_empty_list [] = true
is_empty_list (id ∷ ids) = false

unfoldable pub do_disconnect : ApLink → ApLink
unfolding push_event
do_disconnect link =
    let l = record link { connect_deadline = none } in
    elim link.client [
      | none ↦ l
      | some c ↦
          let gone = record (set_connected false l) { client = none } in
          if link.connected then push_event ap_disconnected gone else gone
    ]

-- What `do_connect` meets: the clock, the path of the CA bundle or nothing, and what building the
-- client for a server, its URI and certificate throws, if it does.
pub record Surroundings : Type 0 where
  pub now : ℕ
  pub bundle : Bytes
  pub make_client : Bytes → Bytes → Bytes → Option Bytes

-- 30 seconds.
abbrev pub connect_timeout : ℕ
connect_timeout = 30000000000

unfoldable pub open_client : Surroundings → (slot password : Bytes) → TlsMode → ApLink → ApLink
unfolding push_event
open_client w slot password tls l =
    record (push_event ap_connecting (record l {
      client = some (record { slot = slot; password = password; alternates = is_preferred tls });
      encrypted_attempt = not (is_off tls);
    })) { connect_deadline = some (w.now + connect_timeout) }

unfoldable pub refuse_connect : Bytes → ApLink → ApLink
unfolding push_event
refuse_connect text l = push_event (ap_connection_refused (text ∷ [])) l

unfoldable pub do_connect : Surroundings → (server slot password : Bytes) → ApLink → ApLink
unfolding do_disconnect refuse_connect open_client
do_connect w server slot password link =
    let l = record (do_disconnect link) { slot_name = slot } in
    let target = plan_connection server in
    let choice = choose_cert target.tls w.bundle in
    if is_nil server || is_nil slot
    then refuse_connect (codes "server and slot are required") l
    else if choice.refuse
    then refuse_connect (codes "no CA bundle found for wss (set MTHAP_AP_CERT)") l
    else elim (w.make_client server target.uri choice.cert) [
      | none ↦ open_client w slot password target.tls l
      | some what ↦ record (refuse_connect (codes "connect failed: " ++ what) l) { client = none }
    ]

-- One command on the net thread.
unfoldable pub execute : Surroundings → Command → ApLink → ApLink
unfolding do_connect do_disconnect deathlink_cause
execute w (connect_to server slot password) l = do_connect w server slot password l
execute w leave l = do_disconnect l
execute w (check_at ids) l =
    on_client l.client l (if is_empty_list ids then l else log_call (location_checks ids) l)
execute w (scout_at ids) l =
    on_client l.client l (if is_empty_list ids then l else log_call (location_scouts ids) l)
execute w report_goal l = on_client l.client l (log_call status_goal l)
execute w (update_tags on) l = on_client l.client l (log_call (connect_update on) l)
execute w (send_death_of detail) l =
    let cause = deathlink_cause l.slot_name detail in
    on_client l.client l (if l.deathlink then log_call (bounce l.slot_name cause) l else l)
execute w (report_area_of game_state) l = on_client l.client l (log_call (set_area game_state) l)

-- `run`'s inner loop: one round takes the front of the queue.
unfoldable pub execute_next : Surroundings → ApLink → ApLink
unfolding execute
execute_next w l = elim l.commands [
  | [] ↦ l
  | cmd ∷ cmds ↦ execute w cmd (record l { commands = cmds })
]
