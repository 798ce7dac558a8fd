-- ===== src/Link/Followed.antt =====
-- Any steps of the two threads of src/mth/net/ap_link_apclient.cpp, and what they promise whoever
-- reads the events.
use mth_apclient.Base.{
  ◌≡◌, ◌≢◌, refl, false, not, none, List, [], ◌∷◌, arith, ℕ, ◌⊎◌, inl, inr, Option, some,
  if◌then◌else◌, Option-cases, codes, Bytes, List-cases, ◌++◌, Bool-cases,
}
use mth_apclient.Link.{
  push_event, Client, ApLink, log_call, update_tags, execute_next, scout_at, location_checks,
  status_goal, Command, send_death_of, leave, do_disconnect, connect_update, set_area, report_goal,
  location_scouts, Surroundings, check_at, execute, report_area_of, ClientCall, connect_to, bounce,
  refuse_connect, set_connected,
}
use mth_apclient.SlotData.Library.{JsonLibrary}
use mth_apclient.Link.Handlers.{
  on_slot_connected, adopt_session, on_print_json, banner_segments, handle, on_item,
  on_socket_disconnected, on_location_info, on_socket_error, handle_slot_connected, push_segments,
  on_bounced, on_room_info, on_items_received, on_slot_refused,
}
use mth_apclient.Link.Monitor.{Monitor, Holds}
use mth_apclient.Link.Agreement.{
  tell-Holds, same-Holds, mention-Holds, down-Holds, do_disconnect-Holds, refuse_connect-Holds,
  do_connect-Holds, connected-do_disconnect, still-Holds,
}
use mth_apclient.Link.Handled.{
  on_items_received-Holds, on_print_json-Holds, on_bounced-Holds, on_slot_connected-Holds,
}
use mth_apclient.Ap.Events.{
  BannerSegment, ap_connection_refused, ap_locations_checked, ap_disconnected,
}
use mth_apclient.SlotData.{parse_slot_data}
use mth_apclient.Link.Loop.{
  catch_poll, poll_phase, timeout_phase, time_out, PollRound, invoke, after_callbacks,
}
use mth_apclient.Link.Deaths.{deathlink_cause}
use mth_apclient.Link.Callbacks.{
  bounced, NetworkItem, socket_disconnected, print_json, threw, items_received, slot_connected,
  Callback, location_checked, location_info, socket_error, room_info, Outcome, returned,
  slot_refused,
}

pub Outcome-cases :
    (o : Outcome)
    → ((l : ApLink) × (o ≡ returned l)) ⊎ ((what : Bytes) × (l : ApLink) × (o ≡ threw what l))
Outcome-cases (returned l) = inl (l, refl)
Outcome-cases (threw what l) = inr (what, l, refl)

-- The object that a callback leaves, whether it returned or threw.
abbrev pub object_of : Outcome → ApLink
object_of (returned l) = l
object_of (threw what l) = l

client-on_items_received :
    (items : List NetworkItem) (l : ApLink) → (on_items_received items l).client ≡ l.client
unfolding on_items_received on_item push_event
client-on_items_received [] l = refl
client-on_items_received (it ∷ items) l =
    ground (arith, client-on_items_received items (on_item it l))

client-push_segments :
    (segments : List BannerSegment) (l : ApLink) → (push_segments segments l).client ≡ l.client
unfolding push_segments push_event
client-push_segments [] l = refl
client-push_segments (segment ∷ segments) l = refl

module _ (lib : JsonLibrary) where
  open lib use {is_null, dump}

  -- No callback takes the client away.
  client-handle :
      (c : Client) (cb : Callback lib) (l : ApLink)
      → (object_of (handle lib c cb l)).client ≡ l.client
  unfolding handle on_socket_error on_socket_disconnected on_room_info handle_slot_connected
      on_slot_connected adopt_session on_slot_refused on_location_info on_bounced on_print_json
      push_event
  client-handle c (items_received items) l = client-on_items_received items l
  client-handle c (print_json names args) l =
      ground (arith, client-push_segments (banner_segments names args.nodes) l)
  client-handle c (slot_connected json room) l = ground arith
  client-handle c (bounced cmd) l = ground arith
  client-handle c socket_error l = ground arith
  client-handle c _ l = refl

  module _ (m : Monitor) where
    handle-Holds :
        (c : Client) (cb : Callback lib) (l : ApLink)
        → l.client ≢ none
        → Holds m l
        → Holds m (object_of (handle lib c cb l))
    unfolding handle on_socket_error on_socket_disconnected on_room_info on_slot_refused
        on_location_info handle_slot_connected
    handle-Holds c socket_error l e h = ground (
      arith,
      h,
      same-Holds m l (record l { encrypted_attempt = not l.encrypted_attempt }) refl refl refl refl
          refl refl refl h,
    )
    handle-Holds c socket_disconnected l e h =
        tell-Holds m ap_disconnected _ (λ w. refl) refl
          (down-Holds m l (record (set_connected false l) { connect_deadline = none }) refl refl
            refl refl refl refl h)
    handle-Holds c room_info l e h = same-Holds m l _ refl refl refl refl refl refl refl h
    handle-Holds c (slot_connected json room) l e h =
        let l' = record l { connect_deadline = none } in
        let text = if is_null json then [] else dump json in
        let held : Holds m l' = same-Holds m l l' refl refl refl refl refl refl refl h in
        elim (Option-cases (parse_slot_data lib json)) [
          | inl e' ↦ ground (arith, e', held)
          | inr (parsed, e') ↦
              ground (arith, e', on_slot_connected-Holds m text parsed room l' e held)
        ]
    handle-Holds c (slot_refused errors) l e h =
        tell-Holds m (ap_connection_refused errors) _ (λ w. refl) refl
          (down-Holds m l (record (set_connected false l) { connect_deadline = none }) refl refl
            refl refl refl refl h)
    handle-Holds c (items_received items) l e h = on_items_received-Holds m items l h
    handle-Holds c (location_checked ids) l e h =
        mention-Holds m (ap_locations_checked ids) l (λ w. refl) h
    handle-Holds c (location_info names items) l e h = mention-Holds m _ l (λ w. refl) h
    handle-Holds c (bounced cmd) l e h = on_bounced-Holds m lib cmd l h
    handle-Holds c (print_json names args) l e h = on_print_json-Holds m names args l h

    catch_poll-Holds : (what : Bytes) (l : ApLink) → Holds m l → Holds m (catch_poll what l)
    unfolding catch_poll push_event
    catch_poll-Holds what l h =
        let l' = set_connected false l in
        let dropped =
          tell-Holds m ap_disconnected l' (λ w. refl) refl
            (down-Holds m l l' refl refl refl refl refl refl h) in
        let refused = ap_connection_refused ((codes "connection failed: " ++ what) ∷ []) in
        elim (Bool-cases l.connected) [
          | inl up ↦ ground (
            arith,
            up,
            still-Holds m (push_event ap_disconnected l')
                (record (push_event ap_disconnected l') { client = none; connect_deadline = none })
                refl refl refl refl refl refl refl dropped,
          )
          | inr down ↦ elim (Option-cases l.connect_deadline) [
            | inl e ↦ ground (
              arith,
              down,
              e,
              still-Holds m l (record l { client = none; connect_deadline = none }) refl refl refl
                  refl refl down refl h,
            )
            | inr (t, e) ↦ ground (
              arith,
              down,
              e,
              still-Holds m (push_event refused l)
                  (record (push_event refused l) { client = none; connect_deadline = none }) refl
                  refl refl refl refl down refl (tell-Holds m refused l (λ w. refl) down h),
            )
          ]
        ]

    invoke-Holds :
        (c : Client) (cbs : List (Callback lib)) (failure : Option Bytes) (l : ApLink)
        → l.client ≢ none
        → Holds m l
        → Holds m (invoke lib c cbs failure l)
    unfolding invoke after_callbacks
    invoke-Holds c [] none l e h = h
    invoke-Holds c [] (some what) l e h = catch_poll-Holds what l h
    invoke-Holds c (cb ∷ cbs) failure l e h =
        let held = handle-Holds c cb l e h in
        let kept : (object_of (handle lib c cb l)).client ≢ none = rw (client-handle c cb l) e in
        elim (Outcome-cases (handle lib c cb l)) [
          | inl (next, done) ↦
              rw (invoke, done)
                (invoke-Holds c cbs failure next (rw done at kept) (rw done at held))
          | inr (what, thrown, done) ↦
              rw (invoke, done) (catch_poll-Holds what thrown (rw done at held))
        ]

    pub poll_phase-Holds :
        (p : PollRound lib) (l : ApLink) → Holds m l → Holds m (poll_phase lib p l)
    unfolding poll_phase
    poll_phase-Holds p l h = elim (Option-cases l.client) [
      | inl e ↦ ground (arith, e, h)
      | inr (c, e) ↦
          ground (arith, e, invoke-Holds c p.callbacks p.failure l (λ e'. ground arith) h)
    ]

module _ (m : Monitor) where
  pub timeout_phase-Holds : (now : ℕ) (l : ApLink) → Holds m l → Holds m (timeout_phase now l)
  unfolding timeout_phase time_out refuse_connect
  timeout_phase-Holds now l h =
      let l' = record l { connect_deadline = none } in
      let held : Holds m l' = same-Holds m l l' refl refl refl refl refl refl refl h in
      let told =
        refuse_connect-Holds m (codes "connection timed out") (do_disconnect l')
          (connected-do_disconnect m l' held) (do_disconnect-Holds m l' held) in
      elim (Option-cases l.connect_deadline) [
        | inl e ↦ ground (arith, e, h)
        | inr (deadline, e) ↦ ground (arith, e, h, told)
      ]

  logged-Holds : (c : ClientCall) (l : ApLink) → Holds m l → Holds m (log_call c l)
  logged-Holds c l h = same-Holds m l _ refl refl refl refl refl refl refl h

  execute-Holds :
      (w : Surroundings) (cmd : Command) (l : ApLink) → Holds m l → Holds m (execute w cmd l)
  unfolding execute
  execute-Holds w (connect_to server slot password) l h =
      do_connect-Holds m w server slot password l h
  execute-Holds w leave l h = do_disconnect-Holds m l h
  execute-Holds w (check_at ids) l h = ground (arith, h, logged-Holds (location_checks ids) l h)
  execute-Holds w (scout_at ids) l h = ground (arith, h, logged-Holds (location_scouts ids) l h)
  execute-Holds w report_goal l h = ground (arith, h, logged-Holds status_goal l h)
  execute-Holds w (update_tags on) l h = ground (arith, h, logged-Holds (connect_update on) l h)
  execute-Holds w (send_death_of detail) l h =
      ground (arith, h, logged-Holds (bounce l.slot_name (deathlink_cause l.slot_name detail)) l h)
  execute-Holds w (report_area_of state) l h = ground (arith, h, logged-Holds (set_area state) l h)

  pub execute_next-Holds : (w : Surroundings) (l : ApLink) → Holds m l → Holds m (execute_next w l)
  unfolding execute_next
  execute_next-Holds w l h = elim (List-cases l.commands) [
    | inl e ↦ ground (arith, e, h)
    | inr (cmd, cmds, e) ↦
        let l' = record l { commands = cmds } in
        ground (
          arith,
          e,
          execute-Holds w cmd l' (same-Holds m l l' refl refl refl refl refl refl refl h),
        )
  ]
