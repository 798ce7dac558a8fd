-- ===== src/Link/Permission.antt =====
-- Deathlink in src/mth/net/ap_link_apclient.cpp: what the slot permits, and the opt-out.
use mth_apclient.Base.{
  ℕ, ◌≡◌, inl, inr, refl, true, false, ◌&&◌, not, Option, none, some, List, [], ◌∷◌, arith,
  Option-cases, Bytes, List-cases,
}
use mth_apclient.Link.{
  ApLink, open_client, enable_deathlink, push_event, drain_events, do_connect, execute_next, Client,
  enqueue, Surroundings, leave, execute, Command, do_disconnect, refuse_connect, connect_to,
  new_link, store_deathlink,
}
use mth_apclient.SlotData.Library.{JsonLibrary}
use mth_apclient.Link.Handlers.{
  on_print_json, adopt_session, on_location_info, on_socket_error, on_slot_connected,
  banner_segments, store_slot_deathlink, push_segments, handle, effective_deathlink,
  on_socket_disconnected, handle_slot_connected, on_room_info, on_items_received, on_item,
  on_slot_refused, on_bounced,
}
use mth_apclient.Link.Loop.{
  enables, Run, enqueues, catch_poll, timeout_phase, invoke, poll_phase, time_out, after_callbacks,
  drain_run, drains, executes, PollRound, perform, perform_all, Step, polls, times, launched,
}
use mth_apclient.Link.Followed.{Outcome-cases, object_of}
use mth_apclient.Ap.Events.{BannerSegment}
use mth_apclient.Link.Callbacks.{items_received, print_json, Callback, NetworkItem}

abbrev pub IsPermitted : ApLink → Type 0
IsPermitted l = l.deathlink ≡ (l.slot_deathlink && not l.force_off)

-- What leaves the three atomics alone.
abbrev SameFlags : ApLink → ApLink → Type 0
SameFlags l k =
    (k.deathlink ≡ l.deathlink)
    × (k.slot_deathlink ≡ l.slot_deathlink)
    × (k.force_off ≡ l.force_off)

same-IsPermitted : (l k : ApLink) → SameFlags l k → IsPermitted l → IsPermitted k
same-IsPermitted l k same h = ground (arith, same)

do_disconnect-SameFlags : (l : ApLink) → SameFlags l (do_disconnect l)
unfolding do_disconnect push_event
do_disconnect-SameFlags l = ground arith

do_connect-SameFlags :
    (w : Surroundings) (server slot password : Bytes) (l : ApLink)
    → SameFlags l (do_connect w server slot password l)
unfolding do_connect refuse_connect open_client push_event
do_connect-SameFlags w server slot password l = ground (arith, do_disconnect-SameFlags l)

execute-SameFlags : (w : Surroundings) (cmd : Command) (l : ApLink) → SameFlags l (execute w cmd l)
unfolding execute
execute-SameFlags w (connect_to server slot password) l =
    do_connect-SameFlags w server slot password l
execute-SameFlags w leave l = do_disconnect-SameFlags l
execute-SameFlags w cmd l = ground arith

execute_next-SameFlags : (w : Surroundings) (l : ApLink) → SameFlags l (execute_next w l)
unfolding execute_next
execute_next-SameFlags w l = elim (List-cases l.commands) [
  | inl e ↦ ground (arith, e)
  | inr (cmd, cmds, e) ↦ ground (arith, e, execute-SameFlags w cmd (record l { commands = cmds }))
]

timeout_phase-SameFlags : (now : ℕ) (l : ApLink) → SameFlags l (timeout_phase now l)
unfolding timeout_phase time_out push_event
timeout_phase-SameFlags now l =
    ground (arith, do_disconnect-SameFlags (record l { connect_deadline = none }))

catch_poll-SameFlags : (what : Bytes) (l : ApLink) → SameFlags l (catch_poll what l)
unfolding catch_poll push_event
catch_poll-SameFlags what l = ground arith

on_items_received-SameFlags :
    (items : List NetworkItem) (l : ApLink) → SameFlags l (on_items_received items l)
unfolding on_items_received on_item push_event
on_items_received-SameFlags [] l = (refl, refl, refl)
on_items_received-SameFlags (it ∷ items) l =
    ground (arith, on_items_received-SameFlags items (on_item it l))

push_segments-SameFlags :
    (segments : List BannerSegment) (l : ApLink) → SameFlags l (push_segments segments l)
unfolding push_segments push_event
push_segments-SameFlags [] l = (refl, refl, refl)
push_segments-SameFlags (segment ∷ segments) l = (refl, refl, refl)

module _ (lib : JsonLibrary) where
  handle-IsPermitted :
      (c : Client) (cb : Callback lib) (l : ApLink)
      → IsPermitted l
      → IsPermitted (object_of (handle lib c cb l))
  unfolding handle on_socket_error on_socket_disconnected on_room_info handle_slot_connected
      on_slot_connected adopt_session on_slot_refused on_location_info on_bounced on_print_json
      push_event
  handle-IsPermitted c (items_received items) l h =
      same-IsPermitted l (on_items_received items l) (on_items_received-SameFlags items l) h
  handle-IsPermitted c (print_json names args) l h =
      ground (arith, h, push_segments-SameFlags (banner_segments names args.nodes) l)
  handle-IsPermitted c cb l h = ground (arith, h)

  invoke-IsPermitted :
      (c : Client) (cbs : List (Callback lib)) (failure : Option Bytes) (l : ApLink)
      → IsPermitted l
      → IsPermitted (invoke lib c cbs failure l)
  unfolding invoke after_callbacks
  invoke-IsPermitted c [] none l h = h
  invoke-IsPermitted c [] (some what) l h =
      same-IsPermitted l (catch_poll what l) (catch_poll-SameFlags what l) h
  invoke-IsPermitted c (cb ∷ cbs) failure l h =
      let held = handle-IsPermitted c cb l h in
      elim (Outcome-cases (handle lib c cb l)) [
        | inl (next, done) ↦
            ground (arith, done, invoke-IsPermitted c cbs failure next (rw done at held))
        | inr (what, thrown, done) ↦
            let kept : IsPermitted thrown = rw done at held in
            ground (arith, done, kept, catch_poll-SameFlags what thrown)
      ]

  poll_phase-IsPermitted :
      (p : PollRound lib) (l : ApLink) → IsPermitted l → IsPermitted (poll_phase lib p l)
  unfolding poll_phase
  poll_phase-IsPermitted p l h = elim (Option-cases l.client) [
    | inl e ↦ ground (arith, e, h)
    | inr (c, e) ↦ ground (arith, e, invoke-IsPermitted c p.callbacks p.failure l h)
  ]

  perform-IsPermitted :
      (s : Step lib) (r : Run) → IsPermitted r.link → IsPermitted (perform lib s r).link
  unfolding perform drain_run drain_events enqueue enable_deathlink
  perform-IsPermitted (enqueues cmd) r h = h
  perform-IsPermitted (enables on) r h = refl
  perform-IsPermitted drains r h = h
  perform-IsPermitted (executes w) r h =
      same-IsPermitted r.link (execute_next w r.link) (execute_next-SameFlags w r.link) h
  perform-IsPermitted (polls p) r h = poll_phase-IsPermitted p r.link h
  perform-IsPermitted (times now) r h =
      same-IsPermitted r.link (timeout_phase now r.link) (timeout_phase-SameFlags now r.link) h

  perform_all-IsPermitted :
      (steps : List (Step lib)) (r : Run)
      → IsPermitted r.link
      → IsPermitted (perform_all lib steps r).link
  unfolding perform_all
  perform_all-IsPermitted [] r h = h
  perform_all-IsPermitted (s ∷ steps) r h =
      perform_all-IsPermitted steps (perform lib s r) (perform-IsPermitted s r h)

  -- Where the game thread's call of `enable_deathlink` and a poll of the net thread never overlap,
  -- each of them running whole before the other begins, deathlink is on after any steps from the
  -- start exactly when the stored permission of the slot is on and the opt-out is not set.
  pub launched-IsPermitted :
      (steps : List (Step lib)) → IsPermitted (perform_all lib steps launched).link
  unfolding new_link
  launched-IsPermitted steps = perform_all-IsPermitted steps launched refl

-- An opt-out that comes in while a connect with permitting slot data stands between its read of
-- the opt-out and its store is lost: deathlink ends up on, with the opt-out set.
pub interleaved_opt_out_lost :
    (l : ApLink)
    → l.force_off ≡ false
    → let stored = store_slot_deathlink true l in
      let effective = effective_deathlink true stored in
      let left = store_deathlink effective (enable_deathlink false stored) in
      (left.force_off ≡ true) × (left.deathlink ≡ true)
unfolding enable_deathlink enqueue
interleaved_opt_out_lost l h = ground (arith, h)
