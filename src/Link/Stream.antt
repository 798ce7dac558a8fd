-- ===== src/Link/Stream.antt =====
-- The whole stream of events that `ApLink` of src/mth/net/ap_link_apclient.cpp ever pushes, over
-- any steps of its two threads.
use mth_apclient.Base.{◌≡◌, refl, Bool, true, ◌&&◌, not, List, [], ◌∷◌, ◌++◌, sym}
use mth_apclient.Link.{
  enable_deathlink, ApLink, update_tags, new_link, Command, drain_events, enqueue,
}
use mth_apclient.SlotData.Library.{JsonLibrary}
use mth_apclient.Link.Loop.{
  executes, drains, enables, Run, launched, enqueues, drain_run, perform, perform_all, Step, polls,
  times,
}
use mth_apclient.Link.Monitor.{
  Monitor, fresh_monitor, track_all-append, Holds, track_all, is_up, flag_of, IsPublished,
}
use mth_apclient.Link.Agreement.{same-Holds}
use mth_apclient.Link.Followed.{poll_phase-Holds, execute_next-Holds, timeout_phase-Holds}
use mth_apclient.Ap.Events.{ApEvent}

-- What was drained, and what is queued.
abbrev pub stream : Run → List ApEvent
stream r = r.drained ++ r.link.events

abbrev pub IsFollowed : Run → Type 0
IsFollowed r = Holds (track_all r.drained fresh_monitor) r.link

keep_link-Holds : (m : Monitor) (cmd : Command) (l : ApLink) → Holds m l → Holds m (enqueue cmd l)
unfolding enqueue
keep_link-Holds m cmd l h = same-Holds m l _ refl refl refl refl refl refl refl h

enable_deathlink-Holds :
    (m : Monitor) (on : Bool) (l : ApLink) → Holds m l → Holds m (enable_deathlink on l)
unfolding enable_deathlink
enable_deathlink-Holds m on l h =
    let effective = l.slot_deathlink && not (not on) in
    let l' = record l { force_off = not on; deathlink = effective } in
    keep_link-Holds m (update_tags effective) l'
      (same-Holds m l l' refl refl refl refl refl refl refl h)

drain_run-IsFollowed : (r : Run) → IsFollowed r → IsFollowed (drain_run r)
unfolding drain_run drain_events Holds track_all
drain_run-IsFollowed r h =
    let same = track_all-append r.drained r.link.events fresh_monitor in
    record {
      announced = rw same h.announced;
      kept = rw same h.kept;
      seen = rw same h.seen;
      risen = rw same h.risen;
      said = rw same h.said;
      ordered = h.ordered;
      attached = h.attached;
    }

launched-IsFollowed : IsFollowed launched
unfolding Holds new_link track_all is_up flag_of IsPublished
launched-IsFollowed = record {
  announced = refl;
  kept = refl;
  seen = refl;
  risen = refl;
  said = refl;
  ordered = (tt, refl);
  attached = λ e. refl;
}

module _ (lib : JsonLibrary) where
  perform-IsFollowed : (s : Step lib) (r : Run) → IsFollowed r → IsFollowed (perform lib s r)
  unfolding perform
  perform-IsFollowed (enqueues cmd) r h = keep_link-Holds _ cmd r.link h
  perform-IsFollowed (enables on) r h = enable_deathlink-Holds _ on r.link h
  perform-IsFollowed drains r h = drain_run-IsFollowed r h
  perform-IsFollowed (executes w) r h = execute_next-Holds _ w r.link h
  perform-IsFollowed (polls p) r h = poll_phase-Holds lib _ p r.link h
  perform-IsFollowed (times now) r h = timeout_phase-Holds _ now r.link h

  pub perform_all-IsFollowed :
      (steps : List (Step lib)) (r : Run) → IsFollowed r → IsFollowed (perform_all lib steps r)
  unfolding perform_all
  perform_all-IsFollowed [] r h = h
  perform_all-IsFollowed (s ∷ steps) r h =
      perform_all-IsFollowed steps (perform lib s r) (perform-IsFollowed s r h)

  -- Over any steps of both threads from the start, in the events pushed, drained or still queued:
  -- a connect names another seed or slot than the connect before it only if a session-ended
  -- marker stands between the two, and the indices of the items behind each marker rise, so that
  -- no item is pushed twice in a session however often the server sends its list.
  pub perform_all-stream :
      (steps : List (Step lib))
      → let seen = track_all (stream (perform_all lib steps launched)) fresh_monitor in
        (seen.constant ≡ true) × (seen.rising ≡ true)
  unfolding Holds
  perform_all-stream steps =
      let r = perform_all lib steps launched in
      let h = perform_all-IsFollowed steps launched launched-IsFollowed in
      let same = track_all-append r.drained r.link.events fresh_monitor in rw same (h.kept, h.risen)

  -- Over any steps of both threads from the start, at each moment between two of the net thread's
  -- pushes to the queue and stores of the connected flag, also those inside one poll or command:
  -- the game thread finds the flag set only if the last event pushed on the state of the
  -- connection is a connect. Behind all steps, the flag is the object's, and the last event on the
  -- connection is the one in what was drained and what is queued.
  pub connected-IsPublished :
      (steps : List (Step lib))
      → let r = perform_all lib steps launched in
        IsPublished r.link.accesses
        × (flag_of r.link.accesses ≡ r.link.connected)
        × (is_up r.link.accesses ≡ (track_all (stream r) fresh_monitor).up)
  unfolding Holds
  connected-IsPublished steps =
      let r = perform_all lib steps launched in
      let h = perform_all-IsFollowed steps launched launched-IsFollowed in
      let same = track_all-append r.drained r.link.events fresh_monitor in
      (h.ordered.0, h.ordered.1, sym (rw same h.said))
