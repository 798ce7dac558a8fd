-- ===== src/Link/Loop.antt =====
-- `ApLink::run` of src/mth/net/ap_link_apclient.cpp: a round is commands, a poll and the timeout.
-- A poll is the callbacks that the client invokes, and what it throws of its own behind them.
use mth_apclient.Base.{
  ℕ, Bool, false, Option, none, some, List, [], ◌∷◌, ◌++◌, ltb, if◌then◌else◌, codes, Bytes,
}
use mth_apclient.Link.{
  execute_next, drain_events, push_event, do_disconnect, Surroundings, Client, ApLink, Command,
  new_link, enqueue, enable_deathlink, set_connected,
}
use mth_apclient.SlotData.Library.{JsonLibrary}
use mth_apclient.Link.Handlers.{handle}
use mth_apclient.Ap.Events.{ap_disconnected, ap_connection_refused, ApEvent}
use mth_apclient.Link.Callbacks.{returned, threw, Callback}

module _ (lib : JsonLibrary) where
  pub record PollRound : Type 0 where
    pub callbacks : List (Callback lib)
    pub failure : Option Bytes

-- The `catch` behind a poll.
unfoldable pub catch_poll : Bytes → ApLink → ApLink
unfolding push_event
catch_poll what l =
    let told =
      if l.connected
      then push_event ap_disconnected (set_connected false l)
      else elim l.connect_deadline [
        | none ↦ l
        | some t ↦ push_event (ap_connection_refused ((codes "connection failed: " ++ what) ∷ [])) l
      ] in
    record told { client = none; connect_deadline = none }

module _ (lib : JsonLibrary) where
  unfoldable pub after_callbacks : Option Bytes → ApLink → ApLink
  unfolding catch_poll
  after_callbacks none l = l
  after_callbacks (some what) l = catch_poll what l

  -- The callbacks in order, until one throws.
  unfoldable pub invoke : Client → List (Callback lib) → Option Bytes → ApLink → ApLink
  unfolding after_callbacks handle catch_poll
  invoke c [] failure l = after_callbacks failure l
  invoke c (cb ∷ cbs) failure l = elim (handle lib c cb l) [
    | returned next ↦ invoke c cbs failure next
    | threw what left ↦ catch_poll what left
  ]

  unfoldable pub poll_phase : PollRound lib → ApLink → ApLink
  unfolding invoke
  poll_phase p l = elim l.client [ none ↦ l | some c ↦ invoke c p.callbacks p.failure l ]

unfoldable pub time_out : ApLink → ApLink
unfolding do_disconnect push_event
time_out l =
    push_event (ap_connection_refused (codes "connection timed out" ∷ []))
      (do_disconnect (record l { connect_deadline = none }))

unfoldable pub timeout_phase : ℕ → ApLink → ApLink
unfolding time_out
timeout_phase now l = elim l.connect_deadline [
  | none ↦ l
  | some deadline ↦ if ltb deadline now then time_out l else l
]

-- What either thread does in one go, and the game thread's draining of the queue.
pub data Step (lib : JsonLibrary) : Type 0 where
  enqueues : Command → Step lib
  enables : Bool → Step lib
  drains : Step lib
  executes : Surroundings → Step lib
  polls : PollRound lib → Step lib
  times : ℕ → Step lib

-- The object, and the events drained so far.
pub record Run : Type 0 where
  pub link : ApLink
  pub drained : List ApEvent

abbrev pub on_link : (ApLink → ApLink) → Run → Run
on_link f r = record r { link = f r.link }

unfoldable pub drain_run : Run → Run
unfolding drain_events
drain_run r =
    let (batch, left) = drain_events r.link in record { link = left; drained = r.drained ++ batch }

module _ (lib : JsonLibrary) where
  unfoldable pub perform : Step lib → Run → Run
  unfolding enqueue enable_deathlink drain_run execute_next poll_phase timeout_phase
  perform (enqueues cmd) r = on_link (enqueue cmd) r
  perform (enables on) r = on_link (enable_deathlink on) r
  perform drains r = drain_run r
  perform (executes w) r = on_link (execute_next w) r
  perform (polls p) r = on_link (poll_phase lib p) r
  perform (times now) r = on_link (timeout_phase now) r

  unfoldable pub perform_all : List (Step lib) → Run → Run
  perform_all [] r = r
  perform_all (s ∷ steps) r = perform_all steps (perform s r)

abbrev pub launched : Run
launched = record { link = new_link; drained = [] }
