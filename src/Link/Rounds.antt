-- ===== src/Link/Rounds.antt =====
-- Rounds of `ApLink::run` (src/mth/net/ap_link_apclient.cpp) behind a connect.
use mth_apclient.Base.{
  ℕ, ◌+◌, ◌≤◌, ◌<◌, ◌≡◌, inl, inr, false, none, List, [], ◌∷◌, arith, Option-cases, All, codes,
  Bytes, refl, not, some, ◌++◌, Option,
}
use mth_apclient.Link.{
  refuse_connect, do_connect, do_disconnect, Surroundings, open_client, connect_timeout, ApLink,
  Client, set_connected,
}
use mth_apclient.SlotData.Library.{JsonLibrary}
use mth_apclient.Link.Answered.{Parses, invoke-IsPending, IsPending, answers, answers-push_event}
use mth_apclient.Link.Loop.{time_out, poll_phase, timeout_phase, PollRound, catch_poll, invoke}
use mth_apclient.Ap.Events.{ap_disconnected, ap_connection_refused, ap_connecting}
use mth_apclient.Link.Handlers.{handle, handle_slot_connected}
use mth_apclient.Link.Targets.{is_preferred, plan_connection, choose_cert, is_off, TlsMode}
use mth_apclient.SlotData.{parse_slot_data}
use mth_apclient.Link.Callbacks.{slot_connected, Callback, Room}

-- What a round meets behind the commands: a poll, and the clock at the timeout's test.
pub record Round (lib : JsonLibrary) : Type 0 where
  pub poll : PollRound lib
  pub now : ℕ

module _ (lib : JsonLibrary) where
  unfoldable pub run_round : Round lib → ApLink → ApLink
  unfolding poll_phase timeout_phase
  run_round r l = timeout_phase r.now (poll_phase lib r.poll l)

  unfoldable pub run_rounds : List (Round lib) → ApLink → ApLink
  unfolding run_round
  run_rounds [] l = l
  run_rounds (r ∷ rounds) l = run_rounds rounds (run_round r l)

  abbrev pub RoundParses : Round lib → Type 0
  RoundParses r = All (Parses lib) r.poll.callbacks

more-do_disconnect : (l : ApLink) → answers l.events ≤ answers (do_disconnect l).events
unfolding do_disconnect
more-do_disconnect l =
    let gone = record (set_connected false (record l { connect_deadline = none })) {
      client = none;
    } in
    ground (arith, answers-push_event ap_disconnected gone)

more-time_out : (l : ApLink) → answers l.events < answers (time_out l).events
unfolding time_out
more-time_out l =
    let l' = record l { connect_deadline = none } in
    omega (
      arith,
      more-do_disconnect l',
      answers-push_event (ap_connection_refused (codes "connection timed out" ∷ []))
          (do_disconnect l'),
    )

answers-refuse_connect :
    (text : Bytes) (l : ApLink) → answers (refuse_connect text l).events ≡ answers l.events + 1
unfolding refuse_connect
answers-refuse_connect text l = answers-push_event (ap_connection_refused (text ∷ [])) l

answers-open_client :
    (w : Surroundings) (slot password : Bytes) (tls : TlsMode) (l : ApLink)
    → answers (open_client w slot password tls l).events ≡ answers l.events
unfolding open_client
answers-open_client w slot password tls l =
    let opened = record l {
      client = some (record { slot = slot; password = password; alternates = is_preferred tls });
      encrypted_attempt = not (is_off tls);
    } in
    omega (arith, answers-push_event ap_connecting opened)

deadline-open_client :
    (w : Surroundings) (slot password : Bytes) (tls : TlsMode) (l : ApLink)
    → (open_client w slot password tls l).connect_deadline ≡ some (w.now + connect_timeout)
unfolding open_client
deadline-open_client w slot password tls l = refl

module _ (n deadline : ℕ) where
  timeout_phase-IsPending :
      (now : ℕ) (l : ApLink) → IsPending n deadline l → IsPending n deadline (timeout_phase now l)
  unfolding timeout_phase
  timeout_phase-IsPending now l h = ground (arith, h, more-time_out l)

  late-answers :
      (now : ℕ) (l : ApLink)
      → deadline < now
      → IsPending n deadline l
      → n < answers (timeout_phase now l).events
  unfolding timeout_phase
  late-answers now l late h = ground (arith, h, late, more-time_out l)

  do_connect-IsPending :
      (w : Surroundings) (server slot password : Bytes) (l : ApLink)
      → answers (do_disconnect l).events ≡ n
      → w.now + connect_timeout ≡ deadline
      → IsPending n deadline (do_connect w server slot password l)
  unfolding do_connect
  do_connect-IsPending w server slot password l e d =
      let named = record (do_disconnect l) { slot_name = slot } in
      let target = plan_connection server in
      let choice = choose_cert target.tls w.bundle in
      let empty = answers-refuse_connect (codes "server and slot are required") named in
      let unsafe =
        answers-refuse_connect (codes "no CA bundle found for wss (set MTHAP_AP_CERT)") named in
      elim (Option-cases (w.make_client server target.uri choice.cert)) [
        | inl made ↦ ground (
          arith,
          made,
          empty,
          unsafe,
          answers-open_client w slot password target.tls named,
          deadline-open_client w slot password target.tls named,
        )
        | inr (what, fails) ↦ ground (
          arith,
          fails,
          empty,
          unsafe,
          answers-refuse_connect (codes "connect failed: " ++ what) named,
        )
      ]

  module _ (lib : JsonLibrary) where
    poll_phase-IsPending :
        (p : PollRound lib) (l : ApLink)
        → All (Parses lib) p.callbacks
        → IsPending n deadline l
        → IsPending n deadline (poll_phase lib p l)
    unfolding poll_phase
    poll_phase-IsPending p l parses h = elim (Option-cases l.client) [
      | inl e ↦ ground (arith, e, h)
      | inr (c, e) ↦
          ground (arith, e, invoke-IsPending n deadline lib c p.callbacks p.failure l parses h)
    ]

    run_rounds-IsPending :
        (rounds : List (Round lib)) (l : ApLink)
        → All (RoundParses lib) rounds
        → IsPending n deadline l
        → IsPending n deadline (run_rounds lib rounds l)
    unfolding run_rounds run_round
    run_rounds-IsPending [] l parses h = h
    run_rounds-IsPending (r ∷ rounds) l (first, parses) h =
        run_rounds-IsPending rounds (run_round lib r l) parses (
          timeout_phase-IsPending r.now (poll_phase lib r.poll l)
            (poll_phase-IsPending r.poll l first h))

-- A connect is answered: of the rounds behind it, which run no command and whose polls make any
-- callbacks and failures where no slot data throws in its parse, one whose clock is more than 30
-- seconds past the attempt's start ends with a connect, a refusal or a disconnect pushed, not
-- counting what taking the old connection down pushed.
pub connect_answered :
    (lib : JsonLibrary) (w : Surroundings) (server slot password : Bytes) (l : ApLink)
    (rounds : List (Round lib)) (last : Round lib)
    → All (RoundParses lib) rounds
    → RoundParses lib last
    → w.now + connect_timeout < last.now
    → let after = run_rounds lib rounds (do_connect w server slot password l) in
      answers (do_disconnect l).events < answers (run_round lib last after).events
unfolding run_round
connect_answered lib w server slot password l rounds last parses parses_last late =
    let n = answers (do_disconnect l).events in
    let deadline = w.now + connect_timeout in
    let after = run_rounds lib rounds (do_connect w server slot password l) in
    late-answers n deadline last.now (poll_phase lib last.poll after) late (
      poll_phase-IsPending n deadline lib last.poll after parses_last (
        run_rounds-IsPending n deadline lib rounds (do_connect w server slot password l) parses
          (do_connect-IsPending n deadline w server slot password l refl refl)))

-- Slot data that throws in its parse is answered by nothing: the handler has cleared the deadline
-- before it parses, so the `catch` that is to report the attempt finds none. The client is gone
-- and the events are as before.
pub throwing_slot_data_silent :
    (lib : JsonLibrary) (json : lib.Json) (room : Room) (cbs : List (Callback lib))
    (failure : Option Bytes) (c : Client) (l : ApLink)
    → l.client ≡ some c
    → l.connected ≡ false
    → parse_slot_data lib json ≡ none
    → poll_phase lib (record { callbacks = slot_connected json room ∷ cbs; failure = failure }) l
      ≡ record l { client = none; connect_deadline = none }
unfolding poll_phase invoke handle handle_slot_connected catch_poll
throwing_slot_data_silent lib json room cbs failure c l e down bad = ground (arith, e, down, bad)
