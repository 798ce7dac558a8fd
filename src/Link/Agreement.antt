-- ===== src/Link/Agreement.antt =====
-- That `ApLink` of src/mth/net/ap_link_apclient.cpp agrees with the monitor of its event stream
-- after each step of either thread.
use mathlib.Core.Path.{subst}
use mathlib.Core.Bool.{false≢true}
use mth_apclient.Base.{
  ◌≡◌, sym, none, ◌∙◌, refl, false, [], ◌∷◌, arith, Bytes, not, some, inl, inr, ◌++◌, Option-cases,
  codes, ap,
}
use mth_apclient.Link.{
  push_event, ApLink, do_disconnect, open_client, Surroundings, do_connect, refuse_connect, flagged,
  set_connected,
}
use mth_apclient.Link.Monitor.{
  Agrees, watched, Monitor, watched-push_event, Holds, track, IsPublished, IsPublished-now,
  fresh_monitor, IsOrdered, is_up, flag_of,
}
use mth_apclient.Ap.Events.{ApEvent, ap_disconnected, ap_connection_refused, ap_connecting}
use mth_apclient.Link.Targets.{is_preferred, TlsMode, is_off, choose_cert, plan_connection}

module _ (m : Monitor) where
  -- A change that pushes nothing, of other fields and of the flag downwards.
  keep-Holds :
      (l k : ApLink)
      → k.events ≡ l.events
      → k.session_seed ≡ l.session_seed
      → k.session_slot ≡ l.session_slot
      → k.last_item_index ≡ l.last_item_index
      → is_up k.accesses ≡ is_up l.accesses
      → IsOrdered k
      → (k.client ≡ none → k.connected ≡ false)
      → Holds m l
      → Holds m k
  unfolding Holds
  keep-Holds l k events seed slot index said ordered attached h = record {
    announced = rw (events, seed, slot) h.announced;
    kept = rw events h.kept;
    seen = rw (events, index) h.seen;
    risen = rw events h.risen;
    said = rw events h.said ∙ sym said;
    ordered = ordered;
    attached = attached;
  }

  -- A change outside the fields that the monitor compares.
  pub same-Holds :
      (l k : ApLink)
      → k.events ≡ l.events
      → k.session_seed ≡ l.session_seed
      → k.session_slot ≡ l.session_slot
      → k.last_item_index ≡ l.last_item_index
      → k.connected ≡ l.connected
      → k.client ≡ l.client
      → k.accesses ≡ l.accesses
      → Holds m l
      → Holds m k
  unfolding Holds
  same-Holds l k events seed slot index flag client accesses h =
      keep-Holds l k events seed slot index (ap is_up accesses) (rw (accesses, flag) h.ordered)
        (λ e. flag ∙ h.attached (sym client ∙ e)) h

  -- The flag is stored as down.
  pub down-Holds :
      (l k : ApLink)
      → k.events ≡ l.events
      → k.session_seed ≡ l.session_seed
      → k.session_slot ≡ l.session_slot
      → k.last_item_index ≡ l.last_item_index
      → k.connected ≡ false
      → k.accesses ≡ flagged false ∷ l.accesses
      → Holds m l
      → Holds m k
  unfolding Holds is_up flag_of IsPublished
  down-Holds l k events seed slot index flag accesses h =
      keep-Holds l k events seed slot index (ap is_up accesses)
        (rw (accesses, flag) ((λ up. absurd (false≢true up), h.ordered.0), refl)) (λ e. flag) h

  -- The flag is down already.
  pub still-Holds :
      (l k : ApLink)
      → k.events ≡ l.events
      → k.session_seed ≡ l.session_seed
      → k.session_slot ≡ l.session_slot
      → k.last_item_index ≡ l.last_item_index
      → k.connected ≡ l.connected
      → l.connected ≡ false
      → k.accesses ≡ l.accesses
      → Holds m l
      → Holds m k
  unfolding Holds
  still-Holds l k events seed slot index flag down accesses h =
      keep-Holds l k events seed slot index (ap is_up accesses) (rw (accesses, flag) h.ordered)
        (λ e. flag ∙ down) h

  push-Holds :
      (ev : ApEvent) (l : ApLink)
      → Agrees (push_event ev l) (track ev (watched m l))
      → Holds m (push_event ev l)
  unfolding Holds
  push-Holds ev l a = subst (Agrees (push_event ev l)) (sym (watched-push_event m ev l)) a

  -- An event that says the connection is down.
  pub tell-Holds :
      (ev : ApEvent) (l : ApLink)
      → ((w : Monitor) → track ev w ≡ record w { up = false })
      → l.connected ≡ false
      → Holds m l
      → Holds m (push_event ev l)
  unfolding Holds push_event is_up flag_of IsPublished
  tell-Holds ev l e flag h = push-Holds ev l (
      subst (Agrees (push_event ev l)) (sym (e (watched m l))) (record {
        announced = h.announced;
        kept = h.kept;
        seen = h.seen;
        risen = h.risen;
        said = sym (ap (λ (w : Monitor). w.up) (e _));
        ordered =
            ((λ up. absurd (false≢true (sym (h.ordered.1 ∙ flag) ∙ up)), h.ordered.0), h.ordered.1);
        attached = λ e. flag;
      }))

  -- An event that the monitor does not read.
  pub mention-Holds :
      (ev : ApEvent) (l : ApLink)
      → ((w : Monitor) → track ev w ≡ w)
      → Holds m l
      → Holds m (push_event ev l)
  unfolding Holds push_event is_up flag_of IsPublished
  mention-Holds ev l e h =
      let same = ap (λ (w : Monitor). w.up) (e (record fresh_monitor { up = is_up l.accesses })) in
      push-Holds ev l (
        subst (Agrees (push_event ev l)) (sym (e (watched m l))) (record {
          announced = h.announced;
          kept = h.kept;
          seen = h.seen;
          risen = h.risen;
          said = h.said ∙ sym same;
          ordered =
              ((λ up. same ∙ IsPublished-now l.accesses h.ordered.0 up, h.ordered.0), h.ordered.1);
          attached = h.attached;
        }))

  pub do_disconnect-Holds : (l : ApLink) → Holds m l → Holds m (do_disconnect l)
  unfolding do_disconnect
  do_disconnect-Holds l h =
      let bare = record l { connect_deadline = none } in
      let gone = record (set_connected false bare) { client = none } in
      let still : Holds m bare = same-Holds l bare refl refl refl refl refl refl refl h in
      let left : Holds m gone = down-Holds bare gone refl refl refl refl refl refl still in
      let told : Holds m (push_event ap_disconnected gone) =
        tell-Holds ap_disconnected gone (λ w. refl) refl left in
      ground (arith, still, left, told)

  pub refuse_connect-Holds :
      (text : Bytes) (l : ApLink)
      → l.connected ≡ false
      → Holds m l
      → Holds m (refuse_connect text l)
  unfolding refuse_connect
  refuse_connect-Holds text l flag h =
      tell-Holds (ap_connection_refused (text ∷ [])) l (λ w. refl) flag h

  pub connected-do_disconnect : (l : ApLink) → Holds m l → (do_disconnect l).connected ≡ false
  unfolding do_disconnect push_event Holds
  connected-do_disconnect l h = ground (arith, h.attached)

  open_client-Holds :
      (w : Surroundings) (slot password : Bytes) (tls : TlsMode) (l : ApLink)
      → l.connected ≡ false
      → Holds m l
      → Holds m (open_client w slot password tls l)
  unfolding open_client
  open_client-Holds w slot password tls l flag h =
      let opened = record l {
        client = some (record { slot = slot; password = password; alternates = is_preferred tls });
        encrypted_attempt = not (is_off tls);
      } in
      let held : Holds m opened = still-Holds l opened refl refl refl refl refl flag refl h in
      same-Holds (push_event ap_connecting opened) _ refl refl refl refl refl refl refl
        (mention-Holds ap_connecting opened (λ v. refl) held)

  fail_connect-Holds :
      (text : Bytes) (l : ApLink)
      → l.connected ≡ false
      → Holds m l
      → Holds m (record (refuse_connect text l) { client = none })
  unfolding refuse_connect push_event
  fail_connect-Holds text l flag h =
      still-Holds (refuse_connect text l) _ refl refl refl refl refl flag refl
        (refuse_connect-Holds text l flag h)

  pub do_connect-Holds :
      (w : Surroundings) (server slot password : Bytes) (l : ApLink)
      → Holds m l
      → Holds m (do_connect w server slot password l)
  unfolding do_connect
  do_connect-Holds w server slot password l h =
      let named = record (do_disconnect l) { slot_name = slot } in
      let flag : named.connected ≡ false = connected-do_disconnect l h in
      let held : Holds m named =
        same-Holds (do_disconnect l) named refl refl refl refl refl refl refl
          (do_disconnect-Holds l h) in
      let target = plan_connection server in
      let choice = choose_cert target.tls w.bundle in
      elim (Option-cases (w.make_client server target.uri choice.cert)) [
        | inl e ↦ ground (
          arith,
          e,
          refuse_connect-Holds (codes "server and slot are required") named flag held,
          refuse_connect-Holds (codes "no CA bundle found for wss (set MTHAP_AP_CERT)") named flag
              held,
          open_client-Holds w slot password target.tls named flag held,
        )
        | inr (what, e) ↦ ground (
          arith,
          e,
          refuse_connect-Holds (codes "server and slot are required") named flag held,
          refuse_connect-Holds (codes "no CA bundle found for wss (set MTHAP_AP_CERT)") named flag
              held,
          fail_connect-Holds (codes "connect failed: " ++ what) named flag held,
        )
      ]
