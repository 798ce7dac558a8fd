-- ===== src/Link/Monitor.antt =====
-- What an observer of the event stream of src/mth/net/ap_link_apclient.cpp tracks, and that the
-- object's own fields agree with it after any steps.
use mathlib.Core.Bool.{false≢true}
use mth_apclient.Base.{
  ◌≡◌, refl, Bool, true, false, ◌&&◌, Option, none, some, List, [], ◌∷◌, ◌++◌, ℤ, negsuc, ltb_ℤ,
  eqb_ℤ, Bytes, eqb_bytes,
}
use mth_apclient.Link.{ApLink, push_event, pushed, Access, flagged}
use mth_apclient.Ap.Events.{
  ap_connection_refused, ApConnected, ap_session_ended, ap_item_received, ap_disconnected,
  ap_connected, ApEvent,
}

-- Of the events so far: the (seed, slot) announced since the last marker, whether each connect
-- matched the one announced before it, the highest item index since the marker, whether the
-- indices rose, and whether the last word on the connection was that it is up.
pub record Monitor : Type 0 where
  pub identity : Option (Bytes × ℤ)
  pub constant : Bool
  pub cursor : ℤ
  pub rising : Bool
  pub up : Bool

-- The first connect behind a marker announces the room; a later one must name the same.
abbrev pub matches : Option (Bytes × ℤ) → ApConnected → Bool
matches none e = true
matches (some (seed, slot)) e = eqb_bytes e.seed seed && eqb_ℤ e.player_slot slot

abbrev pub track : ApEvent → Monitor → Monitor
track (ap_connected e) m = record m {
  identity = some (e.seed, e.player_slot);
  constant = m.constant && matches m.identity e;
  up = true;
}
track ap_session_ended m = record m { identity = none; cursor = negsuc 0 }
track (ap_item_received it) m = record m {
  cursor = it.index;
  rising = m.rising && ltb_ℤ m.cursor it.index;
}
track ap_disconnected m = record m { up = false }
track (ap_connection_refused errors) m = record m { up = false }
track _ m = m

unfoldable pub track_all : List ApEvent → Monitor → Monitor
track_all [] m = m
track_all (ev ∷ events) m = track_all events (track ev m)

-- A stream begins with no room and no item seen.
abbrev pub fresh_monitor : Monitor
fresh_monitor = record {
  identity = some ([], negsuc 0);
  constant = true;
  cursor = negsuc 0;
  rising = true;
  up = false;
}

pub track_all-append :
    (xs ys : List ApEvent) (m : Monitor) → track_all (xs ++ ys) m ≡ track_all ys (track_all xs m)
unfolding track_all
track_all-append [] ys m = refl
track_all-append (x ∷ xs) ys m = track_all-append xs ys (track x m)

-- Of the accesses, newest first: the flag as it stands behind them, and whether the last word on
-- the connection in the events pushed is that it is up.
unfoldable pub flag_of : List Access → Bool
flag_of [] = false
flag_of (flagged up ∷ past) = up
flag_of (pushed ev ∷ past) = flag_of past

unfoldable pub is_up : List Access → Bool
is_up [] = false
is_up (flagged up ∷ past) = is_up past
is_up (pushed ev ∷ past) = (track ev (record fresh_monitor { up = is_up past })).up

-- At each moment between two accesses, the flag stands only if the last word is that the connection
-- is up.
unfoldable pub IsPublished : List Access → Type 0
unfolding flag_of is_up
IsPublished [] = Unit
IsPublished (a ∷ past) = (flag_of (a ∷ past) ≡ true → is_up (a ∷ past) ≡ true) × IsPublished past

pub IsPublished-now :
    (past : List Access) → IsPublished past → flag_of past ≡ true → is_up past ≡ true
unfolding IsPublished flag_of
IsPublished-now [] h e = absurd (false≢true e)
IsPublished-now (a ∷ past) h e = h.0 e

-- The object's flag is the one that its accesses tell.
abbrev pub IsOrdered : ApLink → Type 0
IsOrdered l = IsPublished l.accesses × (flag_of l.accesses ≡ l.connected)

-- The object agrees with the monitor of its stream.
pub record Agrees (l : ApLink) (m : Monitor) : Type 0 where
  pub announced : m.identity ≡ some (l.session_seed, l.session_slot)
  pub kept : m.constant ≡ true
  pub seen : m.cursor ≡ l.last_item_index
  pub risen : m.rising ≡ true
  pub said : m.up ≡ is_up l.accesses
  pub ordered : IsOrdered l
  pub attached : l.client ≡ none → l.connected ≡ false

-- The monitor behind what was drained and what is queued.
abbrev pub watched : Monitor → ApLink → Monitor
watched m l = track_all l.events m

-- An event that is pushed is the last one that the monitor sees.
pub watched-push_event :
    (m : Monitor) (ev : ApEvent) (l : ApLink) → watched m (push_event ev l) ≡ track ev (watched m l)
unfolding push_event track_all
watched-push_event m ev l = track_all-append l.events (ev ∷ []) m

unfoldable pub Holds : Monitor → ApLink → Type 0
Holds m l = Agrees l (watched m l)
