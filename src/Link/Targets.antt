-- ===== src/Link/Targets.antt =====
-- src/mth/core/ap/connect_target.hpp: how a login target reaches the server.
use mth_apclient.Base.{
  Bool, true, false, ◌||◌, not, [], ◌++◌, if◌then◌else◌, codes, Bytes, starts_with,
}
use mth_apclient.Zip.{is_nil}

pub data TlsMode : Type 0 where
  off preferred pinned : TlsMode

pub record ConnectTarget : Type 0 where
  pub uri : Bytes
  pub tls : TlsMode

unfoldable pub plan_connection : Bytes → ConnectTarget
plan_connection server =
    if starts_with (codes "wss://") server
    then record { uri = server; tls = pinned }
    else if starts_with (codes "ws://") server
    then record { uri = server; tls = off }
    else if starts_with (codes "localhost") server || starts_with (codes "127.0.0.1") server
    then record { uri = codes "ws://" ++ server; tls = off }
    else record { uri = server; tls = preferred }

pub record CertChoice : Type 0 where
  pub cert : Bytes
  pub refuse : Bool
  pub unverified : Bool

abbrev pub is_off : TlsMode → Bool
is_off off = true
is_off _ = false

abbrev pub is_preferred : TlsMode → Bool
is_preferred preferred = true
is_preferred _ = false

abbrev pub is_pinned : TlsMode → Bool
is_pinned pinned = true
is_pinned _ = false

unfoldable pub choose_cert : TlsMode → Bytes → CertChoice
choose_cert tls bundle =
    if is_off tls
    then record { cert = []; refuse = false; unverified = false }
    else if not (is_nil bundle)
    then record { cert = bundle; refuse = false; unverified = false }
    else record { cert = []; refuse = is_pinned tls; unverified = not (is_pinned tls) }
