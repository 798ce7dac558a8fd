-- ===== src/Broadcast.antt =====
-- src/mth/core/broadcast.cpp: which messages of the room become banners, and their colors. The
-- banners' timing reads a floating-point clock and is left out.
use mth_apclient.Base.{
  ℕ, ◌+◌, ◌*◌, ◌^◌, Bool, true, false, ◌&&◌, ◌||◌, not, Option, none, some, [], ◌++◌, ◌==◌,
  if◌then◌else◌, ℤ, eqb_ℤ, codes, Bytes, eqb_bytes,
}
use mth_apclient.Zip.{is_nil}
use Prim.Native.Nat.{bit_and}

unfoldable pub pack_rgba : ℕ → ℕ → ℕ → ℕ
pack_rgba r g b = r + g * 2 ^ 8 + b * 2 ^ 16 + 0xFF * 2 ^ 24

unfoldable pub name_to_rgba : Bytes → ℕ
unfolding pack_rgba
name_to_rgba name =
    if eqb_bytes name (codes "red")
    then pack_rgba 255 90 90
    else if eqb_bytes name (codes "green")
    then pack_rgba 90 220 90
    else if eqb_bytes name (codes "yellow")
    then pack_rgba 240 230 90
    else if eqb_bytes name (codes "blue")
    then pack_rgba 110 150 255
    else if eqb_bytes name (codes "magenta")
    then pack_rgba 245 110 245
    else if eqb_bytes name (codes "cyan")
    then pack_rgba 90 220 230
    else if eqb_bytes name (codes "plum")
    then pack_rgba 240 175 245
    else if eqb_bytes name (codes "slateblue")
    then pack_rgba 125 130 235
    else if eqb_bytes name (codes "salmon")
    then pack_rgba 250 150 140
    else if eqb_bytes name (codes "gray") || eqb_bytes name (codes "grey")
    then pack_rgba 170 170 170
    else pack_rgba 255 255 255

unfoldable pub broadcast_is_announcement : Bytes → Bool
broadcast_is_announcement print_type =
    eqb_bytes print_type (codes "ServerChat")
    || eqb_bytes print_type (codes "Chat")
    || eqb_bytes print_type (codes "Countdown")
    || eqb_bytes print_type (codes "CommandResult")
    || eqb_bytes print_type (codes "AdminCommandResult")
    || eqb_bytes print_type (codes "Tutorial")

-- An optional number that is there and is `n`.
abbrev pub is_ours : Option ℤ → ℤ → Bool
is_ours none n = false
is_ours (some m) n = eqb_ℤ m n

abbrev pub team_matches : Option ℤ → ℤ → Bool
team_matches none our_team = true
team_matches (some team) our_team = eqb_ℤ team our_team

unfoldable pub broadcast_relevant : Bytes → ℤ → ℤ → Option ℤ → Option ℤ → Option ℤ → Option ℤ → Bool
unfolding broadcast_is_announcement
broadcast_relevant print_type our_team our_slot team slot receiving item_player =
    let slot_ok =
      broadcast_is_announcement print_type
      || is_ours slot our_slot
      || is_ours receiving our_slot
      || is_ours item_player our_slot in
    team_matches team our_team && slot_ok

item_color : ℕ → ℕ
unfolding name_to_rgba
item_color flags =
    if not (bit_and flags 1 == 0)
    then name_to_rgba (codes "plum")
    else if not (bit_and flags 2 == 0)
    then name_to_rgba (codes "slateblue")
    else if not (bit_and flags 4 == 0)
    then name_to_rgba (codes "salmon")
    else name_to_rgba (codes "cyan")

-- The switch on the hint's status.
hint_color : ℕ → ℕ
unfolding name_to_rgba
hint_color status =
    if status == 40
    then name_to_rgba (codes "green")
    else if status == 10
    then name_to_rgba (codes "slateblue")
    else if status == 20
    then name_to_rgba (codes "salmon")
    else if status == 30
    then name_to_rgba (codes "plum")
    else if status == 0
    then name_to_rgba (codes "grey")
    else name_to_rgba (codes "red")

unfoldable pub banner_color : Bytes → Bytes → ℕ → ℕ → Bool → ℕ
unfolding name_to_rgba item_color hint_color
banner_color type explicit_color item_flags hint_status is_self =
    if not (is_nil explicit_color)
    then name_to_rgba explicit_color
    else if eqb_bytes type (codes "player_id")
    then name_to_rgba (if is_self then codes "magenta" else codes "yellow")
    else if eqb_bytes type (codes "item_id")
    then item_color item_flags
    else if eqb_bytes type (codes "location_id")
    then name_to_rgba (codes "blue")
    else if eqb_bytes type (codes "hint_status")
    then hint_color hint_status
    else name_to_rgba []

unfoldable pub deathlink_banner_text : Bytes → Bytes → Bytes
deathlink_banner_text source cause =
    if not (is_nil cause)
    then cause
    else if not (is_nil source)
    then codes "Killed by " ++ source
    else codes "Killed by a deathlink"
