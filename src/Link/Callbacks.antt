-- ===== src/Link/Callbacks.antt =====
-- The callbacks of the client that src/mth/net/ap_link_apclient.cpp hands to apclientpp, with what
-- each carries.
use mth_apclient.Base.{ℕ, Option, List, ℤ, codes, Bytes}
use mth_apclient.Link.{ApLink}
use mth_apclient.SlotData.Library.{JsonLibrary}

-- `APClient::NetworkItem`.
pub record NetworkItem : Type 0 where
  pub item : ℤ
  pub location : ℤ
  pub player : ℤ
  pub flags : ℕ
  pub index : ℤ

-- What the client knows of the room once the slot is authenticated.
pub record Room : Type 0 where
  pub seed : Bytes
  pub player_number : ℤ
  pub checked : List ℤ
  pub missing : List ℤ

-- The names that the client resolves.
pub record Names : Type 0 where
  pub our_team : ℤ
  pub our_slot : ℤ
  pub get_player_game : ℤ → Bytes
  pub get_player_alias : ℤ → Bytes
  pub get_item_name : ℤ → Bytes → Bytes

-- A node of a message, with its text as the client renders it, and `std::stoi` of its own text
-- where that does not throw.
pub record Node : Type 0 where
  pub type_name : Bytes
  pub color : Bytes
  pub flags : ℕ
  pub hint_status : ℕ
  pub rendered : Bytes
  pub own_number : Option ℤ

pub record PrintArgs : Type 0 where
  pub type_name : Bytes
  pub team : Option ℤ
  pub slot : Option ℤ
  pub receiving : Option ℤ
  pub item_player : Option ℤ
  pub nodes : List Node

abbrev pub death_tag : Bytes
death_tag = codes "DeathLink"

module _ (lib : JsonLibrary) where
  open lib use {Json}

  pub data Callback : Type 0 where
    socket_error socket_disconnected room_info : Callback
    slot_connected : Json → Room → Callback
    slot_refused : List Bytes → Callback
    items_received : List NetworkItem → Callback
    location_checked : List ℤ → Callback
    location_info : Names → List NetworkItem → Callback
    bounced : Json → Callback
    print_json : Names → PrintArgs → Callback

-- A callback returns, or leaves the object as it stands by a throw.
pub data Outcome : Type 0 where
  returned : ApLink → Outcome
  threw : Bytes → ApLink → Outcome
