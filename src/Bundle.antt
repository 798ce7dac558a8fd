-- ===== src/Bundle.antt =====
-- src/mth/core/save/ap_save_bundle.hpp and ap_save_bundle.cpp: the container of a run's game save
-- and item state. The disk is a map from paths to the bytes of a file; what the system calls of a
-- write do is the parameter `Weather`, and the JSON library the parameter `Json`. A shared payload is
-- its address and its bytes, and an address is given out once.
pub mod Names
pub mod Disks
pub mod Write
pub mod Containers
pub mod Sessions
pub mod Places
pub mod Stages
pub mod Blobs
pub mod Crash
pub mod Atomic
pub mod Forgets
pub mod Calls
pub mod Refused
pub mod Committed
pub mod Reload
pub mod Calm
use mth_apclient.Base.{List, ℕ, Bool, false, Option, none, [], ℤ, pos, codes, Bytes}
use mth_apclient.Zip.{Blob}

abbrev pub Disk : Type 0
Disk = Bytes → Option Bytes

-- Where the files stand: of the container, and of the layout before it.
pub record Layout : Type 0 where
  pub dir : Bytes
  pub state_dir : Bytes
  pub ycsave_dir : Bytes

-- What a look at the manifest's three members gives: `none` where `value` throws.
pub record Manifest : Type 0 where
  pub format : Option ℤ
  pub seed : Option Bytes
  pub slot : Option Bytes

-- `dump` of the manifest's document, which throws on a text that is not UTF-8, and the parse, which
-- gives `none` for a text that is no JSON object.
pub record Json : Type 0 where
  pub dump : ℤ → Bytes → Bytes → Option Bytes
  pub parse : Bytes → Option Manifest

-- What the calls of one write do: those that fail, and the bytes that the stream left in the file.
pub record Weather : Type 0 where
  pub create_fails : Bool
  pub open_fails : Bool
  -- What the file holds while it is written.
  pub partial : Bytes
  pub landed : Bytes → Bytes
  pub close_fails : Bool
  pub size_fails : Bool
  pub exists_fails : Bool
  pub rotate_fails : Bool
  pub replace_fails : Bool
  pub remove_fails : Bool

pub record Payload : Type 0 where
  pub address : ℕ
  pub bytes : Bytes

pub record Snapshot : Type 0 where
  pub seed : Bytes
  pub slot : Bytes
  pub game_save : Option Payload
  pub ap_state : Option Payload

pub record Cache : Type 0 where
  pub loaded : Bool
  pub seed : Bytes
  pub slot : Bytes
  pub game_save : Option Payload
  pub ap_state : Option Payload
  pub foreign : Bool

pub record CachedBlob : Type 0 where
  pub source : Payload
  pub blob : Blob

-- The writer thread's own state; the map of blobs by name is a list, of which the first entry counts.
pub record Writer : Type 0 where
  pub writer_key : Bytes
  pub writer_blobs : List (Bytes × CachedBlob)
  pub writer_backed_up : Bool
  pub dir_ready : Bool

pub record Store : Type 0 where
  pub state_staged : Bool
  pub cache : Cache
  pub queue : List Snapshot
  pub last_write_ok : Bool
  pub writer : Writer
  pub disk : Disk
  -- The next address that `make_shared` gives out.
  pub next_address : ℕ

abbrev pub empty_cache : Cache
empty_cache = record {
  loaded = false;
  seed = [];
  slot = [];
  game_save = none;
  ap_state = none;
  foreign = false;
}

abbrev pub new_writer : Writer
new_writer = record {
  writer_key = [];
  writer_blobs = [];
  writer_backed_up = false;
  dir_ready = false;
}

abbrev pub entry_save : Bytes
entry_save = codes "save.ycsave"

abbrev pub entry_state : Bytes
entry_state = codes "ap.state"

abbrev pub entry_manifest : Bytes
entry_manifest = codes "manifest.json"

abbrev pub format_version : ℤ
format_version = pos 1
