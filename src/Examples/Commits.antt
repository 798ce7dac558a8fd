-- ===== src/Examples/Commits.antt =====
-- Runs of src/mth/core/save/ap_save_bundle.cpp on a small disk, with a JSON library that prints a
-- document as the length of its seed, the seed and the slot.
use mathlib.Core.Path.{subst}
use mathlib.Core.Option.{some-injective}
use mth_apclient.Base.{
  ℕ, ◌≡◌, ◌∙◌, ap, sym, inl, refl, true, false, Option, none, some, [], ◌∷◌, ◌++◌, arith,
  if◌then◌else◌, length, take, drop, codes, Bytes, ◌==◌,
}
use mth_apclient.Bundle.{
  Layout, Store, format_version, new_writer, Payload, Disk, Weather, Json, Manifest,
}
use mth_apclient.Zip.{parts_safe, le32, compress, name_is_safe, has_byte, le16, deflate_raw}
use mth_apclient.Zip.Entries.{take-append, drop-append}
use mth_apclient.Zip.Write.{
  write_locals, end_record, central_record, write, local_record, write_centrals,
}
use mth_apclient.Bundle.Sessions.{load, load_state, store}
use mth_apclient.Bundle.Names.{looks_like_save_blob, contains}
use mth_apclient.Bundle.Atomic.{HasRoom, write_snapshot-IsAtomic, IsAtomic}
use mth_apclient.Bundle.Calls.{new_store}
use mth_apclient.Bundle.Calm.{IsCalm, calm-IsHonest, store_calm}
use mth_apclient.Bundle.Reload.{store-load}
use mth_apclient.Bundle.Write.{write_snapshot}
use mth_apclient.Bundle.Crash.{IsHolding, IsJson}
use mth_apclient.Bundle.Committed.{committed, IsReady}
use mth_apclient.Examples.Archive.{tiny, tiny-IsZlib}

abbrev tiny_parse : Bytes → Option Manifest
tiny_parse [] = none
tiny_parse (n ∷ rest) =
    some (record {
      format = some format_version;
      seed = some (take n rest);
      slot = some (drop n rest);
    })

abbrev pub tiny_json : Json
tiny_json = record {
  dump = λ format seed slot. some (length seed ∷ (seed ++ slot));
  parse = tiny_parse;
}

drop_all : (seed slot : Bytes) → drop (length seed) (seed ++ slot) ≡ slot
drop_all seed slot = ap (λ k. drop k (seed ++ slot)) (omega arith) ∙ drop-append seed slot 0

pub tiny-IsJson : IsJson tiny_json
tiny-IsJson seed slot text e =
    ap tiny_parse (sym (some-injective (length seed ∷ (seed ++ slot)) text e))
    ∙ rw (take-append seed slot, drop_all seed slot) refl

abbrev pub layout : Layout
layout = record { dir = codes "d"; state_dir = codes "s"; ycsave_dir = codes "y" }

abbrev pub calm : Weather
calm = record {
  create_fails = false;
  open_fails = false;
  partial = [];
  landed = λ image. image;
  close_fails = false;
  size_fails = false;
  exists_fails = false;
  rotate_fails = false;
  replace_fails = false;
  remove_fails = false;
}

calm-IsCalm : IsCalm calm
calm-IsCalm = record {
  creates = refl;
  opens = refl;
  closes = refl;
  measures = refl;
  replaces = refl;
  lands = λ image. refl;
}

abbrev pub seed : Bytes
seed = codes "AB"

abbrev pub slot : Bytes
slot = codes "1"

abbrev pub blob : Bytes
blob = codes "[YCD Version: 1]SaveSlot"

abbrev staged : Payload
staged = record { address = 1; bytes = codes "7" }

abbrev heap : ℕ → Bytes
heap address = if address == 1 then codes "7" else blob

abbrev no_disk : Disk
no_disk path = none

abbrev pub playing : Store
playing = record (new_store no_disk) {
  cache = record {
    loaded = true;
    seed = seed;
    slot = slot;
    game_save = none;
    ap_state = some staged;
    foreign = false;
  };
  next_address = 2;
}

playing-IsReady : IsReady tiny tiny_json layout heap blob playing
playing-IsReady = record {
  loaded = refl;
  own = refl;
  settled = refl;
  coherent = tt;
  state_held = refl;
  free = refl;
  intact = inl refl;
}

abbrev pub text : Bytes
text = 2 ∷ codes "AB1"

fits : looks_like_save_blob blob ≡ true
unfolding looks_like_save_blob contains
fits = refl

pub small_IsHolding : IsHolding tiny tiny_json tiny-IsZlib tiny-IsJson (committed blob playing) text
unfolding name_is_safe parts_safe has_byte write write_locals write_centrals local_record
    central_record end_record compress deflate_raw le16 le32
small_IsHolding = (
  (
    record { safe = refl; size = omega arith },
    (record { safe = refl; size = omega arith }, (record { safe = refl; size = omega arith }, tt)),
  ),
  omega arith,
  omega arith,
)

small_room : HasRoom tiny tiny_json layout tiny-IsZlib tiny-IsJson (committed blob playing)
small_room t e =
    subst (IsHolding tiny tiny_json tiny-IsZlib tiny-IsJson (committed blob playing))
      (some-injective text t e) small_IsHolding

write_snapshot-IsAtomic_example :
    IsAtomic tiny tiny_json layout tiny-IsZlib tiny-IsJson no_disk
      (committed blob playing)
      (write_snapshot tiny tiny_json layout calm no_disk new_writer (committed blob playing))
write_snapshot-IsAtomic_example =
    write_snapshot-IsAtomic tiny tiny_json layout tiny-IsZlib tiny-IsJson heap calm no_disk
      new_writer (committed blob playing) (calm-IsHonest calm calm-IsCalm) (inl refl) tt refl refl
      small_room

answered : (store tiny tiny_json layout (λ i. calm) seed slot blob playing).0 ≡ true
answered =
    store_calm tiny tiny_json layout heap (λ i. calm) blob text playing playing-IsReady calm-IsCalm
      fits refl

store_calm_example : (store tiny tiny_json layout (λ i. calm) seed slot blob playing).0 ≡ true
store_calm_example =
    store_calm tiny tiny_json layout heap (λ i. calm) blob text playing playing-IsReady calm-IsCalm
      fits refl

store-load_example :
    ((load tiny tiny_json layout
        (λ i. calm)
        seed
        slot
        (new_store ((store tiny tiny_json layout (λ i. calm) seed slot blob playing).1.disk))).0
      ≡ some blob)
    × ((load_state tiny tiny_json layout
          (λ i. calm)
          seed
          slot
          (new_store ((store tiny tiny_json layout (λ i. calm) seed slot blob playing).1.disk))).0
        ≡ some (codes "7"))
store-load_example =
    store-load tiny tiny_json layout tiny-IsZlib tiny-IsJson heap (λ i. calm) (λ i. calm) blob
      staged playing playing-IsReady (calm-IsHonest calm calm-IsCalm) small_room fits refl answered
