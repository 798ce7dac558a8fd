-- ===== src/Link/Deaths.antt =====
-- src/mth/net/deathlink.cpp: the sentence of an outbound death, and what an inbound one holds.
use mth_apclient.Base.{Option, none, some, [], ◌++◌, if◌then◌else◌, codes, Bytes}
use mth_apclient.Zip.{is_nil}
use mth_apclient.SlotData.Library.{JsonLibrary}

unfoldable pub deathlink_cause : Bytes → Bytes → Bytes
deathlink_cause slot_name detail =
    if is_nil slot_name then detail else slot_name ++ (codes " " ++ detail)

pub record DeathLinkBounce : Type 0 where
  pub source : Bytes
  pub cause : Bytes

module _ (lib : JsonLibrary) where
  open lib use {Json, is_object, parse, find, string}

  -- The text at a key, or the initializer.
  text_at : Json → Bytes → Bytes
  text_at json key = elim (find json key) [
    | none ↦ []
    | some v ↦ elim (string v) [ none ↦ [] | some text ↦ text ]
  ]

  unfoldable pub parse_deathlink_payload : Bytes → Option DeathLinkBounce
  unfolding text_at
  parse_deathlink_payload json_text = elim (parse json_text) [
    | none ↦ none
    | some json ↦
        if is_object json
        then some (record {
          source = text_at json (codes "source");
          cause = text_at json (codes "cause");
        })
        else none
  ]
