-- ===== src/Bundle/Committed.antt =====
-- A commit of src/mth/core/save/ap_save_bundle.cpp, and what the next session loads.
use mth_apclient.Base.{
  ℕ, ◌≡◌, true, false, some, [], Bytes, eqb_bytes, suc, ap, refl, Option, none, List, ◌∷◌, ◌++◌,
}
use mth_apclient.Bundle.{
  Json, Snapshot, Store, Disk, Cache, Payload, Layout, Weather, entry_manifest, entry_state,
  entry_save,
}
use mth_apclient.Zip.{Zlib, Entry}
use mth_apclient.Bundle.Sessions.{
  adopt_entries, Loading, adopt_legacy_save, fill, drain, post, adopt_legacy_state, commit, flush,
  adopt_state,
}
use mth_apclient.Bundle.Blobs.{IsCoherent, IsHeld, plain}
use mth_apclient.Bundle.Write.{write_snapshot, last_disk, Written}
use mth_apclient.Bundle.Containers.{ContainerRead, ours}
use mth_apclient.Bundle.Crash.{IsIntact}
use mth_apclient.Bundle.Names.{legacy_state_filename}
use mth_apclient.Bundle.Disks.{under}

-- The snapshot that a commit of a blob queues.
abbrev pub committed : Bytes → Store → Snapshot
committed blob s = record {
  seed = s.cache.seed;
  slot = s.cache.slot;
  game_save = some (record { address = s.next_address; bytes = blob });
  ap_state = s.cache.ap_state;
}

-- The store has a run loaded, and nothing queued; its payloads are those at their addresses, and
-- the next address is free for a blob.
pub record IsReady (z : Zlib) (j : Json) (l : Layout) (heap : ℕ → Bytes) (blob : Bytes) (s : Store)
    : Type 0 where
  pub loaded : s.cache.loaded ≡ true
  pub own : s.cache.foreign ≡ false
  pub settled : s.queue ≡ []
  pub coherent : IsCoherent z heap s.writer
  pub state_held : IsHeld heap s.cache.ap_state
  pub free : heap s.next_address ≡ blob
  pub intact : IsIntact z j l s.cache.seed s.cache.slot s.disk

-- The fall back for the state, by what is there.
abbrev legacy_answer : Layout → Disk → Option Payload → Option Bytes → Loading → Loading
legacy_answer l disk held name (c, next) = elim held [
  | some p ↦ (c, next)
  | none ↦ elim name [
    | none ↦ (c, next)
    | some n ↦ elim (disk (under l.state_dir n)) [
      | none ↦ (c, next)
      | some text ↦ adopt_state text (c, next)
    ]
  ]
]

legacy_found-save :
    (found : Option Bytes) (c : Cache) (next : ℕ) (loading : Loading)
    → loading
      ≡ (elim found as (λ _. Loading) [ none ↦ (c, next) | some text ↦ adopt_state text (c, next) ])
    → loading.0.game_save ≡ c.game_save
legacy_found-save none c next loading e = ap (λ (r : Loading). (r.0).game_save) e
legacy_found-save (some text) c next loading e = ap (λ (r : Loading). (r.0).game_save) e

legacy_answer-save :
    (l : Layout) (disk : Disk) (held : Option Payload) (name : Option Bytes) (c : Cache) (next : ℕ)
    → (legacy_answer l disk held name (c, next)).0.game_save ≡ c.game_save
legacy_answer-save l disk (some p) name c next = refl
legacy_answer-save l disk none none c next = refl
legacy_answer-save l disk none (some n) c next =
    legacy_found-save (disk (under l.state_dir n)) c next
      (legacy_answer l disk none (some n) (c, next)) refl

module _ (l : Layout) (disk : Disk) where
  adopt_legacy_state-save :
      (c : Cache) (next : ℕ) → (adopt_legacy_state l disk (c, next)).0.game_save ≡ c.game_save
  unfolding adopt_legacy_state
  adopt_legacy_state-save c next =
      legacy_answer-save l disk c.ap_state (legacy_state_filename c.seed c.slot) c next

  module _ (text blob : Bytes) (c : Cache) (next : ℕ) where
    abbrev saved : Payload
    saved = record { address = next; bytes = blob }

    abbrev held_files : Option Payload → List Entry
    held_files state =
        record { name = entry_manifest; content = text }
        ∷ record { name = entry_save; content = blob }
        ∷ plain entry_state state

    abbrev pub own_read : Option Payload → ContainerRead
    own_read state = record { verdict = ours; entries = held_files state }

    pub fill-save :
        (state : Option Payload) → (fill l disk (own_read state) (c, next)).0.game_save ≡ some saved
    unfolding fill adopt_entries adopt_legacy_save eqb_bytes
    fill-save none = adopt_legacy_state-save (record c { game_save = some saved }) (suc next)
    fill-save (some p) =
        adopt_legacy_state-save
          (record c {
            game_save = some saved;
            ap_state = some (record { address = suc next; bytes = p.bytes });
          })
          (suc (suc next))

    pub fill-state :
        (p : Payload)
        → (fill l disk (own_read (some p)) (c, next)).0.ap_state
          ≡ some (record { address = suc next; bytes = p.bytes })
    unfolding fill adopt_entries adopt_legacy_save adopt_legacy_state eqb_bytes
    fill-state p = refl

module _ (z : Zlib) (j : Json) (l : Layout) where
  abbrev pub written_by : (ℕ → Weather) → Bytes → Store → Written
  written_by weather blob s = write_snapshot z j l (weather 0) s.disk s.writer (committed blob s)

  pub commit_result :
      (weather : ℕ → Weather) (blob : Bytes) (s : Store)
      → s.queue ≡ []
      → ((commit z j l weather blob s).0 ≡ (written_by weather blob s).ok)
        × ((commit z j l weather blob s).1.disk
            ≡ last_disk s.disk ((written_by weather blob s).disks))
  unfolding commit post flush drain write_snapshot
  commit_result weather blob s e =
      let one = written_by weather blob s in
      (
        ap (λ q. (drain z j l weather (q ++ committed blob s ∷ []) (queued q)).last_write_ok) e,
        ap (λ q. (drain z j l weather (q ++ committed blob s ∷ []) (queued q)).disk) e,
      )
    where
      queued : List Snapshot → Store
      queued q = record s {
        cache = record (s.cache) {
          game_save = some (record { address = s.next_address; bytes = blob });
        };
        state_staged = false;
        next_address = suc s.next_address;
        queue = q ++ committed blob s ∷ [];
      }
