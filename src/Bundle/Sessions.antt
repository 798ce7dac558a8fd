-- ===== src/Bundle/Sessions.antt =====
-- The operations of `ApSaveBundleStore`, src/mth/core/save/ap_save_bundle.cpp.
use mth_apclient.Base.{
  List, ℕ, suc, Bool, true, false, ◌&&◌, not, Option, none, some, [], ◌∷◌, ◌++◌, if◌then◌else◌,
  Bytes, eqb_bytes,
}
use mth_apclient.Bundle.{
  Weather, Snapshot, Payload, Cache, entry_save, empty_cache, Json, Layout, entry_state, Disk,
  Store,
}
use mth_apclient.Zip.{Zlib, Entry}
use mth_apclient.Bundle.Names.{ap_save_filename, legacy_state_filename, looks_like_save_blob}
use mth_apclient.Bundle.Write.{write_snapshot, last_disk}
use mth_apclient.Bundle.Containers.{ContainerRead, read_generation, absent, foreign, ours}
use mth_apclient.Bundle.Disks.{under}

-- `make_shared`: a payload at an address that was not given out before.
abbrev pub make_shared : Bytes → ℕ → Payload × ℕ
make_shared bytes next = (record { address = next; bytes = bytes }, suc next)

-- The cache with the next address.
abbrev pub Loading : Type 0
Loading = Cache × ℕ

abbrev pub adopt_save : Bytes → Loading → Loading
adopt_save bytes (c, next) =
    let (p, after) = make_shared bytes next in (record c { game_save = some p }, after)

abbrev pub adopt_state : Bytes → Loading → Loading
adopt_state bytes (c, next) =
    let (p, after) = make_shared bytes next in (record c { ap_state = some p }, after)

-- The loop over the container's entries.
unfoldable pub adopt_entries : List Entry → Loading → Loading
unfolding eqb_bytes
adopt_entries [] loading = loading
adopt_entries (e ∷ es) loading =
    let one =
      if eqb_bytes e.name entry_save
      then adopt_save e.content loading
      else if eqb_bytes e.name entry_state
      then adopt_state e.content loading
      else loading in
    adopt_entries es one

module _ (l : Layout) where
  -- The payloads that the container did not have, from the layout before it.
  unfoldable pub adopt_legacy_save : Disk → Loading → Loading
  unfolding ap_save_filename looks_like_save_blob
  adopt_legacy_save disk (c, next) = elim c.game_save [
    | some p ↦ (c, next)
    | none ↦ elim (disk (under l.ycsave_dir (ap_save_filename c.seed c.slot))) [
      | none ↦ (c, next)
      | some blob ↦ if looks_like_save_blob blob then adopt_save blob (c, next) else (c, next)
    ]
  ]

  unfoldable pub adopt_legacy_state : Disk → Loading → Loading
  unfolding legacy_state_filename
  adopt_legacy_state disk (c, next) = elim c.ap_state [
    | some p ↦ (c, next)
    | none ↦ elim (legacy_state_filename c.seed c.slot) [
      | none ↦ (c, next)
      | some name ↦ elim (disk (under l.state_dir name)) [
        | none ↦ (c, next)
        | some text ↦ adopt_state text (c, next)
      ]
    ]
  ]

  -- What a load makes of the verdict.
  unfoldable pub fill : Disk → ContainerRead → Loading → Loading
  unfolding adopt_entries adopt_legacy_save adopt_legacy_state
  fill disk got (c, next) =
      let legacy =
        λ (loading : Loading). adopt_legacy_state disk (adopt_legacy_save disk loading) in
      elim got.verdict [
        | foreign ↦ (record c { foreign = true }, next)
        | ours ↦ legacy (adopt_entries got.entries (c, next))
        | absent ↦ legacy (c, next)
      ]

-- A round of the writer's loop: the front of the queue is written.
module _ (z : Zlib) (j : Json) (l : Layout) where
  abbrev pub write_front : Weather → Snapshot → Store → Store
  unfolding write_snapshot
  write_front weather snap s =
      let written = write_snapshot z j l weather s.disk s.writer snap in
      record s {
        writer = written.writer;
        last_write_ok = written.ok;
        disk = last_disk s.disk written.disks;
      }

  -- The rounds that `flush` waits for; the weather of each is told by its place.
  unfoldable pub drain : (ℕ → Weather) → List Snapshot → Store → Store
  drain weather [] s = record s { queue = [] }
  drain weather (snap ∷ snaps) s =
      drain (λ i. weather (suc i)) snaps (write_front (weather 0) snap s)

  unfoldable pub flush : (ℕ → Weather) → Store → Bool × Store
  unfolding drain
  flush weather s = let drained = drain weather s.queue s in (drained.last_write_ok, drained)

  unfoldable pub ensure_loaded : (ℕ → Weather) → Bytes → Bytes → Store → Store
  unfolding eqb_bytes flush fill read_generation
  ensure_loaded weather seed slot s =
      let settled = if s.cache.loaded then (flush weather s).1 else s in
      let fresh = record empty_cache { loaded = true; seed = seed; slot = slot } in
      let (cache, next) =
        fill l settled.disk (read_generation z j l settled.disk seed slot)
          (fresh, settled.next_address) in
      if s.cache.loaded && (eqb_bytes s.cache.seed seed && eqb_bytes s.cache.slot slot)
      then s
      else record settled { state_staged = false; cache = cache; next_address = next }

  unfoldable pub post : Store → Store
  post s =
      let snap : Snapshot = record {
        seed = s.cache.seed;
        slot = s.cache.slot;
        game_save = s.cache.game_save;
        ap_state = s.cache.ap_state;
      } in
      record s { queue = s.queue ++ snap ∷ [] }

  unfoldable pub load : (ℕ → Weather) → Bytes → Bytes → Store → Option Bytes × Store
  unfolding ensure_loaded looks_like_save_blob
  load weather seed slot s =
      let loaded = ensure_loaded weather seed slot s in
      elim loaded.cache.game_save [
        | none ↦ (none, loaded)
        | some p ↦
            if not (looks_like_save_blob p.bytes) then (none, loaded) else (some p.bytes, loaded)
      ]

  unfoldable pub load_state : (ℕ → Weather) → Bytes → Bytes → Store → Option Bytes × Store
  unfolding ensure_loaded
  load_state weather seed slot s =
      let loaded = ensure_loaded weather seed slot s in
      elim loaded.cache.ap_state [ none ↦ (none, loaded) | some p ↦ (some p.bytes, loaded) ]

  -- The commit, behind the load: the payload, the queue, and the wait for the writer.
  unfoldable pub commit : (ℕ → Weather) → Bytes → Store → Bool × Store
  unfolding post flush
  commit weather blob s =
      let (p, next) = make_shared blob s.next_address in
      flush weather (
        post (record s {
          cache = record (s.cache) { game_save = some p };
          state_staged = false;
          next_address = next;
        }))

  unfoldable pub store : (ℕ → Weather) → Bytes → Bytes → Bytes → Store → Bool × Store
  unfolding ensure_loaded looks_like_save_blob commit
  store weather seed slot blob s =
      let loaded = ensure_loaded weather seed slot s in
      if not (looks_like_save_blob blob)
      then (false, s)
      else if loaded.cache.foreign
      then (false, loaded)
      else commit weather blob loaded

  unfoldable pub stage_state : (ℕ → Weather) → Bytes → Bytes → Bytes → Store → Bool × Store
  unfolding ensure_loaded
  stage_state weather seed slot text s =
      let loaded = ensure_loaded weather seed slot s in
      let (p, next) = make_shared text loaded.next_address in
      if loaded.cache.foreign then (false, loaded) else (
        true,
        record loaded {
          cache = record (loaded.cache) { ap_state = some p };
          state_staged = true;
          next_address = next;
        },
      )
