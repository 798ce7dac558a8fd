-- ===== src/Bundle/Refused.antt =====
-- A container of another run at the path of this one, through the operations of
-- src/mth/core/save/ap_save_bundle.cpp.
use mathlib.Core.Path.{subst}
use mth_apclient.Base.{
  List, ℕ, ◌≡◌, Bool, true, false, [], ◌∷◌, Bytes, refl, ◌&&◌, ◌⊎◌, inl, inr, eqb_bytes,
  eqb_bytes_refl, sym, ◌∙◌, ap,
}
use mth_apclient.Bundle.{Store, Layout, Weather, empty_cache, Disk, Json, Cache}
use mth_apclient.Zip.{Zlib}
use mth_apclient.Bundle.Sessions.{
  ensure_loaded, load, stage_state, store, load_state, commit, adopt_entries, adopt_legacy_save,
  Loading, fill, adopt_legacy_state,
}
use mth_apclient.Bundle.Containers.{
  foreign, read_container, or_backup, ContainerRead, absent, read_generation, ours,
}
use mth_apclient.Bundle.Names.{looks_like_save_blob}
use mth_apclient.Bundle.Disks.{path_for, bak_of}
use mth_apclient.Bundle.Calls.{
  state_answer-store, load_answer-store, call_stage_state, Call, store_answer_cases, call_store,
  call_load, call_load_state, new_store, if_true,
}

-- A call on the store for one run, with the weather of the writes that it waits for.

module _ (z : Zlib) (j : Json) (l : Layout) (seed slot : Bytes) where
  -- The answer of a call, where it is a flag, and the store behind it.
  unfoldable pub perform : Call → Store → Bool × Store
  perform (call_load weather) s = (false, (load z j l weather seed slot s).1)
  perform (call_store weather blob) s = store z j l weather seed slot blob s
  perform (call_load_state weather) s = (false, (load_state z j l weather seed slot s).1)
  perform (call_stage_state weather text) s = stage_state z j l weather seed slot text s

  unfoldable pub perform_all : List Call → Store → Store
  unfolding perform
  perform_all [] s = s
  perform_all (c ∷ cs) s = perform_all cs ((perform c s).1)

  -- The store knows that the container is another's, and has nothing queued.
  abbrev IsRefusing : Disk → Store → Type 0
  IsRefusing disk s =
      (s.disk ≡ disk)
      × (s.queue ≡ [])
      × (s.cache.loaded ≡ true)
      × (s.cache.seed ≡ seed)
      × (s.cache.slot ≡ slot)
      × (s.cache.foreign ≡ true)

  abbrev IsRefused : Disk → Bool × Store → Type 0
  IsRefused disk (ok, s) = (ok ≡ false) × IsRefusing disk s

  abbrev Loaded : (ℕ → Weather) → Store → Store
  Loaded weather s = ensure_loaded z j l weather seed slot s

  pub loaded_kept :
      (weather : ℕ → Weather) (s : Store)
      → s.cache.loaded ≡ true
      → s.cache.seed ≡ seed
      → s.cache.slot ≡ slot
      → Loaded weather s ≡ s
  unfolding ensure_loaded
  loaded_kept weather s a b c =
      let same : (s.cache.loaded && (eqb_bytes s.cache.seed seed && eqb_bytes s.cache.slot slot))
          ≡ true =
        rw (a, b, c, eqb_bytes_refl seed, eqb_bytes_refl slot) refl in
      if_true (s.cache.loaded && (eqb_bytes s.cache.seed seed && eqb_bytes s.cache.slot slot)) s _
        same

  load-store :
      (weather : ℕ → Weather) (s : Store) → (load z j l weather seed slot s).1 ≡ Loaded weather s
  unfolding load
  load-store weather s = load_answer-store (Loaded weather s).cache.game_save (Loaded weather s)

  load_state-store :
      (weather : ℕ → Weather) (s : Store)
      → (load_state z j l weather seed slot s).1 ≡ Loaded weather s
  unfolding load_state
  load_state-store weather s =
      state_answer-store (Loaded weather s).cache.ap_state (Loaded weather s)

  store_refused :
      (weather : ℕ → Weather) (blob : Bytes) (s : Store)
      → (Loaded weather s).cache.foreign ≡ true
      → (store z j l weather seed slot blob s ≡ (false, s))
        ⊎ (store z j l weather seed slot blob s ≡ (false, Loaded weather s))
  unfolding store
  store_refused weather blob s e =
      store_answer_cases (looks_like_save_blob blob) ((Loaded weather s).cache.foreign) s
        (Loaded weather s) (commit z j l weather blob (Loaded weather s)) e

  stage_refused :
      (weather : ℕ → Weather) (text : Bytes) (s : Store)
      → (Loaded weather s).cache.foreign ≡ true
      → stage_state z j l weather seed slot text s ≡ (false, Loaded weather s)
  unfolding stage_state
  stage_refused weather text s e =
      if_true ((Loaded weather s).cache.foreign) (false, Loaded weather s) _ e

  -- However the store is loaded next, it refuses, and the disk is as it was.
  abbrev IsShut : Disk → Store → Type 0
  IsShut disk s = (s.disk ≡ disk) × ((weather : ℕ → Weather) → IsRefusing disk (Loaded weather s))

  IsRefusing-IsShut : (disk : Disk) (s : Store) → IsRefusing disk s → IsShut disk s
  IsRefusing-IsShut disk s r =
      (r.0, λ weather. subst (IsRefusing disk) (sym (loaded_kept weather s r.2 r.3 r.4)) r)

  abbrev Refuses : Disk → Bool × Store → Type 0
  Refuses disk (ok, s) = (ok ≡ false) × IsShut disk s

  perform-Refuses :
      (disk : Disk) (c : Call) (s : Store) → IsShut disk s → Refuses disk (perform c s)
  unfolding perform
  perform-Refuses disk (call_load weather) s shut = (
    refl,
    subst (IsShut disk) (sym (load-store weather s))
        (IsRefusing-IsShut disk (Loaded weather s) (shut.1 weather)),
  )
  perform-Refuses disk (call_store weather blob) s shut =
      let after = shut.1 weather in
      elim (store_refused weather blob s after.5) [
        | inl e ↦ subst (Refuses disk) (sym e) (refl, shut)
        | inr e ↦
            subst (Refuses disk) (sym e) (refl, IsRefusing-IsShut disk (Loaded weather s) after)
      ]
  perform-Refuses disk (call_load_state weather) s shut = (
    refl,
    subst (IsShut disk) (sym (load_state-store weather s))
        (IsRefusing-IsShut disk (Loaded weather s) (shut.1 weather)),
  )
  perform-Refuses disk (call_stage_state weather text) s shut =
      let after = shut.1 weather in
      subst (Refuses disk) (sym (stage_refused weather text s after.5))
        (refl, IsRefusing-IsShut disk (Loaded weather s) after)

  perform_all-IsShut :
      (disk : Disk) (calls : List Call) (s : Store)
      → IsShut disk s
      → IsShut disk (perform_all calls s)
  unfolding perform_all
  perform_all-IsShut disk [] s shut = shut
  perform_all-IsShut disk (c ∷ cs) s shut =
      perform_all-IsShut disk cs ((perform c s).1) (perform-Refuses disk c s shut).1

  generation_foreign :
      (disk : Disk)
      → (read_container z j (disk (path_for l seed slot)) seed slot).verdict ≡ foreign
      → (read_generation z j l disk seed slot).verdict ≡ foreign
  unfolding read_generation or_backup
  generation_foreign disk theirs =
      let path = path_for l seed slot in
      let first = read_container z j (disk path) seed slot in
      let backup = read_container z j (disk (bak_of path)) seed slot in
      ap
        (λ v.
          (elim v as (λ _. ContainerRead) [
            | absent ↦ elim (backup.verdict) as (λ _. ContainerRead) [
              | absent ↦ first
              | foreign ↦ first
              | ours ↦ backup
            ]
            | foreign ↦ first
            | ours ↦ first
          ]).verdict)
        theirs
      ∙ theirs

  fill_foreign :
      (disk : Disk) (got : ContainerRead) (c : Cache) (next : ℕ)
      → got.verdict ≡ foreign
      → fill l disk got (c, next) ≡ (record c { foreign = true }, next)
  unfolding fill
  fill_foreign disk got c next e =
      ap
        (λ v. elim v as (λ _. Loading) [
          | foreign ↦ (record c { foreign = true }, next)
          | ours ↦
              adopt_legacy_state l disk
                (adopt_legacy_save l disk (adopt_entries got.entries (c, next)))
          | absent ↦ adopt_legacy_state l disk (adopt_legacy_save l disk (c, next))
        ])
        e

  new_store-IsShut :
      (disk : Disk)
      → (read_container z j (disk (path_for l seed slot)) seed slot).verdict ≡ foreign
      → IsShut disk (new_store disk)
  unfolding ensure_loaded
  new_store-IsShut disk theirs =
      let filled =
        fill_foreign disk (read_generation z j l disk seed slot)
          (record empty_cache { loaded = true; seed = seed; slot = slot }) 0
          (generation_foreign disk theirs) in
      (
        refl,
        λ weather. (
          refl,
          refl,
          ap (λ (r : Loading). (r.0).loaded) filled,
          ap (λ (r : Loading). (r.0).seed) filled,
          ap (λ (r : Loading). (r.0).slot) filled,
          ap (λ (r : Loading). (r.0).foreign) filled,
        ),
      )

  -- Where the container at a run's path names another run, no sequence of loads and stores for this
  -- run changes the disk, and a commit behind it answers false, whatever the bytes and the weather.
  pub perform_all-foreign :
      (disk : Disk) (calls : List Call) (weather : ℕ → Weather) (blob : Bytes)
      → (read_container z j (disk (path_for l seed slot)) seed slot).verdict ≡ foreign
      → ((perform_all calls (new_store disk)).disk ≡ disk)
        × ((store z j l weather seed slot blob (perform_all calls (new_store disk))).0 ≡ false)
  perform_all-foreign disk calls weather blob theirs =
      let shut = perform_all-IsShut disk calls (new_store disk) (new_store-IsShut disk theirs) in
      (
        shut.0,
        (unfold perform in
            (perform-Refuses disk (call_store weather blob) (perform_all calls (new_store disk))
              shut).0),
      )
