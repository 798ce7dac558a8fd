-- ===== src/Bundle/Reload.antt =====
-- `store`, and `load` and `load_state` of the next session, in src/mth/core/save/ap_save_bundle.cpp.
use mathlib.Core.Path.{subst}
use mth_apclient.Base.{
  ℕ, ◌≡◌, ◌∙◌, ap, refl, true, false, Option, some, Bytes, sym, Bool, not, none, if◌then◌else◌,
}
use mth_apclient.Bundle.{Cache, Weather, empty_cache, Json, Layout, Disk, Store, Payload}
use mth_apclient.Zip.{Zlib}
use mth_apclient.Bundle.Sessions.{ensure_loaded, load, fill, store, load_state, commit}
use mth_apclient.Bundle.Names.{looks_like_save_blob}
use mth_apclient.Bundle.Refused.{loaded_kept}
use mth_apclient.Bundle.Calls.{new_store, load_answer, state_answer}
use mth_apclient.Bundle.Containers.{read_generation}
use mth_apclient.Bundle.Committed.{
  own_read, fill-state, fill-save, commit_result, written_by, IsReady, committed,
}
use mth_apclient.Zip.Packed.{IsZlib}
use mth_apclient.Bundle.Atomic.{IsUnchanged, IsNew, HasRoom, write_snapshot-IsAtomic}
use mth_apclient.Bundle.Stages.{IsHonest}
use mth_apclient.Bundle.Write.{last_disk}
use mth_apclient.Bundle.Crash.{IsJson}

load_answer-some :
    (loaded : Store) (found : Option Payload) (p : Payload)
    → found ≡ some p
    → looks_like_save_blob p.bytes ≡ true
    → (load_answer found loaded).0 ≡ some p.bytes
load_answer-some loaded found p e fits =
    ap (λ o. (load_answer o loaded).0) e ∙ ap (λ b. (if_answer (not b))) fits
  where
    if_answer : Bool → Option Bytes
    if_answer b = (if_pair b).0
      where
        if_pair : Bool → Option Bytes × Store
        if_pair b = if b then (none, loaded) else (some p.bytes, loaded)

module _ (z : Zlib) (j : Json) (l : Layout) where
  pub store-commit :
      (weather : ℕ → Weather) (blob : Bytes) (s : Store)
      → s.cache.loaded ≡ true
      → s.cache.foreign ≡ false
      → looks_like_save_blob blob ≡ true
      → store z j l weather s.cache.seed s.cache.slot blob s ≡ commit z j l weather blob s
  unfolding store
  store-commit weather blob s loaded own fits =
      let kept = loaded_kept z j l s.cache.seed s.cache.slot weather s loaded refl refl in
      rw (fits, kept, own) refl

  module _ (disk : Disk) (weather : ℕ → Weather) (seed slot text blob : Bytes)
      (fits : looks_like_save_blob blob ≡ true) where
    abbrev opened : Cache
    opened = record empty_cache { loaded = true; seed = seed; slot = slot }

    abbrev Own : Option Payload → Type 0
    Own state = read_generation z j l disk seed slot ≡ own_read l disk text blob opened 0 state

    loaded-save :
        (state : Option Payload)
        → Own state
        → (ensure_loaded z j l weather seed slot (new_store disk)).cache.game_save
          ≡ some (record { address = 0; bytes = blob })
    unfolding ensure_loaded
    loaded-save state found =
        ap (λ got. (fill l disk got (opened, 0)).0.game_save) found
        ∙ fill-save l disk text blob opened 0 state

    loaded-state :
        (p : Payload)
        → Own (some p)
        → (ensure_loaded z j l weather seed slot (new_store disk)).cache.ap_state
          ≡ some (record { address = 1; bytes = p.bytes })
    unfolding ensure_loaded
    loaded-state p found =
        ap (λ got. (fill l disk got (opened, 0)).0.ap_state) found
        ∙ fill-state l disk text blob opened 0 p

    load-Own :
        (state : Option Payload)
        → Own state
        → (load z j l weather seed slot (new_store disk)).0 ≡ some blob
    unfolding load
    load-Own state found =
        let loaded = ensure_loaded z j l weather seed slot (new_store disk) in
        load_answer-some loaded loaded.cache.game_save (record { address = 0; bytes = blob })
          (loaded-save state found) fits

    load_state-Own :
        (p : Payload)
        → Own (some p)
        → (load_state z j l weather seed slot (new_store disk)).0 ≡ some p.bytes
    unfolding load_state
    load_state-Own p found =
        let loaded = ensure_loaded z j l weather seed slot (new_store disk) in
        ap (λ o. (state_answer o loaded).0) (loaded-state p found)

  module _ (lib : IsZlib z) (json : IsJson j) (heap : ℕ → Bytes) where
    commit-IsNew :
        (weather : ℕ → Weather) (blob : Bytes) (s : Store)
        → IsReady z j l heap blob s
        → IsHonest (weather 0)
        → HasRoom z j l lib json (committed blob s)
        → (commit z j l weather blob s).0 ≡ true
        → IsNew z j l lib json (committed blob s) ((commit z j l weather blob s).1.disk)
    commit-IsNew weather blob s ready honest has_room ok =
        let one = written_by z j l weather blob s in
        let (answer, disk) = commit_result z j l weather blob s ready.settled in
        let all =
          write_snapshot-IsAtomic z j l lib json heap (weather 0) s.disk s.writer (committed blob s)
            honest ready.intact ready.coherent ready.free ready.state_held has_room in
        subst (IsNew z j l lib json (committed blob s)) (sym disk) (
          subst
            (λ b.
              if b
              then IsNew z j l lib json (committed blob s) (last_disk s.disk one.disks)
              else IsUnchanged z j l lib json s.disk (committed blob s)
                  (last_disk s.disk one.disks))
            (sym answer ∙ ok) all.1)

    -- Where a commit of a save blob answers true, the next session loads the blob, and the item
    -- state that was staged before it. Conditions: the store has the run loaded from no file or a
    -- container of the run's own, nothing is queued, its payloads are sound, the entries fit the
    -- container, and a stream that closed with all of the image's bytes left the image.
    pub store-load :
        (weather later : ℕ → Weather) (blob : Bytes) (p : Payload) (s : Store)
        → IsReady z j l heap blob s
        → IsHonest (weather 0)
        → HasRoom z j l lib json (committed blob s)
        → looks_like_save_blob blob ≡ true
        → s.cache.ap_state ≡ some p
        → (store z j l weather s.cache.seed s.cache.slot blob s).0 ≡ true
        → ((load z j l later s.cache.seed s.cache.slot
              (new_store ((store z j l weather s.cache.seed s.cache.slot blob s).1.disk))).0
            ≡ some blob)
          × ((load_state z j l later s.cache.seed s.cache.slot
                (new_store ((store z j l weather s.cache.seed s.cache.slot blob s).1.disk))).0
              ≡ some p.bytes)
    store-load weather later blob p s ready honest has_room fits staged ok =
        let same = store-commit weather blob s ready.loaded ready.own fits in
        let (text, printed, found) =
          commit-IsNew weather blob s ready honest has_room
            (ap (λ (r : Bool × Store). r.0) (sym same) ∙ ok) in
        let disk = (store z j l weather s.cache.seed s.cache.slot blob s).1.disk in
        let there : read_generation z j l disk s.cache.seed s.cache.slot
            ≡ own_read l disk text blob (opened disk later s.cache.seed s.cache.slot text blob fits)
                0 (some p) =
          ap (λ (r : Bool × Store). read_generation z j l (r.1.disk) s.cache.seed s.cache.slot) same
          ∙ found
          ∙ ap
              (λ o.
                own_read l disk text blob
                  (opened disk later s.cache.seed s.cache.slot text blob fits) 0 o)
              staged in
        (
          load-Own disk later s.cache.seed s.cache.slot text blob fits (some p) there,
          load_state-Own disk later s.cache.seed s.cache.slot text blob fits p there,
        )
