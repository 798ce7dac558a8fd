-- ===== src/Bundle/Atomic.antt =====
-- Crash safety of `write_snapshot`, src/mth/core/save/ap_save_bundle.cpp.
use mathlib.Core.Path.{subst}
use mth_apclient.Base.{
  List, ℕ, ◌≡◌, ◌∙◌, ap, sym, ◌⊎◌, inl, inr, refl, Bool, true, false, ◌&&◌, not, Option, none, some,
  [], ◌∷◌, map, if◌then◌else◌, All, Bytes, eqb_bytes,
}
use mth_apclient.Bundle.{format_version, Weather, Layout, Writer, Snapshot, Disk, Json}
use mth_apclient.Zip.{Zlib}
use mth_apclient.Zip.Packed.{pack, IsZlib}
use mth_apclient.Zip.Write.{write}
use mth_apclient.Bundle.Blobs.{IsHeld, IsCoherent}
use mth_apclient.Bundle.Stages.{IsEnd, IsStage, publish-Passes, IsHonest}
use mth_apclient.Bundle.Write.{
  publish, Written, last_disk, for_key, write_snapshot, key_of, write_entries,
}
use mth_apclient.Bundle.Containers.{ours, read_generation}
use mth_apclient.Bundle.Disks.{path_for}
use mth_apclient.Bundle.Crash.{
  IsHolding, files_of, generation_new, IsJson, generation_old, read_container-write, IsIntact,
  write_entries-publish,
}

pub for_key-IsCoherent :
    (z : Zlib) (heap : ℕ → Bytes) (key : Bytes) (w : Writer)
    → IsCoherent z heap w
    → IsCoherent z heap (for_key key w)
unfolding for_key
for_key-IsCoherent z heap key w ok = forgotten (not (eqb_bytes key w.writer_key))
  where
    forgotten :
        (b : Bool)
        → IsCoherent z heap (
            if b
            then record w { writer_key = key; writer_blobs = []; writer_backed_up = false }
            else w)
    forgotten true = tt
    forgotten false = ok

module _ (z : Zlib) (j : Json) (l : Layout) (lib : IsZlib z) (json : IsJson j) where
  -- What a load finds, when the write of a snapshot has been done.
  abbrev pub IsNew : Snapshot → Disk → Type 0
  IsNew snap d =
      (text : Bytes) × (j.dump format_version snap.seed snap.slot ≡ some text)
      × (read_generation z j l d snap.seed snap.slot
          ≡ record { verdict = ours; entries = files_of text snap })

  -- What a load finds, when it has not.
  abbrev pub IsUnchanged : Disk → Snapshot → Disk → Type 0
  IsUnchanged start snap d =
      read_generation z j l d snap.seed snap.slot ≡ read_generation z j l start snap.seed snap.slot

  abbrev pub IsAtomic : Disk → Snapshot → Written → Type 0
  IsAtomic start snap written =
      All (λ d. IsUnchanged start snap d ⊎ IsNew snap d) written.disks
      × (if written.ok
          then IsNew snap (last_disk start written.disks)
          else IsUnchanged start snap (last_disk start written.disks))

  abbrev pub HasRoom : Snapshot → Type 0
  HasRoom snap =
      (text : Bytes)
      → j.dump format_version snap.seed snap.slot ≡ some text
      → IsHolding z j lib json snap text

  module _ (start : Disk) (snap : Snapshot) (text : Bytes)
      (intact : IsIntact z j l snap.seed snap.slot start)
      (printed : j.dump format_version snap.seed snap.slot ≡ some text)
      (room : IsHolding z j lib json snap text) where
    abbrev image : Bytes
    image = write (map (pack z) (files_of text snap))

    IsNew-of : (d : Disk) → d (path_for l snap.seed snap.slot) ≡ some image → IsNew snap d
    IsNew-of d at =
        let mine = read_container-write z j lib json snap text printed room in
        (
          text,
          printed,
          generation_new z j l snap.seed snap.slot d image at (ap (λ c. c.verdict) mine) ∙ mine,
        )

    stages_of :
        (ds : List Disk)
        → All (IsStage (path_for l snap.seed snap.slot) image start) ds
        → All (λ d. IsUnchanged start snap d ⊎ IsNew snap d) ds
    stages_of [] h = tt
    stages_of (d ∷ ds) (inl old, h) =
        (inl (generation_old z j l snap.seed snap.slot start d intact old), stages_of ds h)
    stages_of (d ∷ ds) (inr at, h) = (inr (IsNew-of d at), stages_of ds h)

    end_of :
        (ok : Bool) (d : Disk)
        → IsEnd (path_for l snap.seed snap.slot) start image ok d
        → (if ok then IsNew snap d else IsUnchanged start snap d)
    end_of true d at = IsNew-of d at
    end_of false d old = generation_old z j l snap.seed snap.slot start d intact old

    publish-IsAtomic :
        (weather : Weather) (w : Writer)
        → IsHonest weather
        → IsAtomic start snap (publish weather (path_for l snap.seed snap.slot) image start w)
    publish-IsAtomic weather w honest =
        let p = publish-Passes (path_for l snap.seed snap.slot) start weather image w honest in
        let written = publish weather (path_for l snap.seed snap.slot) image start w in
        (stages_of written.disks p.0, end_of written.ok (last_disk start written.disks) p.1)

  nothing_done :
      (start : Disk) (snap : Snapshot) (w : Writer)
      → IsAtomic start snap (record { writer = w; ok = false; disks = [] })
  nothing_done start snap w = (tt, refl)

  module _ (heap : ℕ → Bytes) (weather : Weather) (start : Disk) (snap : Snapshot)
      (honest : IsHonest weather) (intact : IsIntact z j l snap.seed snap.slot start)
      (save_held : IsHeld heap snap.game_save) (state_held : IsHeld heap snap.ap_state)
      (room : HasRoom snap) where
    write_entries-IsAtomic :
        (text : Bytes) (w : Writer)
        → j.dump format_version snap.seed snap.slot ≡ some text
        → IsCoherent z heap w
        → IsAtomic start snap (write_entries z j l weather start snap text w)
    write_entries-IsAtomic text w printed ok =
        let (w_state, coherent, same) =
          write_entries-publish z j l heap weather start snap text w ok save_held state_held in
        subst (IsAtomic start snap) (sym same) (
          publish-IsAtomic start snap text intact printed (room text printed) weather w_state
            honest)

    printed_IsAtomic :
        (answer : Option Bytes) (w : Writer)
        → j.dump format_version snap.seed snap.slot ≡ answer
        → IsCoherent z heap w
        → IsAtomic start snap (elim answer [
          | none ↦ record { writer = w; ok = false; disks = [] }
          | some text ↦ write_entries z j l weather start snap text w
        ])
    printed_IsAtomic none w printed ok = nothing_done start snap w
    printed_IsAtomic (some text) w printed ok = write_entries-IsAtomic text w printed ok

    created_IsAtomic :
        (fails : Bool) (w : Writer) (written : Written)
        → IsAtomic start snap written
        → IsAtomic start snap
            (if fails then record { writer = w; ok = false; disks = [] } else written)
    created_IsAtomic true w written h = nothing_done start snap w
    created_IsAtomic false w written h = h

  -- A crash between any two calls of a write leaves a disk from which a load takes the run's old
  -- container or backup as before, or the snapshot's entries; behind a write that answers true it
  -- takes the snapshot's, and behind one that answers false the old one. Conditions: at the path
  -- there is no file, or a container of the run; the blobs that the writer kept are those of their
  -- payloads, an address stands for one text, the entries fit the container, and a stream that
  -- closed with all of the image's bytes left the image.
  pub write_snapshot-IsAtomic :
      (heap : ℕ → Bytes) (weather : Weather) (start : Disk) (w : Writer) (snap : Snapshot)
      → IsHonest weather
      → IsIntact z j l snap.seed snap.slot start
      → IsCoherent z heap w
      → IsHeld heap snap.game_save
      → IsHeld heap snap.ap_state
      → HasRoom snap
      → IsAtomic start snap (write_snapshot z j l weather start w snap)
  unfolding write_snapshot
  write_snapshot-IsAtomic heap weather start w snap honest intact ok save_held state_held room =
      let keyed = for_key (key_of snap) w in
      created_IsAtomic heap weather start snap honest intact save_held state_held room
        (not keyed.dir_ready && weather.create_fails) keyed _
        (printed_IsAtomic heap weather start snap honest intact save_held state_held room
          (j.dump format_version snap.seed snap.slot) (record keyed { dir_ready = true }) refl
          (for_key-IsCoherent z heap (key_of snap) w ok))
