-- ===== src/Bundle/Crash.antt =====
-- A crash within `write_snapshot` of src/mth/core/save/ap_save_bundle.cpp, as `read_container` and
-- the fall back to the backup see it.
use mathlib.Core.Path.{subst}
use mth_apclient.Base.{
  List, ℕ, suc, ◌+◌, ◌≡◌, ap, refl, true, Option, none, some, [], ◌∷◌, ◌++◌, map, arith, ◌==◌,
  length, ==_iff, length-append, Bytes, ◌<◌, ◌∙◌, sym, ◌⊎◌, inl, inr, All, eqb_bytes,
  eqb_bytes_refl,
}
use mth_apclient.Bundle.{
  Writer, entry_state, Disk, entry_manifest, Snapshot, Json, Weather, Layout, format_version,
  entry_save, Payload,
}
use mth_apclient.Zip.{Blob, Zlib, Entry}
use mth_apclient.Zip.Packed.{pack, IsZlib, IsFile}
use mth_apclient.Zip.Write.{write}
use mth_apclient.Bundle.Blobs.{IsCoherent, emit-IsPlain, IsHeld, plain}
use mth_apclient.Bundle.Write.{write_entries, publish, payload_count, emit}
use mth_apclient.Bundle.Disks.{path_for, bak_of}
use mth_apclient.Zip.RoundTrip.{read-write}
use mth_apclient.Bundle.Stages.{IsOld, Kept}
use mth_apclient.Bundle.Containers.{
  ContainerRead, judge, read_container, read_generation, ours, nothing_read, or_backup,
  judge_entries, find_entry, absent, foreign,
}
use mth_apclient.Zip.Read.{read}

-- What a snapshot's container holds.
abbrev pub files_of : Bytes → Snapshot → List Entry
files_of text snap =
    record { name = entry_manifest; content = text }
    ∷ (plain entry_save snap.game_save ++ plain entry_state snap.ap_state)

-- The JSON library reads back the document that it printed.
abbrev pub IsJson : Json → Type 0
IsJson j =
    (seed slot text : Bytes)
    → j.dump format_version seed slot ≡ some text
    → j.parse text
      ≡ some (record { format = some format_version; seed = some seed; slot = some slot })

map-append : {A B : Type 0} (f : A → B) (xs ys : List A) → map f (xs ++ ys) ≡ map f xs ++ map f ys
map-append f [] ys = refl
map-append f (x ∷ xs) ys = ap (◌∷◌ (f x)) (map-append f xs ys)

length-plain :
    (z : Zlib) (name : Bytes) (p : Option Payload)
    → length (map (pack z) (plain name p)) ≡ payload_count p
length-plain z name none = refl
length-plain z name (some p) = refl

module _ (z : Zlib) (j : Json) (l : Layout) (heap : ℕ → Bytes) where
  pub write_entries-publish :
      (weather : Weather) (disk : Disk) (snap : Snapshot) (text : Bytes) (w : Writer)
      → IsCoherent z heap w
      → IsHeld heap snap.game_save
      → IsHeld heap snap.ap_state
      → (w_state : Writer) × IsCoherent z heap w_state
        × (write_entries z j l weather disk snap text w
            ≡ publish weather
                (path_for l snap.seed snap.slot)
                (write (map (pack z) (files_of text snap)))
                disk
                w_state)
  unfolding write_entries
  write_entries-publish weather disk snap text w ok save_held state_held =
      let one = emit-IsPlain z heap entry_save snap.game_save w ok save_held in
      let w_save = (emit z entry_save snap.game_save w).1 in
      let two = emit-IsPlain z heap entry_state snap.ap_state w_save one.1 state_held in
      let w_state = (emit z entry_state snap.ap_state w_save).1 in
      let count =
        counts (map (pack z) (plain entry_save snap.game_save))
          (map (pack z) (plain entry_state snap.ap_state)) (payload_count snap.game_save)
          (payload_count snap.ap_state) (length-plain z entry_save snap.game_save)
          (length-plain z entry_state snap.ap_state) in
      (
        w_state,
        two.1,
        rw
            (
              one.0,
              two.0,
              map-append (pack z) (plain entry_save snap.game_save)
                  (plain entry_state snap.ap_state),
              count,
            )
            refl,
      )
    where
      counts :
          (xs ys : List Blob) (m n : ℕ)
          → length xs ≡ m
          → length ys ≡ n
          → (suc (length (xs ++ ys)) == 1 + m + n) ≡ true
      counts xs ys m n a b =
          (==_iff (suc (length (xs ++ ys))) (1 + m + n)).1
            (omega (arith, a, b, length-append xs ys))

-- The container at a disk's path, for a run: none, or one of its own.
abbrev pub IsIntact : Zlib → Json → Layout → Bytes → Bytes → Disk → Type 0
IsIntact z j l seed slot disk =
    (disk (path_for l seed slot) ≡ none)
    ⊎ ((read_container z j (disk (path_for l seed slot)) seed slot).verdict ≡ ours)

module _ (z : Zlib) (j : Json) (l : Layout) (seed slot : Bytes) where
  abbrev path : Bytes
  path = path_for l seed slot

  or_backup-ours :
      (first backup : ContainerRead) → first.verdict ≡ ours → or_backup first backup ≡ first
  unfolding or_backup
  or_backup-ours first backup e = rw e refl

  or_backup-backup :
      (backup : ContainerRead) → backup.verdict ≡ ours → or_backup nothing_read backup ≡ backup
  unfolding or_backup
  or_backup-backup backup e =
      ap
        (λ v. elim v as (λ _. ContainerRead) [
          | absent ↦ nothing_read
          | foreign ↦ nothing_read
          | ours ↦ backup
        ])
        e

  pub generation_at :
      (d : Disk) (first backup : Option Bytes)
      → d path ≡ first
      → d (bak_of path) ≡ backup
      → read_generation z j l d seed slot
        ≡ or_backup (read_container z j first seed slot) (read_container z j backup seed slot)
  unfolding read_generation
  generation_at d first backup a b = rw (a, b) refl

  generation-Kept :
      (start d : Disk)
      → Kept path start d
      → read_generation z j l d seed slot ≡ read_generation z j l start seed slot
  generation-Kept start d (a, b) =
      generation_at d (start path) (start (bak_of path)) a b
      ∙ sym (generation_at start (start path) (start (bak_of path)) refl refl)

  generation_rotated :
      (start d : Disk) (content : Bytes)
      → IsIntact z j l seed slot start
      → start path ≡ some content
      → d path ≡ none
      → d (bak_of path) ≡ some content
      → read_generation z j l d seed slot ≡ read_generation z j l start seed slot
  unfolding read_container read_generation
  generation_rotated start d content (inl no_file) s a b =
      (let e : none ≡ some content = sym no_file ∙ s in ground arith)
  generation_rotated start d content (inr mine) s a b =
      let its : (read_container z j (some content) seed slot).verdict ≡ ours =
        subst (λ o. (read_container z j o seed slot).verdict ≡ ours) s mine in
      generation_at d none (some content) a b
      ∙ or_backup-backup (read_container z j (some content) seed slot) its
      ∙ sym (
          generation_at start (some content) (start (bak_of path)) s refl
          ∙ or_backup-ours (read_container z j (some content) seed slot)
              (read_container z j (start (bak_of path)) seed slot) its)

  pub generation_old :
      (start d : Disk)
      → IsIntact z j l seed slot start
      → IsOld path start d
      → read_generation z j l d seed slot ≡ read_generation z j l start seed slot
  generation_old start d intact (inl kept) = generation-Kept start d kept
  generation_old start d intact (inr (content, s, a, b)) =
      generation_rotated start d content intact s a b

  pub generation_new :
      (d : Disk) (image : Bytes)
      → d path ≡ some image
      → (read_container z j (some image) seed slot).verdict ≡ ours
      → read_generation z j l d seed slot ≡ read_container z j (some image) seed slot
  generation_new d image a mine =
      generation_at d (some image) (d (bak_of path)) a refl
      ∙ or_backup-ours (read_container z j (some image) seed slot)
          (read_container z j (d (bak_of path)) seed slot) mine

pub read_container-read :
    (z : Zlib) (j : Json) (seed slot image : Bytes) (entries : List Entry)
    → read z image ≡ some entries
    → read_container z j (some image) seed slot ≡ judge_entries z j entries seed slot
unfolding read_container
read_container-read z j seed slot image entries e =
    ap
      (λ o. elim o as (λ _. ContainerRead) [
        | none ↦ nothing_read
        | some es ↦ judge_entries z j es seed slot
      ])
      e

module _ (z : Zlib) (j : Json) (lib : IsZlib z) (json : IsJson j) (snap : Snapshot)
    (text : Bytes) where
  abbrev files : List Entry
  files = files_of text snap

  -- What the container can hold.
  abbrev pub IsHolding : Type 0
  IsHolding =
      All IsFile files
      × (length files < 0xFFFF)
      × (length (write (map (pack z) files)) < 0xFFFFFFFF)

  judge_entries-files :
      j.dump format_version snap.seed snap.slot ≡ some text
      → judge_entries z j files snap.seed snap.slot ≡ record { verdict = ours; entries = files }
  unfolding judge_entries find_entry judge eqb_bytes
  judge_entries-files printed =
      rw (json snap.seed snap.slot text printed, eqb_bytes_refl snap.seed, eqb_bytes_refl snap.slot)
        refl

  pub read_container-write :
      j.dump format_version snap.seed snap.slot ≡ some text
      → IsHolding
      → read_container z j (some (write (map (pack z) files))) snap.seed snap.slot
        ≡ record { verdict = ours; entries = files }
  read_container-write printed (ok, few, small) =
      read_container-read z j snap.seed snap.slot (write (map (pack z) files)) files
        (read-write z files lib ok few small)
      ∙ judge_entries-files printed
