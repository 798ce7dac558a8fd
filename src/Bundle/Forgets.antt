-- ===== src/Bundle/Forgets.antt =====
-- The rotation of `write_snapshot`, src/mth/core/save/ap_save_bundle.cpp, over a container that
-- cannot be read.
use mth_apclient.Base.{
  List, ◌≡◌, ◌∙◌, ap, refl, false, none, some, ◌∷◌, Bytes, Bool, true, ◌&&◌, not, Option, [],
  if◌then◌else◌,
}
use mth_apclient.Bundle.{Layout, Writer, Weather, Disk, Json}
use mth_apclient.Zip.{Zlib, Entry}
use mth_apclient.Bundle.Places.{path-IsOther-bak, rename-to, rename-from}
use mth_apclient.Bundle.Write.{replace, Written}
use mth_apclient.Bundle.Containers.{
  read_generation, or_backup, read_container, nothing_read, ContainerRead, ours,
}
use mth_apclient.Bundle.Disks.{path_for, rename, bak_of, remove, exists, tmp_of}
use mth_apclient.Bundle.Crash.{generation_at}

or_backup-absent :
    (first backup : ContainerRead)
    → first ≡ nothing_read
    → backup ≡ nothing_read
    → or_backup first backup ≡ nothing_read
unfolding or_backup
or_backup-absent first backup a b = rw (a, b) refl

abbrev pub first_disk : Disk → List Disk → Disk
first_disk disk [] = disk
first_disk disk (d ∷ ds) = d

abbrev replaced_as : Bool → Disk → Disk → Disk → Writer → Written
replaced_as fails rotated cleaned replaced next =
    if fails
    then record { writer = next; ok = false; disks = rotated ∷ cleaned ∷ [] }
    else record { writer = next; ok = true; disks = rotated ∷ replaced ∷ [] }

replaced_as-first :
    (fails : Bool) (start rotated cleaned replaced : Disk) (next : Writer)
    → first_disk start ((replaced_as fails rotated cleaned replaced next).disks) ≡ rotated
replaced_as-first true start rotated cleaned replaced next = refl
replaced_as-first false start rotated cleaned replaced next = refl

module _ (weather : Weather) (final : Bytes) (start : Disk) (w : Writer) where
  replace-first :
      w.writer_backed_up ≡ false
      → weather.exists_fails ≡ false
      → weather.rotate_fails ≡ false
      → exists final start ≡ true
      → first_disk start ((replace weather final start w).disks) ≡ rename final (bak_of final) start
  unfolding replace
  replace-first a b c e =
      let going = not w.writer_backed_up && (not weather.exists_fails && exists final start) in
      let all : (going && not weather.rotate_fails) ≡ true = rw (a, b, c, e) refl in
      let rotated =
        if going && not weather.rotate_fails then rename final (bak_of final) start else start in
      replaced_as-first weather.replace_fails start rotated
        (if weather.remove_fails then rotated else remove (tmp_of final) rotated)
        (rename (tmp_of final) final rotated)
        (if going then record w { writer_backed_up = true } else w)
      ∙ ap (λ b. if b then rename final (bak_of final) start else start) all

-- Where the file at the container's path cannot be read as one and the backup is the run's own, a
-- load finds the backup's entries before a write; between the rotation of the write's first backup
-- and the replace it finds nothing, when both of the rotation's calls go well.
pub rotation_forgets :
    (z : Zlib) (j : Json) (l : Layout) (seed slot junk : Bytes) (entries : List Entry)
    (weather : Weather) (start : Disk) (w : Writer)
    → start (path_for l seed slot) ≡ some junk
    → read_container z j (some junk) seed slot ≡ nothing_read
    → read_container z j (start (bak_of (path_for l seed slot))) seed slot
      ≡ record { verdict = ours; entries = entries }
    → w.writer_backed_up ≡ false
    → weather.exists_fails ≡ false
    → weather.rotate_fails ≡ false
    → (read_generation z j l start seed slot ≡ record { verdict = ours; entries = entries })
      × (read_generation z j l
            (first_disk start ((replace weather (path_for l seed slot) start w).disks))
            seed
            slot
          ≡ nothing_read)
rotation_forgets z j l seed slot junk entries weather start w file unread backup fresh sees moves =
    let path = path_for l seed slot in
    let d = rename path (bak_of path) start in
    let gone : d path ≡ none =
      rename-from start path (bak_of path) junk (path-IsOther-bak path) file in
    let there : d (bak_of path) ≡ some junk = rename-to start path (bak_of path) junk file in
    let first =
      replace-first weather path start w fresh sees moves
        (ap (λ o. elim o as (λ _. Bool) [ none ↦ false | some c ↦ true ]) file) in
    (
      generation_at z j l seed slot start (some junk) (start (bak_of path)) file refl
          ∙ ap2_backup z j seed slot junk (start (bak_of path)) entries unread backup,
      ap (λ (e : Disk). read_generation z j l e seed slot) first
          ∙ generation_at z j l seed slot d none (some junk) gone there
          ∙ (unfold read_container in
              or_backup-absent nothing_read (read_container z j (some junk) seed slot) refl unread),
    )
  where
    ap2_backup :
        (z : Zlib) (j : Json) (seed slot junk : Bytes) (held : Option Bytes) (entries : List Entry)
        → read_container z j (some junk) seed slot ≡ nothing_read
        → read_container z j held seed slot ≡ record { verdict = ours; entries = entries }
        → or_backup (read_container z j (some junk) seed slot) (read_container z j held seed slot)
          ≡ record { verdict = ours; entries = entries }
    ap2_backup z j seed slot junk held entries a b = rw (a, b) (unfold or_backup in refl)
