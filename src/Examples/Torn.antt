-- ===== src/Examples/Torn.antt =====
-- Runs of src/mth/core/save/ap_save_bundle.cpp over a container of another run, and over one that
-- cannot be read.
use mathlib.Core.Path.{subst}
use mth_apclient.Base.{
  List, ◌≡◌, ◌∙◌, ap, sym, refl, false, none, some, [], ◌∷◌, map, if◌then◌else◌, codes, Bytes,
  eqb_bytes, eqb_bytes_refl,
}
use mth_apclient.Bundle.{new_writer, Disk}
use mth_apclient.Zip.Packed.{pack}
use mth_apclient.Zip.RoundTrip.{read-write}
use mth_apclient.Zip.Read.{read}
use mth_apclient.Zip.Write.{write}
use mth_apclient.Zip.Accepted.{else_passed}
use mth_apclient.Bundle.Sessions.{store}
use mth_apclient.Bundle.Forgets.{first_disk, rotation_forgets}
use mth_apclient.Bundle.Refused.{perform_all-foreign, perform_all}
use mth_apclient.Bundle.Calls.{if_true, call_load, call_store, call_stage_state, new_store, Call}
use mth_apclient.Bundle.Places.{IsOther, bak_IsOther-path}
use mth_apclient.Bundle.Write.{replace}
use mth_apclient.Bundle.Containers.{
  judge, read_container, foreign, nothing_read, read_generation, find_entry, ContainerRead, ours,
  judge_entries,
}
use mth_apclient.Bundle.Disks.{bak_of, path_for}
use mth_apclient.Bundle.Crash.{files_of, read_container-read, read_container-write}
use mth_apclient.Bundle.Committed.{committed}
use mth_apclient.Examples.Commits.{
  tiny_json, slot, layout, playing, calm, small_IsHolding, blob, text, seed, tiny-IsJson,
}
use mth_apclient.Examples.Archive.{tiny-IsZlib, tiny}

-- A disk with the container of that run, and of nothing else.
abbrev container : Bytes
container = write (map (pack tiny) (files_of text (committed blob playing)))

abbrev other_disk : Disk
other_disk path = if eqb_bytes path (path_for layout (codes "A") slot) then some container else none

container-read : read tiny container ≡ some (files_of text (committed blob playing))
container-read =
    let (ok, few, small) = small_IsHolding in
    read-write tiny (files_of text (committed blob playing)) tiny-IsZlib ok few small

other_IsForeign :
    (read_container tiny tiny_json (some container) (codes "A") slot).verdict ≡ foreign
unfolding judge_entries find_entry judge eqb_bytes
other_IsForeign =
    ap (λ (r : ContainerRead). r.verdict)
      (read_container-read tiny tiny_json (codes "A") slot container
        (files_of text (committed blob playing)) container-read)

other_found : other_disk (path_for layout (codes "A") slot) ≡ some container
other_found =
    if_true (eqb_bytes (path_for layout (codes "A") slot) (path_for layout (codes "A") slot))
      (some container) none (eqb_bytes_refl (path_for layout (codes "A") slot))

calls : List Call
calls = call_load (λ i. calm) ∷ call_stage_state (λ i. calm) text ∷ call_store (λ i. calm) blob ∷ []

perform_all-foreign_example :
    ((perform_all tiny tiny_json layout (codes "A") slot calls (new_store other_disk)).disk
      ≡ other_disk)
    × ((store tiny tiny_json layout
          (λ i. calm)
          (codes "A")
          slot
          blob
          (perform_all tiny tiny_json layout (codes "A") slot calls (new_store other_disk))).0
        ≡ false)
perform_all-foreign_example =
    perform_all-foreign tiny tiny_json layout (codes "A") slot other_disk calls (λ i. calm) blob
      (subst (λ o. (read_container tiny tiny_json o (codes "A") slot).verdict ≡ foreign)
        (sym other_found) other_IsForeign)

-- A disk whose container is empty, with a good backup.
abbrev home : Bytes
home = path_for layout seed slot

abbrev torn_disk : Disk
torn_disk path =
    if eqb_bytes path home
    then some []
    else if eqb_bytes path (bak_of home)
    then some container
    else none

torn_backup : torn_disk (bak_of home) ≡ some container
torn_backup =
    sym (
      else_passed (eqb_bytes (bak_of home) home) (some [])
        (if eqb_bytes (bak_of home) (bak_of home) then some container else none)
        (torn_disk (bak_of home)) (unfold IsOther in bak_IsOther-path home) refl)
    ∙ if_true (eqb_bytes (bak_of home) (bak_of home)) (some container) none
        (eqb_bytes_refl (bak_of home))

torn_read : read_container tiny tiny_json (some []) seed slot ≡ nothing_read
unfolding read_container read
torn_read = refl

backup_read :
    read_container tiny tiny_json (torn_disk (bak_of home)) seed slot
    ≡ record { verdict = ours; entries = files_of text (committed blob playing) }
backup_read =
    ap (λ o. read_container tiny tiny_json o seed slot) torn_backup
    ∙ read_container-write tiny tiny_json tiny-IsZlib tiny-IsJson (committed blob playing) text refl
        small_IsHolding

rotation_forgets_example :
    (read_generation tiny tiny_json layout torn_disk seed slot
      ≡ record { verdict = ours; entries = files_of text (committed blob playing) })
    × (read_generation tiny tiny_json layout
          (first_disk torn_disk ((replace calm home torn_disk new_writer).disks))
          seed
          slot
        ≡ nothing_read)
rotation_forgets_example =
    rotation_forgets tiny tiny_json layout seed slot [] (files_of text (committed blob playing))
      calm torn_disk new_writer
      (if_true (eqb_bytes home home) (some [])
        (if eqb_bytes home (bak_of home) then some container else none) (eqb_bytes_refl home))
      torn_read backup_read refl refl refl
