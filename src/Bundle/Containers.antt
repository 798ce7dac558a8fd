-- ===== src/Bundle/Containers.antt =====
-- `read_container` of src/mth/core/save/ap_save_bundle.cpp, and what `ensure_loaded` looks at.
use mth_apclient.Base.{
  List, not, Option, none, some, [], ◌∷◌, if◌then◌else◌, eqb_ℤ, Bytes, eqb_bytes,
}
use mth_apclient.Bundle.{Manifest, Json, Layout, format_version, Disk, entry_manifest}
use mth_apclient.Zip.{Zlib, Entry}
use mth_apclient.Zip.Read.{read}
use mth_apclient.Bundle.Disks.{path_for, bak_of}

pub data ContainerVerdict : Type 0 where
  absent : ContainerVerdict
  foreign : ContainerVerdict
  ours : ContainerVerdict

pub record ContainerRead : Type 0 where
  pub verdict : ContainerVerdict
  pub entries : List Entry

abbrev pub nothing_read : ContainerRead
nothing_read = record { verdict = absent; entries = [] }

-- The tests of the manifest, in the order in which they may throw.
unfoldable pub judge : Option Manifest → Bytes → Bytes → List Entry → ContainerRead
unfolding eqb_bytes
judge none seed slot entries = nothing_read
judge (some m) seed slot entries =
    let other : ContainerRead = record { verdict = foreign; entries = [] } in
    let mine : ContainerRead = record { verdict = ours; entries = entries } in
    elim m.format [
      | none ↦ nothing_read
      | some format ↦ if not (eqb_ℤ format format_version) then nothing_read else elim m.seed [
        | none ↦ nothing_read
        | some its_seed ↦ if not (eqb_bytes its_seed seed) then other else elim m.slot [
          | none ↦ nothing_read
          | some its_slot ↦ if not (eqb_bytes its_slot slot) then other else mine
        ]
      ]
    ]

-- The first entry of a name.
unfoldable pub find_entry : Bytes → List Entry → Option Bytes
unfolding eqb_bytes
find_entry name [] = none
find_entry name (e ∷ es) =
    let rest = find_entry name es in if eqb_bytes e.name name then some e.content else rest

-- Where there is nothing of ours at the path itself, the backup, if that is ours.
unfoldable pub or_backup : ContainerRead → ContainerRead → ContainerRead
or_backup first backup = elim first.verdict [
  | absent ↦ elim backup.verdict [ absent ↦ first | foreign ↦ first | ours ↦ backup ]
  | foreign ↦ first
  | ours ↦ first
]

module _ (z : Zlib) (j : Json) where
  unfoldable pub judge_entries : List Entry → Bytes → Bytes → ContainerRead
  unfolding judge find_entry
  judge_entries entries seed slot = elim (find_entry entry_manifest entries) [
    | none ↦ nothing_read
    | some text ↦ judge (j.parse text) seed slot entries
  ]

  unfoldable pub read_container : Option Bytes → Bytes → Bytes → ContainerRead
  unfolding judge_entries
  read_container none seed slot = nothing_read
  read_container (some image) seed slot = elim (read z image) [
    | none ↦ nothing_read
    | some entries ↦ judge_entries entries seed slot
  ]

  module _ (l : Layout) where
    unfoldable pub read_generation : Disk → Bytes → Bytes → ContainerRead
    unfolding read_container or_backup
    read_generation disk seed slot =
        let path = path_for l seed slot in
        or_backup (read_container (disk path) seed slot)
          (read_container (disk (bak_of path)) seed slot)
