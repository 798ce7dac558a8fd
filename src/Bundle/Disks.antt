-- ===== src/Bundle/Disks.antt =====
-- The calls on files that src/mth/core/save/ap_save_bundle.cpp makes.
use mth_apclient.Base.{
  Bool, true, false, none, some, ◌∷◌, ◌++◌, if◌then◌else◌, codes, Bytes, eqb_bytes,
}
use mth_apclient.Bundle.{Disk, Layout}
use mth_apclient.Bundle.Names.{ap_bundle_filename}

unfoldable pub put : Bytes → Bytes → Disk → Disk
unfolding eqb_bytes
put path content disk p = if eqb_bytes p path then some content else disk p

unfoldable pub remove : Bytes → Disk → Disk
unfolding eqb_bytes
remove path disk p = if eqb_bytes p path then none else disk p

-- A rename of no file changes nothing.
unfoldable pub rename : Bytes → Bytes → Disk → Disk
rename from to disk = elim (disk from) [
  | none ↦ disk
  | some content ↦ put to content (remove from disk)
]

abbrev pub exists : Bytes → Disk → Bool
exists path disk = elim (disk path) [ none ↦ false | some content ↦ true ]

abbrev pub under : Bytes → Bytes → Bytes
under dir name = dir ++ b'/' ∷ name

abbrev pub path_for : Layout → Bytes → Bytes → Bytes
path_for l seed slot = under l.dir (ap_bundle_filename seed slot)

abbrev pub bak_of : Bytes → Bytes
bak_of path = path ++ codes ".bak"

abbrev pub tmp_of : Bytes → Bytes
tmp_of path = path ++ codes ".tmp"
