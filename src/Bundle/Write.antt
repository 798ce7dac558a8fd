-- ===== src/Bundle/Write.antt =====
-- `write_snapshot` of src/mth/core/save/ap_save_bundle.cpp.
use mth_apclient.Base.{
  List, ℕ, ◌+◌, Bool, true, false, ◌&&◌, ◌||◌, not, Option, none, some, [], ◌∷◌, ◌++◌, ◌==◌,
  if◌then◌else◌, length, Bytes, eqb_bytes,
}
use mth_apclient.Bundle.{
  Snapshot, Disk, Json, CachedBlob, entry_manifest, entry_state, Writer, Payload, entry_save,
  format_version, Weather, Layout,
}
use mth_apclient.Zip.{Blob, compress, Zlib}
use mth_apclient.Zip.Write.{write}
use mth_apclient.Bundle.Disks.{path_for, rename, exists, tmp_of, put, remove, bak_of}

-- What a write leaves: the writer, its answer, and the disk after each call that changes it.
pub record Written : Type 0 where
  pub writer : Writer
  pub ok : Bool
  pub disks : List Disk

abbrev pub last_disk : Disk → List Disk → Disk
last_disk disk [] = disk
last_disk disk (d ∷ ds) = last_disk d ds

abbrev pub key_of : Snapshot → Bytes
key_of snap = snap.seed ++ 0 ∷ snap.slot

-- A new key forgets the blobs and the backup.
unfoldable pub for_key : Bytes → Writer → Writer
unfolding eqb_bytes
for_key key w =
    if not (eqb_bytes key w.writer_key)
    then record w { writer_key = key; writer_blobs = []; writer_backed_up = false }
    else w

unfoldable pub find_blob : Bytes → List (Bytes × CachedBlob) → Option CachedBlob
unfolding eqb_bytes
find_blob name [] = none
find_blob name ((n, cached) ∷ blobs) =
    let rest = find_blob name blobs in if eqb_bytes name n then some cached else rest

abbrev pub payload_count : Option Payload → ℕ
payload_count none = 0
payload_count (some p) = 1

-- The calls of the rotation and the replace, behind a temporary file that is complete.
unfoldable pub replace : Weather → Bytes → Disk → Writer → Written
unfolding rename remove
replace weather final disk w =
    let rotates = not w.writer_backed_up && (not weather.exists_fails && exists final disk) in
    let rotated =
      if rotates && not weather.rotate_fails then rename final (bak_of final) disk else disk in
    let cleaned = if weather.remove_fails then rotated else remove (tmp_of final) rotated in
    let next = if rotates then record w { writer_backed_up = true } else w in
    if weather.replace_fails
    then record { writer = next; ok = false; disks = rotated ∷ cleaned ∷ [] }
    else record {
      writer = next;
      ok = true;
      disks = rotated ∷ rename (tmp_of final) final rotated ∷ [];
    }

-- The image goes to the temporary file first.
unfoldable pub publish : Weather → Bytes → Bytes → Disk → Writer → Written
unfolding put remove replace
publish weather final image disk w =
    let partial = put (tmp_of final) weather.partial disk in
    let closed = put (tmp_of final) (weather.landed image) disk in
    let cleaned = if weather.remove_fails then closed else remove (tmp_of final) closed in
    let short = weather.size_fails || not (length (weather.landed image) == length image) in
    let replaced = replace weather final closed w in
    if weather.open_fails
    then record { writer = w; ok = false; disks = [] }
    else if weather.close_fails || short
    then record { writer = w; ok = false; disks = partial ∷ closed ∷ cleaned ∷ [] }
    else record replaced { disks = partial ∷ closed ∷ replaced.disks }

module _ (z : Zlib) where
  -- The lambda `emit`: the blob of a payload, from the writer's own where it is of the same address.
  unfoldable pub emit : Bytes → Option Payload → Writer → List Blob × Writer
  unfolding find_blob
  emit name none w = ([], w)
  emit name (some value) w =
      let blob = compress z name value.bytes in
      let made : CachedBlob = record { source = value; blob = blob } in
      let fresh : List Blob × Writer =
        (blob ∷ [], record w { writer_blobs = (name, made) ∷ w.writer_blobs }) in
      elim (find_blob name w.writer_blobs) [
        | none ↦ fresh
        | some cached ↦
            if cached.source.address == value.address then (cached.blob ∷ [], w) else fresh
      ]

  module _ (j : Json) (l : Layout) where
    -- The rest of a write, behind the manifest's text.
    unfoldable pub write_entries : Weather → Disk → Snapshot → Bytes → Writer → Written
    unfolding emit publish
    write_entries weather disk snap text w =
        let (save_blobs, w_save) = emit entry_save snap.game_save w in
        let (state_blobs, w_state) = emit entry_state snap.ap_state w_save in
        let blobs = compress z entry_manifest text ∷ (save_blobs ++ state_blobs) in
        let expected = 1 + payload_count snap.game_save + payload_count snap.ap_state in
        if not (length blobs == expected)
        then record { writer = w_state; ok = false; disks = [] }
        else publish weather (path_for l snap.seed snap.slot) (write blobs) disk w_state

    unfoldable pub write_snapshot : Weather → Disk → Writer → Snapshot → Written
    unfolding for_key write_entries
    write_snapshot weather disk w0 snap =
        let w = for_key (key_of snap) w0 in
        let ready = record w { dir_ready = true } in
        if not w.dir_ready && weather.create_fails
        then record { writer = w; ok = false; disks = [] }
        else elim (j.dump format_version snap.seed snap.slot) [
          | none ↦ record { writer = ready; ok = false; disks = [] }
          | some text ↦ write_entries weather disk snap text ready
        ]
