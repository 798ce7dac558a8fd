-- ===== src/Bundle/Calm.antt =====
-- A write of src/mth/core/save/ap_save_bundle.cpp of which no call fails.
use mth_apclient.Base.{
  ℕ, ◌≡◌, ◌∙◌, ap, refl, Bool, true, false, ◌&&◌, not, Option, none, some, [], map, arith, ◌==◌,
  if◌then◌else◌, length, ==_iff, Bytes,
}
use mth_apclient.Bundle.{Weather, Disk, format_version, Json, Snapshot, Layout, Writer, Store}
use mth_apclient.Zip.{Zlib}
use mth_apclient.Zip.Packed.{pack}
use mth_apclient.Zip.Write.{write}
use mth_apclient.Bundle.Sessions.{store}
use mth_apclient.Bundle.Names.{looks_like_save_blob}
use mth_apclient.Bundle.Atomic.{for_key-IsCoherent}
use mth_apclient.Bundle.Blobs.{IsHeld, IsCoherent}
use mth_apclient.Bundle.Stages.{IsHonest}
use mth_apclient.Bundle.Reload.{store-commit}
use mth_apclient.Bundle.Write.{
  write_entries, replace, for_key, publish, Written, key_of, write_snapshot,
}
use mth_apclient.Bundle.Disks.{path_for}
use mth_apclient.Bundle.Crash.{files_of, write_entries-publish}
use mth_apclient.Bundle.Committed.{IsReady, commit_result, committed}

pub record IsCalm (weather : Weather) : Type 0 where
  pub creates : weather.create_fails ≡ false
  pub opens : weather.open_fails ≡ false
  pub closes : weather.close_fails ≡ false
  pub measures : weather.size_fails ≡ false
  pub replaces : weather.replace_fails ≡ false
  pub lands : (image : Bytes) → weather.landed image ≡ image

pub calm-IsHonest : (weather : Weather) → IsCalm weather → IsHonest weather
calm-IsHonest weather calm image h = calm.lands image

publish_ok :
    (weather : Weather) (final image : Bytes) (disk : Disk) (w : Writer)
    → IsCalm weather
    → (publish weather final image disk w).ok ≡ true
unfolding publish replace
publish_ok weather final image disk w calm =
    let whole : (length (weather.landed image) == length image) ≡ true =
      (==_iff (length (weather.landed image)) (length image)).1 (ap length (calm.lands image)) in
    rw (calm.opens, calm.closes, calm.measures, whole, calm.replaces) refl

-- The early returns of a write.
abbrev after_create : Bool → Writer → Written → Written
after_create fails w written =
    if fails then record { writer = w; ok = false; disks = [] } else written

abbrev after_print : Option Bytes → Writer → (Bytes → Written) → Written
after_print answer w written = elim answer [
  | none ↦ record { writer = w; ok = false; disks = [] }
  | some text ↦ written text
]

passed_ok :
    (fails : Bool) (answer : Option Bytes) (w v : Writer) (written : Bytes → Written) (text : Bytes)
    → fails ≡ false
    → answer ≡ some text
    → (written text).ok ≡ true
    → (after_create fails w (after_print answer v written)).ok ≡ true
passed_ok fails answer w v written text a b done =
    ap (λ f. (after_create f w (after_print answer v written)).ok) a
    ∙ ap (λ o. (after_print o v written).ok) b
    ∙ done

module _ (z : Zlib) (j : Json) (l : Layout) (heap : ℕ → Bytes) where
  write_snapshot_ok :
      (weather : Weather) (disk : Disk) (w : Writer) (snap : Snapshot) (text : Bytes)
      → IsCalm weather
      → j.dump format_version snap.seed snap.slot ≡ some text
      → IsCoherent z heap w
      → IsHeld heap snap.game_save
      → IsHeld heap snap.ap_state
      → (write_snapshot z j l weather disk w snap).ok ≡ true
  unfolding write_snapshot
  write_snapshot_ok weather disk w snap text calm printed ok save_held state_held =
      let keyed = for_key (key_of snap) w in
      let ready = record keyed { dir_ready = true } in
      let (w_state, coherent, same) =
        write_entries-publish z j l heap weather disk snap text ready
          (for_key-IsCoherent z heap (key_of snap) w ok) save_held state_held in
      let done =
        publish_ok weather (path_for l snap.seed snap.slot)
          (write (map (pack z) (files_of text snap))) disk w_state calm in
      passed_ok (not keyed.dir_ready && weather.create_fails)
        (j.dump format_version snap.seed snap.slot) keyed ready
        (λ t. write_entries z j l weather disk snap t ready) text
        (let c = calm.creates in ground arith) printed (ap (λ (r : Written). r.ok) same ∙ done)

  -- A commit of a save blob answers true when no call of its write fails and the manifest can be
  -- printed, for a store that has the run loaded from no file or a container of the run's own, has
  -- nothing queued, and whose payloads are sound.
  pub store_calm :
      (weather : ℕ → Weather) (blob text : Bytes) (s : Store)
      → IsReady z j l heap blob s
      → IsCalm (weather 0)
      → looks_like_save_blob blob ≡ true
      → j.dump format_version s.cache.seed s.cache.slot ≡ some text
      → (store z j l weather s.cache.seed s.cache.slot blob s).0 ≡ true
  store_calm weather blob text s ready calm fits printed =
      ap (λ (r : Bool × Store). r.0) (store-commit z j l weather blob s ready.loaded ready.own fits)
      ∙ (commit_result z j l weather blob s ready.settled).0
      ∙ write_snapshot_ok (weather 0) s.disk s.writer (committed blob s) text calm printed
          ready.coherent ready.free ready.state_held
