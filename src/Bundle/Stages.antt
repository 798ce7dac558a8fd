-- ===== src/Bundle/Stages.antt =====
-- The disks that `publish` goes through, in src/mth/core/save/ap_save_bundle.cpp.
use mathlib.Core.Bool.{false≢true}
use mth_apclient.Base.{
  ◌≡◌, ◌∙◌, sym, ◌⊎◌, inl, inr, refl, Bool, true, false, ◌&&◌, not, none, some, [], ◌∷◌,
  if◌then◌else◌, length, Option-cases, All, Bytes, and_parts, ℕ, ap, ◌||◌, arith, ◌==◌, Option,
}
use mth_apclient.Bundle.{Disk, Writer, Weather}
use mth_apclient.Bundle.Places.{
  rename-other, rename-to, tmp_IsOther-path, put-other, remove-other, path-IsOther-bak,
  bak_IsOther-tmp, path-IsOther-tmp, rename-from, tmp_IsOther-bak, put-same,
}
use mth_apclient.Bundle.Write.{replace, Written, last_disk, publish}
use mth_apclient.Bundle.Disks.{remove, rename, bak_of, tmp_of, exists, put}

-- What a disk has at a container's two places, beside another that a write began with.
abbrev pub Kept : Bytes → Disk → Disk → Type 0
Kept final start d = (d final ≡ start final) × (d (bak_of final) ≡ start (bak_of final))

abbrev pub Rotated : Bytes → Disk → Disk → Type 0
Rotated final start d =
    (content : Bytes) × (start final ≡ some content)
    × (d final ≡ none)
    × (d (bak_of final) ≡ some content)

-- Before the replace, and in all.
abbrev pub IsOld : Bytes → Disk → Disk → Type 0
IsOld final start d = Kept final start d ⊎ Rotated final start d

abbrev pub IsStage : Bytes → Bytes → Disk → Disk → Type 0
IsStage final image start d = IsOld final start d ⊎ (d final ≡ some image)

-- A stream that closed with all of an image's bytes left the image.
abbrev pub IsHonest : Weather → Type 0
IsHonest weather =
    (image : Bytes) → length (weather.landed image) ≡ length image → weather.landed image ≡ image

abbrev is_there : Option Bytes → Bool
is_there none = false
is_there (some content) = true

module _ (final : Bytes) (start : Disk) where
  IsOld-put :
      (d : Disk) (content : Bytes)
      → IsOld final start d
      → IsOld final start (put (tmp_of final) content d)
  IsOld-put d content (inl (a, b)) = inl (
    put-other d (tmp_of final) final content (path-IsOther-tmp final) ∙ a,
    put-other d (tmp_of final) (bak_of final) content (bak_IsOther-tmp final) ∙ b,
  )
  IsOld-put d content (inr (c, s, a, b)) = inr (
    c,
    s,
    put-other d (tmp_of final) final content (path-IsOther-tmp final) ∙ a,
    put-other d (tmp_of final) (bak_of final) content (bak_IsOther-tmp final) ∙ b,
  )

  IsOld-remove : (d : Disk) → IsOld final start d → IsOld final start (remove (tmp_of final) d)
  IsOld-remove d (inl (a, b)) = inl (
    remove-other d (tmp_of final) final (path-IsOther-tmp final) ∙ a,
    remove-other d (tmp_of final) (bak_of final) (bak_IsOther-tmp final) ∙ b,
  )
  IsOld-remove d (inr (c, s, a, b)) = inr (
    c,
    s,
    remove-other d (tmp_of final) final (path-IsOther-tmp final) ∙ a,
    remove-other d (tmp_of final) (bak_of final) (bak_IsOther-tmp final) ∙ b,
  )

  IsOld-clean :
      (fails : Bool) (d : Disk)
      → IsOld final start d
      → IsOld final start (if fails then d else remove (tmp_of final) d)
  IsOld-clean true d h = h
  IsOld-clean false d h = IsOld-remove d h

  IsOld-rotate :
      (d : Disk)
      → Kept final start d
      → exists final d ≡ true
      → IsOld final start (rename final (bak_of final) d)
  IsOld-rotate d (a, b) e = elim (Option-cases (d final)) [
    | inl no_file ↦ absurd (false≢true (sym (ap is_there no_file) ∙ e))
    | inr (content, file) ↦ inr (
      content,
      sym a ∙ file,
      rename-from d final (bak_of final) content (path-IsOther-bak final) file,
      rename-to d final (bak_of final) content file,
    )
  ]

  -- The rotation, where it is made and goes well.
  IsOld-rotated :
      (rotates ok : Bool) (d : Disk)
      → Kept final start d
      → (rotates ≡ true → exists final d ≡ true)
      → IsOld final start (if rotates && ok then rename final (bak_of final) d else d)
  IsOld-rotated true true d h e = IsOld-rotate d h (e refl)
  IsOld-rotated true false d h e = inl h
  IsOld-rotated false ok d h e = inl h

  rotated_tmp :
      (rotates : Bool) (d : Disk) (content : Bytes)
      → d (tmp_of final) ≡ some content
      → (if rotates then rename final (bak_of final) d else d) (tmp_of final) ≡ some content
  rotated_tmp true d content e =
      rename-other d final (bak_of final) (tmp_of final) (tmp_IsOther-path final)
        (tmp_IsOther-bak final)
      ∙ e
  rotated_tmp false d content e = e

  -- How a write ended: with the image in place, or with what there was.
  abbrev pub IsEnd : Bytes → Bool → Disk → Type 0
  IsEnd image ok d = if ok then d final ≡ some image else IsOld final start d

  abbrev pub Passes : Bytes → Disk → Written → Type 0
  Passes image disk written =
      All (IsStage final image start) written.disks
      × IsEnd image written.ok (last_disk disk written.disks)

  replace-Passes :
      (weather : Weather) (image : Bytes) (d : Disk) (w : Writer)
      → Kept final start d
      → d (tmp_of final) ≡ some image
      → Passes image d (replace weather final d w)
  unfolding replace
  replace-Passes weather image d w h tmp =
      let going = not w.writer_backed_up && (not weather.exists_fails && exists final d) in
      let there = λ (e : going ≡ true).
        (and_parts (not weather.exists_fails) (exists final d)
          (and_parts (not w.writer_backed_up) (not weather.exists_fails && exists final d)
            e).1).1 in
      let rotated =
        if going && not weather.rotate_fails then rename final (bak_of final) d else d in
      let old : IsOld final start rotated =
        IsOld-rotated going (not weather.rotate_fails) d h there in
      let moved : rename (tmp_of final) final rotated final ≡ some image =
        rename-to rotated (tmp_of final) final image
          (rotated_tmp (going && not weather.rotate_fails) d image tmp) in
      ended weather.replace_fails rotated
        (if weather.remove_fails then rotated else remove (tmp_of final) rotated)
        (rename (tmp_of final) final rotated)
        (if going then record w { writer_backed_up = true } else w) old
        (IsOld-clean weather.remove_fails rotated old) moved
    where
      ended :
          (fails : Bool) (rotated cleaned replaced : Disk) (next : Writer)
          → IsOld final start rotated
          → IsOld final start cleaned
          → replaced final ≡ some image
          → Passes image d (
              if fails
              then record { writer = next; ok = false; disks = rotated ∷ cleaned ∷ [] }
              else record { writer = next; ok = true; disks = rotated ∷ replaced ∷ [] })
      ended true rotated cleaned replaced next a b c = ((inl a, (inl b, tt)), b)
      ended false rotated cleaned replaced next a b c = ((inl a, (inr c, tt)), c)

  publish_ended :
      (opens closes : Bool) (image : Bytes) (partial closed cleaned : Disk) (w : Writer)
      (replaced : Written)
      → IsOld final start partial
      → IsOld final start closed
      → IsOld final start cleaned
      → (closes ≡ false → Passes image closed replaced)
      → Passes image start (
          if opens
          then record { writer = w; ok = false; disks = [] }
          else if closes
          then record { writer = w; ok = false; disks = partial ∷ closed ∷ cleaned ∷ [] }
          else record replaced { disks = partial ∷ closed ∷ replaced.disks })
  publish_ended true closes image partial closed cleaned w replaced a b c rest =
      (tt, inl (refl, refl))
  publish_ended false true image partial closed cleaned w replaced a b c rest =
      ((inl a, (inl b, (inl c, tt))), c)
  publish_ended false false image partial closed cleaned w replaced a b c rest =
      let r = rest refl in ((inl a, (inl b, r.0)), r.1)

  pub publish-Passes :
      (weather : Weather) (image : Bytes) (w : Writer)
      → IsHonest weather
      → Passes image start (publish weather final image start w)
  unfolding publish
  publish-Passes weather image w honest =
      let same : IsOld final start start = inl (refl, refl) in
      let partial = IsOld-put start weather.partial same in
      let closed = IsOld-put start (weather.landed image) same in
      let kept : Kept final start (put (tmp_of final) (weather.landed image) start) = (
        put-other start (tmp_of final) final (weather.landed image) (path-IsOther-tmp final),
        put-other start (tmp_of final) (bak_of final) (weather.landed image)
            (bak_IsOther-tmp final),
      ) in
      let short = weather.size_fails || not (length (weather.landed image) == length image) in
      publish_ended weather.open_fails (weather.close_fails || short) image
        (put (tmp_of final) weather.partial start) (put (tmp_of final) (weather.landed image) start)
        (if weather.remove_fails
          then put (tmp_of final) (weather.landed image) start
          else remove (tmp_of final) (put (tmp_of final) (weather.landed image) start))
        w (replace weather final (put (tmp_of final) (weather.landed image) start) w) partial closed
        (IsOld-clean weather.remove_fails (put (tmp_of final) (weather.landed image) start) closed)
        (λ e.
          replace-Passes weather image (put (tmp_of final) (weather.landed image) start) w kept (
            put-same start (tmp_of final) (weather.landed image)
            ∙ ap some (
                honest image (
                  whole weather.close_fails weather.size_fails (length (weather.landed image))
                    (length image) e))))
    where
      whole : (a b : Bool) (m n : ℕ) → (a || (b || not (m == n))) ≡ false → m ≡ n
      whole a b m n h = ground arith
