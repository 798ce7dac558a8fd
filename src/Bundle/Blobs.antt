-- ===== src/Bundle/Blobs.antt =====
-- The writer's compressed entries, in `write_snapshot` of src/mth/core/save/ap_save_bundle.cpp.
use mathlib.Core.Path.{subst}
use mathlib.Core.Option.{some-injective}
use mth_apclient.Base.{
  List, ℕ, ◌≡◌, ◌∙◌, ap, sym, inl, inr, refl, Bool, true, false, Option, none, some, [], ◌∷◌, map,
  arith, ◌==◌, if◌then◌else◌, Bool-cases, All, ==_iff, Bytes, Option-cases, eqb_bytes, eqb_bytes-eq,
}
use mth_apclient.Bundle.{CachedBlob, Payload, Writer}
use mth_apclient.Zip.{Entry, Blob, Zlib, compress}
use mth_apclient.Zip.Packed.{pack}
use mth_apclient.Bundle.Write.{emit, find_blob}

-- A payload's bytes are those that stand at its address.
abbrev pub IsHeld : (ℕ → Bytes) → Option Payload → Type 0
IsHeld heap none = Unit
IsHeld heap (some p) = heap p.address ≡ p.bytes

-- Each compressed entry is that of the payload it came from.
abbrev pub IsCurrent : Zlib → (ℕ → Bytes) → Bytes × CachedBlob → Type 0
IsCurrent z heap (name, cached) =
    (heap cached.source.address ≡ cached.source.bytes)
    × (cached.blob ≡ compress z name cached.source.bytes)

abbrev pub IsCoherent : Zlib → (ℕ → Bytes) → Writer → Type 0
IsCoherent z heap w = All (IsCurrent z heap) w.writer_blobs

-- The entry of a payload, compressed from the payload itself.
abbrev pub plain : Bytes → Option Payload → List Entry
plain name none = []
plain name (some p) = record { name = name; content = p.bytes } ∷ []

module _ (z : Zlib) (heap : ℕ → Bytes) where
  find_blob-IsCurrent :
      (name : Bytes) (blobs : List (Bytes × CachedBlob)) (cached : CachedBlob)
      → All (IsCurrent z heap) blobs
      → find_blob name blobs ≡ some cached
      → IsCurrent z heap (name, cached)
  unfolding find_blob
  find_blob-IsCurrent name [] cached ok e = ground arith
  find_blob-IsCurrent name ((n, c) ∷ blobs) cached ok e = elim (Bool-cases (eqb_bytes name n)) [
    | inl same ↦
        let it : c ≡ cached =
          some-injective c cached (sym (then_some (some c) (find_blob name blobs) same) ∙ e) in
        subst (λ k. IsCurrent z heap (name, k)) it
          (subst (λ m. IsCurrent z heap (m, c)) (sym (eqb_bytes-eq name n same)) ok.0)
    | inr other ↦
        find_blob-IsCurrent name blobs cached ok.1
          (sym (else_rest (some c) (find_blob name blobs) other) ∙ e)
  ]
    where
      then_some : {b : Bool} (x y : Option CachedBlob) → b ≡ true → (if b then x else y) ≡ x
      then_some x y h = rw h refl

      else_rest : {b : Bool} (x y : Option CachedBlob) → b ≡ false → (if b then x else y) ≡ y
      else_rest x y h = rw h refl

  abbrev IsPlain : Bytes → Option Payload → List Blob × Writer → Type 0
  IsPlain name value (blobs, w) = (blobs ≡ map (pack z) (plain name value)) × IsCoherent z heap w

  abbrev fresh_blob : Bytes → Payload → Writer → List Blob × Writer
  fresh_blob name p w = (
    compress z name p.bytes ∷ [],
    record w {
      writer_blobs = (name, record { source = p; blob = compress z name p.bytes }) ∷ w.writer_blobs;
    },
  )

  reused_IsPlain :
      (name : Bytes) (p : Payload) (w : Writer) (cached : CachedBlob) (same : Bool)
      → IsCoherent z heap w
      → heap p.address ≡ p.bytes
      → IsCurrent z heap (name, cached)
      → (cached.source.address == p.address) ≡ same
      → IsPlain name (some p) (if same then (cached.blob ∷ [], w) else fresh_blob name p w)
  reused_IsPlain name p w cached true ok held here e =
      let at = (==_iff cached.source.address p.address).0 e in
      let bytes : cached.source.bytes ≡ p.bytes = sym (here.0) ∙ ap heap at ∙ held in
      (ap (λ b. b ∷ []) (here.1 ∙ ap (compress z name) bytes), ok)
  reused_IsPlain name p w cached false ok held here e = (refl, ((held, refl), ok))

  pub emit-IsPlain :
      (name : Bytes) (value : Option Payload) (w : Writer)
      → IsCoherent z heap w
      → IsHeld heap value
      → IsPlain name value (emit z name value w)
  unfolding emit
  emit-IsPlain name none w ok held = (refl, ok)
  emit-IsPlain name (some p) w ok held = elim (Option-cases (find_blob name w.writer_blobs)) [
    | inl e ↦ subst (λ o. IsPlain name (some p) (answer o)) (sym e) (refl, ((held, refl), ok))
    | inr (cached, e) ↦
        subst (λ o. IsPlain name (some p) (answer o)) (sym e)
          (reused_IsPlain name p w cached (cached.source.address == p.address) ok held
            (find_blob-IsCurrent name w.writer_blobs cached ok e) refl)
  ]
    where
      answer : Option CachedBlob → List Blob × Writer
      answer found = elim found [
        | none ↦ fresh_blob name p w
        | some cached ↦
            if cached.source.address == p.address
            then (cached.blob ∷ [], w)
            else fresh_blob name p w
      ]
