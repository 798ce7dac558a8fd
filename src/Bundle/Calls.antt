-- ===== src/Bundle/Calls.antt =====
-- The calls on `ApSaveBundleStore` for one run, and the shapes of their answers, in
-- src/mth/core/save/ap_save_bundle.cpp.
use mth_apclient.Base.{
  ℕ, ◌≡◌, Bool, true, false, [], Bytes, refl, not, Option, none, some, if◌then◌else◌, ◌⊎◌, inl, inr,
  arith,
}
use mth_apclient.Bundle.{Store, Weather, empty_cache, Disk, new_writer, Payload}
use mth_apclient.Bundle.Names.{looks_like_save_blob}

pub data Call : Type 0 where
  call_load : (ℕ → Weather) → Call
  call_store : (ℕ → Weather) → Bytes → Call
  call_load_state : (ℕ → Weather) → Call
  call_stage_state : (ℕ → Weather) → Bytes → Call

-- The store as it is made over a disk.
abbrev pub new_store : Disk → Store
new_store disk = record {
  state_staged = false;
  cache = empty_cache;
  queue = [];
  last_write_ok = true;
  writer = new_writer;
  disk = disk;
  next_address = 0;
}

abbrev pub load_answer : Option Payload → Store → Option Bytes × Store
load_answer found loaded = elim found [
  | none ↦ (none, loaded)
  | some p ↦ if not (looks_like_save_blob p.bytes) then (none, loaded) else (some p.bytes, loaded)
]

pub if_store :
    (b : Bool) (x y : Option Bytes × Store) (s : Store)
    → x.1 ≡ s
    → y.1 ≡ s
    → (if b then x else y).1 ≡ s
if_store true x y s p q = p
if_store false x y s p q = q

pub if_true : {A : Type 0} (b : Bool) (x y : A) → b ≡ true → (if b then x else y) ≡ x
if_true true x y e = refl
if_true false x y e = ground arith

pub load_answer-store : (o : Option Payload) (loaded : Store) → (load_answer o loaded).1 ≡ loaded
load_answer-store none loaded = refl
load_answer-store (some p) loaded =
    if_store (not (looks_like_save_blob p.bytes)) (none, loaded) (some p.bytes, loaded) loaded refl
      refl

abbrev pub state_answer : Option Payload → Store → Option Bytes × Store
state_answer found loaded = elim found [ none ↦ (none, loaded) | some p ↦ (some p.bytes, loaded) ]

pub state_answer-store : (o : Option Payload) (loaded : Store) → (state_answer o loaded).1 ≡ loaded
state_answer-store none loaded = refl
state_answer-store (some p) loaded = refl

pub store_answer_cases :
    (fits theirs : Bool) (s loaded : Store) (committed : Bool × Store)
    → theirs ≡ true
    → ((if not fits then (false, s) else if theirs then (false, loaded) else committed)
        ≡ (false, s))
      ⊎ ((if not fits then (false, s) else if theirs then (false, loaded) else committed)
          ≡ (false, loaded))
store_answer_cases false theirs s loaded committed e = inl refl
store_answer_cases true theirs s loaded committed e =
    inr (if_true theirs (false, loaded) committed e)
