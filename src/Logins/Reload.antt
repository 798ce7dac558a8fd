-- ===== src/Logins/Reload.antt =====
-- A reload of what was saved, in src/mth/core/login_prefs.cpp.
use mathlib.Core.Path.{subst}
use mth_apclient.Base.{
  ℕ, ◌≡◌, ap, sym, inl, inr, refl, true, false, ◌||◌, [], ◌∷◌, ◌++◌, ◌==◌, if◌then◌else◌,
  Bool-cases, All, codes, Bytes, or_parts, eqb_bytes, ◌∙◌, none, some, append-assoc_lem,
}
use mth_apclient.Logins.{
  field_text, split_space, LoginPrefs, without_return, load_text, no_prefs, set_field, one_line,
  save_text, set_prefs, load_line, load_lines, split_lines,
}

abbrev IsLine : Bytes → Type 0
IsLine s = All (λ c. ((c == 10) ≡ false) × ((c == 13) ≡ false)) s

one_line-IsLine : (s : Bytes) → IsLine (one_line s)
unfolding one_line
one_line-IsLine [] = tt
one_line-IsLine (c ∷ s) = elim (Bool-cases ((c == 10) || (c == 13))) [
  | inl e ↦ subst IsLine (sym (then_of e)) tt
  | inr e ↦ subst IsLine (sym (else_rest e)) (or_parts (c == 10) (c == 13) e, one_line-IsLine s)
]
  where
    then_of :
        ((c == 10) || (c == 13)) ≡ true
        → (if (c == 10) || (c == 13) then [] else c ∷ one_line s) ≡ []
    then_of e = rw e refl

    else_rest :
        ((c == 10) || (c == 13)) ≡ false
        → (if (c == 10) || (c == 13) then [] else c ∷ one_line s) ≡ c ∷ one_line s
    else_rest e = rw e refl

split_lines-append :
    (line rest : Bytes) → IsLine line → split_lines (line ++ 10 ∷ rest) ≡ line ∷ split_lines rest
unfolding split_lines
split_lines-append [] rest h = refl
split_lines-append (c ∷ line) rest h = rw (h.0.0, split_lines-append line rest h.1) refl

without_return-IsLine : (line : Bytes) → IsLine line → without_return line ≡ line
unfolding without_return
without_return-IsLine [] h = refl
without_return-IsLine (c ∷ []) h = rw h.0.1 refl
without_return-IsLine (c ∷ d ∷ s) h = ap (◌∷◌ c) (without_return-IsLine (d ∷ s) h.1)

abbrev by_space : LoginPrefs → Bytes → LoginPrefs
by_space p line = elim (split_space line) [ none ↦ p | some (key, value) ↦ set_field key value p ]

load_line-IsLine :
    (line : Bytes) (p : LoginPrefs) → IsLine line → load_line line p ≡ by_space p line
unfolding load_line
load_line-IsLine line p h = ap (by_space p) (without_return-IsLine line h)

abbrev server_line : Bytes → Bytes
server_line value = codes "server" ++ 32 ∷ value

abbrev slot_line : Bytes → Bytes
slot_line value = codes "slot" ++ 32 ∷ value

server_line-IsLine : (value : Bytes) → IsLine value → IsLine (server_line value)
server_line-IsLine value h = (
  (refl, refl),
  ((refl, refl), ((refl, refl), ((refl, refl), ((refl, refl), ((refl, refl), ((refl, refl), h)))))),
)

slot_line-IsLine : (value : Bytes) → IsLine value → IsLine (slot_line value)
slot_line-IsLine value h =
    ((refl, refl), ((refl, refl), ((refl, refl), ((refl, refl), ((refl, refl), h)))))

load_server :
    (c : ℕ) (value : Bytes) (p : LoginPrefs)
    → IsLine (c ∷ value)
    → load_line (server_line (c ∷ value)) p ≡ record p { server = c ∷ value }
load_server c value p h =
    load_line-IsLine (server_line (c ∷ value)) p (server_line-IsLine (c ∷ value) h)
    ∙ unfold split_space set_field eqb_bytes in refl

load_slot :
    (c : ℕ) (value : Bytes) (p : LoginPrefs)
    → IsLine (c ∷ value)
    → load_line (slot_line (c ∷ value)) p ≡ record p { slot = c ∷ value }
load_slot c value p h =
    load_line-IsLine (slot_line (c ∷ value)) p (slot_line-IsLine (c ∷ value) h)
    ∙ unfold split_space set_field eqb_bytes in refl

server_lines :
    (c : ℕ) (value rest : Bytes)
    → IsLine (c ∷ value)
    → split_lines (field_text (codes "server") (c ∷ value) ++ rest)
      ≡ server_line (c ∷ value) ∷ split_lines rest
server_lines c value rest h =
    ap (λ s. split_lines (server_line (c ∷ s))) (append-assoc_lem value (10 ∷ []) rest)
    ∙ split_lines-append (server_line (c ∷ value)) rest (server_line-IsLine (c ∷ value) h)

slot_lines :
    (c : ℕ) (value : Bytes)
    → IsLine (c ∷ value)
    → split_lines (field_text (codes "slot") (c ∷ value)) ≡ slot_line (c ∷ value) ∷ []
slot_lines c value h =
    split_lines-append (slot_line (c ∷ value)) [] (slot_line-IsLine (c ∷ value) h)
    ∙ unfold split_lines in refl

abbrev prefs_of : Bytes → Bytes → LoginPrefs
prefs_of server slot = record { server = server; slot = slot }

load_slot_text :
    (slot : Bytes) (p : LoginPrefs)
    → IsLine slot
    → p.slot ≡ []
    → load_lines (split_lines (field_text (codes "slot") slot)) p ≡ prefs_of p.server slot
unfolding load_lines
load_slot_text [] p h e = unfold split_lines in ap (prefs_of p.server) e
load_slot_text (c ∷ slot) p h e =
    ap (λ lines. load_lines lines p) (slot_lines c slot h) ∙ load_slot c slot p h

reload :
    (server slot : Bytes)
    → IsLine server
    → IsLine slot
    → load_text (save_text (prefs_of server slot)) no_prefs ≡ prefs_of server slot
unfolding load_text save_text load_lines
reload [] slot h k = load_slot_text slot no_prefs k refl
reload (c ∷ server) slot h k =
    ap (λ lines. load_lines lines no_prefs)
      (server_lines c server (field_text (codes "slot") slot) h)
    ∙ ap (λ p. load_lines (split_lines (field_text (codes "slot") slot)) p)
        (load_server c server no_prefs h)
    ∙ load_slot_text slot (prefs_of (c ∷ server) []) k refl

-- Whatever texts are set, spaces and ends of lines in them included, a reload of the saved text
-- gives the preferences that are held in memory.
pub load_text-save_text :
    (server slot : Bytes)
    → load_text (save_text (set_prefs server slot)) no_prefs ≡ set_prefs server slot
unfolding set_prefs
load_text-save_text server slot =
    reload (one_line server) (one_line slot) (one_line-IsLine server) (one_line-IsLine slot)
