-- ===== src/Logins.antt =====
-- src/mth/core/login_prefs.cpp: the preferences of the login, as text. The file itself is what `save`
-- writes and `load` reads whole; the folder and the temporary file are left out.
pub mod Reload
use mth_apclient.Base.{
  ◌>>=◌, List, ℕ, ◌||◌, Option, none, some, [], ◌∷◌, ◌++◌, ◌==◌, if◌then◌else◌, codes, Bytes,
  eqb_bytes,
}

pub record LoginPrefs : Type 0 where
  pub server : Bytes
  pub slot : Bytes

abbrev pub no_prefs : LoginPrefs
no_prefs = record { server = []; slot = [] }

unfoldable pub one_line : Bytes → Bytes
one_line [] = []
one_line (c ∷ s) = let rest = one_line s in if (c == 10) || (c == 13) then [] else c ∷ rest

unfoldable pub set_prefs : Bytes → Bytes → LoginPrefs
unfolding one_line
set_prefs server slot = record { server = one_line server; slot = one_line slot }

abbrev pub with_front : ℕ → List Bytes → List Bytes
with_front c [] = (c ∷ []) ∷ []
with_front c (line ∷ lines) = (c ∷ line) ∷ lines

-- The lines that `getline` gives.
unfoldable pub split_lines : Bytes → List Bytes
split_lines [] = []
split_lines (c ∷ s) = let rest = split_lines s in if c == 10 then [] ∷ rest else with_front c rest

-- `line` without a '\r' at its end.
unfoldable pub without_return : Bytes → Bytes
without_return [] = []
without_return (c ∷ []) = if c == 13 then [] else c ∷ []
without_return (c ∷ d ∷ s) = c ∷ without_return (d ∷ s)

-- What stands before the first space, and behind it.
unfoldable pub split_space : Bytes → Option (Bytes × Bytes)
split_space [] = none
split_space (c ∷ s) =
    let rest = split_space s in
    if c == 32 then some ([], s) else (rest >>= λ r. some (c ∷ r.0, r.1))

unfoldable pub set_field : Bytes → Bytes → LoginPrefs → LoginPrefs
unfolding eqb_bytes
set_field key [] p = p
set_field key (c ∷ value) p =
    if eqb_bytes key (codes "server")
    then record p { server = c ∷ value }
    else if eqb_bytes key (codes "slot")
    then record p { slot = c ∷ value }
    else p

unfoldable pub load_line : Bytes → LoginPrefs → LoginPrefs
unfolding split_space without_return set_field
load_line line p = elim (split_space (without_return line)) [
  | none ↦ p
  | some (key, value) ↦ set_field key value p
]

unfoldable pub load_lines : List Bytes → LoginPrefs → LoginPrefs
unfolding load_line
load_lines [] p = p
load_lines (line ∷ lines) p = load_lines lines (load_line line p)

unfoldable pub load_text : Bytes → LoginPrefs → LoginPrefs
unfolding split_lines load_lines
load_text text p = load_lines (split_lines text) p

abbrev pub field_text : Bytes → Bytes → Bytes
field_text key [] = []
field_text key (c ∷ value) = key ++ 32 ∷ c ∷ value ++ 10 ∷ []

unfoldable pub save_text : LoginPrefs → Bytes
save_text p = field_text (codes "server") p.server ++ field_text (codes "slot") p.slot
