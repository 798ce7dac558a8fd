-- ===== src/Examples/Queues.antt =====
-- Runs of src/mth/features/item_granter.cpp and src/mth/core/login_prefs.cpp.
use mth_apclient.Base.{List, ◌≡◌, refl, true, false, [], ◌∷◌, pos, codes}
use mth_apclient.ItemQueue.{Scene}
use mth_apclient.Logins.{no_prefs, load_text, save_text, set_prefs}
use mth_apclient.Logins.Reload.{load_text-save_text}
use mth_apclient.ItemQueue.Accounts.{
  IsBalanced, Step, no_tally, tally_steps-IsBalanced, discarding, draining, tally_steps, granting,
}

abbrev in_game : Scene
in_game = record { callable = true; has_player = true; has_position = true; has_sink = true }

abbrev loading_screen : Scene
loading_screen = record {
  callable = true;
  has_player = true;
  has_position = false;
  has_sink = true;
}

abbrev steps : List Step
steps =
    granting in_game (pos 14) (pos 3)
    ∷ draining loading_screen
    ∷ granting in_game (pos 0) (pos 3)
    ∷ discarding
    ∷ granting in_game (pos 15) (pos 3)
    ∷ draining in_game
    ∷ []

tally_steps-IsBalanced_example : IsBalanced (pos 3) (tally_steps (pos 3) steps ([], no_tally))
tally_steps-IsBalanced_example =
    tally_steps-IsBalanced (pos 3) steps refl (refl, (refl, (refl, (tt, (refl, (refl, tt))))))

load_text-save_text_example :
    load_text (save_text (set_prefs (codes "host:1") (codes "Mina of Sea"))) no_prefs
    ≡ set_prefs (codes "host:1") (codes "Mina of Sea")
load_text-save_text_example = load_text-save_text (codes "host:1") (codes "Mina of Sea")
