-- ===== src/Tests/Password.antt =====
-- internal/ui/password/password.go at concrete keys.
use underground_node_network.Base.{
  [], ◌∷◌, ◌≡◌, ◌⊎◌, refl, returns, arith, true, false, none, some, slice,
}
use underground_node_network.Text.{runes, text_eq}
use underground_node_network.Ui.LineEdit.{rune, enter, escape, insert_rune, backspace}
use underground_node_network.Ui.Password.{PasswordEntry, handle_key, key, passes_lock, ui_run}
use underground_node_network.Ui.Password.Valid.{Handles, handle_key-Within}
use underground_node_network.Ui.Password.Locked.{passes_lock-refuses}

abbrev entry : PasswordEntry
entry = record { prompt = []; line = record { value = runes "key"; cursor = 3 } }

backspace_handled : Handles (handle_key entry backspace)
backspace_handled = handle_key-Within entry backspace (omega arith)

-- The right key and Enter, and the prompt still waits.
right_key_waits :
    passes_lock (runes "k") false false true (key (rune b'k') ∷ key enter ∷ []) ≡ returns none
unfolding passes_lock ui_run insert_rune slice text_eq
right_key_waits = refl

passes_lock-refuses_example :
    (passes_lock (runes "k") false false true (key (rune b'k') ∷ key escape ∷ []) ≡ returns none)
    ⊎ (passes_lock (runes "k") false false true (key (rune b'k') ∷ key escape ∷ [])
        ≡ returns (some false))
passes_lock-refuses_example =
    passes_lock-refuses (runes "k") (key (rune b'k') ∷ key escape ∷ []) (cc)
