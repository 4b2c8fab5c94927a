-- ===== src/Ui/Password.antt =====
-- internal/ui/password/password.go: the prompt inside the terminal interface, and the full-screen
-- prompt that a locked room shows (internal/sshserver/server.go, handleInteraction).
pub mod Valid
pub mod Locked
use underground_node_network.Base.{
  ◌+◌, [], ◌∷◌, List, Bool, true, false, not, ◌&&◌, Outcome, returns, ◌>>=◌, if◌then◌else◌, Option,
  some, none,
}
use underground_node_network.Text.{Text, text_eq}
use underground_node_network.Ui.LineEdit.{
  Key, enter, escape, ctrl_c, backspace, backspace2, delete, left, right, home, end, rune, Line,
  erase_left, erase_right, move_left, move_right, move_home, move_end, insert_rune,
}

-- `line` is the entry's value and cursor.
pub record PasswordEntry : Type 0 where
  pub prompt : Text
  pub line : Line

-- The new entry, whether it is done, the value, and whether it was cancelled.
abbrev pub Handled : Type 0
Handled = PasswordEntry × Bool × Text × Bool

abbrev edited : PasswordEntry → Outcome Line → Outcome Handled
edited p m = m >>= λ l. returns (record p { line = l }, false, [], false)

unfoldable pub handle_key : PasswordEntry → Key → Outcome Handled
handle_key p escape = returns (p, true, [], true)
handle_key p ctrl_c = returns (p, true, [], true)
handle_key p enter = returns (p, true, p.line.value, false)
handle_key p backspace = edited p (erase_left p.line)
handle_key p backspace2 = edited p (erase_left p.line)
handle_key p delete = edited p (erase_right p.line)
handle_key p left = edited p (returns (move_left p.line))
handle_key p right = edited p (returns (move_right p.line))
handle_key p home = edited p (returns (move_home p.line))
handle_key p end = edited p (returns (move_end p.line))
handle_key p (rune r) = edited p (insert_rune p.line r)
handle_key p _ = returns (p, false, [], false)

-- What the loop of PasswordUI.Run meets: a key, a resize, the end of the screen's events, or the
-- prompt closed from outside.
pub data Event : Type 0 where
  key : Key → Event
  resize : Event
  finished : Event
  closed : Event

-- The edit of one key in PasswordUI.Run; the keys that it does not name leave the line as it is.
unfoldable pub ui_edit : Line → Key → Outcome Line
ui_edit l backspace = erase_left l
ui_edit l backspace2 = erase_left l
ui_edit l delete = erase_right l
ui_edit l left = returns (move_left l)
ui_edit l right = returns (move_right l)
ui_edit l home = returns (move_home l)
ui_edit l end = returns (move_end l)
ui_edit l (rune r) = insert_rune l r
ui_edit l _ = returns l

-- Whether a key ends the prompt: Ctrl+C and Escape do.
unfoldable pub cancels : Key → Bool
cancels ctrl_c = true
cancels escape = true
cancels _ = false

-- The text that PasswordUI.Run returns after these events, or `none` while it still waits.
unfoldable pub ui_run : Line → List Event → Outcome (Option Text)
unfolding ui_edit cancels
ui_run l [] = returns none
ui_run l (closed ∷ es) = returns none
ui_run l (finished ∷ es) = returns (some [])
ui_run l (resize ∷ es) = ui_run l es
ui_run l (key k ∷ es) = elim (cancels k) [
  | true ↦ returns (some [])
  | false ↦ ui_edit l k >>= λ m. ui_run m es
]

-- handleInteraction's test of the room's lock: `none` while the prompt waits, else whether the
-- person may go on. Where the screen cannot be set up, nothing is asked.
unfoldable pub passes_lock : Text → Bool → Bool → Bool → List Event → Outcome (Option Bool)
passes_lock lock_key is_op headless screen_ok es =
    if not (text_eq lock_key []) && not is_op && not headless && screen_ok
    then (ui_run (record { value = []; cursor = 0 }) es >>= λ r.
        returns (elim r [ none ↦ none | some entered ↦ some (text_eq entered lock_key) ]))
    else returns (some true)
