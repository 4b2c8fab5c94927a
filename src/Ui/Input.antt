-- ===== src/Ui/Input.antt =====
-- internal/ui/input/input.go: the command line with its history.
pub mod Valid
pub mod Recall
use underground_node_network.Base.{
  ℕ, ◌+◌, ◌-◌, ◌∷◌, [], ◌++◌, List, Bool, true, false, Outcome, returns, panics, ◌>>=◌, ltb,
  if◌then◌else◌, length, Option, some, none, get_elem?,
}
use underground_node_network.Text.{Text, text_eq, trim_space}
use underground_node_network.Ui.LineEdit.{
  Key, enter, backspace, backspace2, delete, left, right, home, end, up, down, rune, Line,
  erase_left, erase_right, move_left, move_right, move_home, move_end, insert_rune,
}

-- `value` and `cursor_idx` are the line; `h_index` is the place in the history.
pub record CommandInput : Type 0 where
  pub prompt : Text
  pub line : Line
  pub history : List Text
  pub h_index : ℕ

pub new_command_input : Text → CommandInput
new_command_input prompt = record {
  prompt = prompt;
  line = record { value = []; cursor = 0 };
  history = [];
  h_index = 0;
}

-- i.History[k], which panics out of range.
unfoldable pub recall : CommandInput → ℕ → Outcome CommandInput
recall i k = elim (get_elem? i.history k) [
  | none ↦ panics
  | some v ↦ returns (record i { h_index = k; line = record { value = v; cursor = length v } })
]

-- i.Line = f(i.Line)
abbrev with_line : CommandInput → Line → CommandInput
with_line i l = record i { line = l }

-- The new state, whether a line was submitted, and the line.
abbrev pub Handled : Type 0
Handled = CommandInput × Bool × Text

abbrev edited : CommandInput → Outcome Line → Outcome Handled
edited i m = m >>= λ l. returns (record i { line = l }, false, [])

abbrev pub empty_line : Line
empty_line = record { value = []; cursor = 0 }

unfoldable pub submit : CommandInput → CommandInput
submit i =
    if text_eq (trim_space i.line.value) [] then record i { line = empty_line } else record i {
      line = empty_line;
      history = i.history ++ i.line.value ∷ [];
      h_index = length (i.history ++ i.line.value ∷ []);
    }

unfoldable pub handle_key : CommandInput → Key → Outcome Handled
unfolding submit recall
handle_key i enter = returns (submit i, true, i.line.value)
handle_key i backspace = edited i (erase_left i.line)
handle_key i backspace2 = edited i (erase_left i.line)
handle_key i delete = edited i (erase_right i.line)
handle_key i left = returns (with_line i (move_left i.line), false, [])
handle_key i right = returns (with_line i (move_right i.line), false, [])
handle_key i home = returns (with_line i (move_home i.line), false, [])
handle_key i end = returns (with_line i (move_end i.line), false, [])
handle_key i up =
    if ltb 0 i.h_index
    then (recall i (i.h_index - 1) >>= λ j. returns (j, false, []))
    else returns (i, false, [])
handle_key i down =
    if ltb (i.h_index + 1) (length i.history)
    then (recall i (i.h_index + 1) >>= λ j. returns (j, false, []))
    else returns (record i { h_index = length i.history; line = empty_line }, false, [])
handle_key i (rune r) = edited i (insert_rune i.line r)
handle_key i _ = returns (i, false, [])
