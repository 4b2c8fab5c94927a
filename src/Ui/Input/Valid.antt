-- ===== src/Ui/Input/Valid.antt =====
-- No key makes the command line panic: the cursor stays within the text and the history index
-- within the history.
use underground_node_network.Base.{
  ℕ, ◌≤◌, ◌<◌, ◌≡◌, ◌+◌, ◌-◌, refl, [], true, false, Outcome, returns, arith, length,
  get_elem?-some, ◌>>=◌, ltb, Bool-cases, inl, inr,
}
use underground_node_network.Ui.LineEdit.{
  Key, Line, enter, backspace, backspace2, delete, left, right, home, end, up, down, rune, tab,
  escape, ctrl_c, other,
}
use underground_node_network.Ui.LineEdit.Within.{
  Within, Edits, erase_left-Within, erase_right-Within, insert_rune-Within, move_left-Within,
  move_right-Within, move_home-Within, move_end-Within,
}
use underground_node_network.Ui.Input.{CommandInput, Handled, handle_key, recall, submit, edited}

pub record IsValid (i : CommandInput) : Type 0 where
  pub cursor_within : i.line.cursor ≤ length i.line.value
  pub index_within : i.h_index ≤ length i.history

-- The handler returns a valid command line.
abbrev pub Handles : Outcome Handled → Type 0
Handles m = (r : Handled) × (m ≡ returns r) × IsValid r.0

edited-Handles : (i : CommandInput) (m : Outcome Line) → IsValid i → Edits m → Handles (edited i m)
edited-Handles i m v (l, e, w) = rw e (
  (record i { line = l }, false, []),
  refl,
  record { cursor_within = w; index_within = v.index_within },
)

-- Recalling an entry of the history puts the cursor behind it.
recall_lem :
    (i : CommandInput) (k : ℕ)
    → k < length i.history
    → (j : CommandInput) × (recall i k ≡ returns j) × IsValid j
unfolding recall
recall_lem i k lt =
    let (v, e) = get_elem?-some i.history k lt in
    rw (e, recall) (_, refl, record { cursor_within = omega arith; index_within = omega arith })

submit-IsValid : (i : CommandInput) → IsValid i → IsValid (submit i)
unfolding submit
submit-IsValid i v = ground arith

moved-IsValid :
    (i : CommandInput) (l : Line)
    → IsValid i
    → Within l
    → Handles (returns (record i { line = l }, false, []))
moved-IsValid i l v w = (
  (record i { line = l }, false, []),
  refl,
  record { cursor_within = w; index_within = v.index_within },
)

recalled-Handles :
    (i : CommandInput) (k : ℕ)
    → k < length i.history
    → Handles (recall i k >>= λ j. returns (j, false, []))
recalled-Handles i k lt = let (j, e, v) = recall_lem i k lt in rw e ((j, false, []), refl, v)

-- Every key is handled without a panic, and the command line stays valid.
pub handle_key-IsValid : (i : CommandInput) (k : Key) → IsValid i → Handles (handle_key i k)
unfolding handle_key
handle_key-IsValid i enter v = ((submit i, true, i.line.value), refl, submit-IsValid i v)
handle_key-IsValid i backspace v = edited-Handles i _ v (erase_left-Within i.line v.cursor_within)
handle_key-IsValid i backspace2 v = edited-Handles i _ v (erase_left-Within i.line v.cursor_within)
handle_key-IsValid i delete v = edited-Handles i _ v (erase_right-Within i.line v.cursor_within)
handle_key-IsValid i (rune r) v = edited-Handles i _ v (insert_rune-Within i.line r v.cursor_within)
handle_key-IsValid i left v = moved-IsValid i _ v (move_left-Within i.line v.cursor_within)
handle_key-IsValid i right v = moved-IsValid i _ v (move_right-Within i.line v.cursor_within)
handle_key-IsValid i home v = moved-IsValid i _ v (move_home-Within i.line)
handle_key-IsValid i end v = moved-IsValid i _ v (move_end-Within i.line)
handle_key-IsValid i up v = elim (Bool-cases (ltb 0 i.h_index)) [
  | inl some_above ↦
      let room : i.h_index - 1 < length i.history = ground (arith, v.index_within) in
      rw some_above (recalled-Handles i (i.h_index - 1) room)
  | inr none_above ↦ rw none_above ((i, false, []), refl, v)
]
handle_key-IsValid i down v = elim (Bool-cases (ltb (i.h_index + 1) (length i.history))) [
  | inl some_below ↦ rw some_below (recalled-Handles i (i.h_index + 1) (ground arith))
  | inr none_below ↦
      rw none_below (_, refl, record { cursor_within = omega arith; index_within = omega arith })
]
handle_key-IsValid i escape v = ((i, false, []), refl, v)
handle_key-IsValid i ctrl_c v = ((i, false, []), refl, v)
handle_key-IsValid i tab v = ((i, false, []), refl, v)
handle_key-IsValid i other v = ((i, false, []), refl, v)
