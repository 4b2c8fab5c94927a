-- ===== src/Ui/Password/Valid.antt =====
-- No key makes either prompt panic.
use underground_node_network.Base.{◌≡◌, refl, [], Outcome, returns, true, false}
use underground_node_network.Ui.LineEdit.{
  Key, enter, escape, ctrl_c, tab, up, down, other, backspace, backspace2, delete, left, right,
  home, end, rune, Line,
}
use underground_node_network.Ui.LineEdit.Within.{
  Within, Edits, erase_left-Within, erase_right-Within, insert_rune-Within, move_left-Within,
  move_right-Within, move_home-Within, move_end-Within,
}
use underground_node_network.Ui.Password.{PasswordEntry, Handled, handle_key, edited, ui_edit}

abbrev pub Handles : Outcome Handled → Type 0
Handles m = (r : Handled) × (m ≡ returns r) × Within (r.0).line

edited-Handles : (p : PasswordEntry) (m : Outcome Line) → Edits m → Handles (edited p m)
edited-Handles p m (l, e, w) = rw e ((record p { line = l }, false, [], false), refl, w)

-- With the cursor within the value, every key is handled without a panic and keeps it there.
pub handle_key-Within : (p : PasswordEntry) (k : Key) → Within p.line → Handles (handle_key p k)
unfolding handle_key
handle_key-Within p escape v = ((p, true, [], true), refl, v)
handle_key-Within p ctrl_c v = ((p, true, [], true), refl, v)
handle_key-Within p enter v = ((p, true, p.line.value, false), refl, v)
handle_key-Within p backspace v = edited-Handles p _ (erase_left-Within p.line v)
handle_key-Within p backspace2 v = edited-Handles p _ (erase_left-Within p.line v)
handle_key-Within p delete v = edited-Handles p _ (erase_right-Within p.line v)
handle_key-Within p left v = edited-Handles p _ (_, refl, move_left-Within p.line v)
handle_key-Within p right v = edited-Handles p _ (_, refl, move_right-Within p.line v)
handle_key-Within p home v = edited-Handles p _ (_, refl, move_home-Within p.line)
handle_key-Within p end v = edited-Handles p _ (_, refl, move_end-Within p.line)
handle_key-Within p (rune r) v = edited-Handles p _ (insert_rune-Within p.line r v)
handle_key-Within p tab v = ((p, false, [], false), refl, v)
handle_key-Within p up v = ((p, false, [], false), refl, v)
handle_key-Within p down v = ((p, false, [], false), refl, v)
handle_key-Within p other v = ((p, false, [], false), refl, v)

pub ui_edit-Within : (l : Line) (k : Key) → Within l → Edits (ui_edit l k)
unfolding ui_edit
ui_edit-Within l backspace v = erase_left-Within l v
ui_edit-Within l backspace2 v = erase_left-Within l v
ui_edit-Within l delete v = erase_right-Within l v
ui_edit-Within l left v = (_, refl, move_left-Within l v)
ui_edit-Within l right v = (_, refl, move_right-Within l v)
ui_edit-Within l home v = (_, refl, move_home-Within l)
ui_edit-Within l end v = (_, refl, move_end-Within l)
ui_edit-Within l (rune r) v = insert_rune-Within l r v
ui_edit-Within l escape v = (l, refl, v)
ui_edit-Within l ctrl_c v = (l, refl, v)
ui_edit-Within l enter v = (l, refl, v)
ui_edit-Within l tab v = (l, refl, v)
ui_edit-Within l up v = (l, refl, v)
ui_edit-Within l down v = (l, refl, v)
ui_edit-Within l other v = (l, refl, v)
