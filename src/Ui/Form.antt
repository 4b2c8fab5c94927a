-- ===== src/Ui/Form.antt =====
-- internal/ui/form/form.go: a form of several fields, and the keys that edit it.
pub mod Valid
use underground_node_network.Base.{
  ℕ, ◌+◌, ◌-◌, ◌%◌, [], ◌∷◌, List, Bool, true, false, not, ◌&&◌, map, Outcome, returns, panics,
  ◌>>=◌, ltb, leb, if◌then◌else◌, length, set, Option, some, none, get_elem?, ◌==◌,
}
use underground_node_network.Text.{Text}
use underground_node_network.Ui.Common.{is_alphanumeric}
use underground_node_network.Ui.LineEdit.{
  Key, enter, escape, ctrl_c, tab, backspace, backspace2, delete, left, right, home, end, up, down,
  rune, Line, erase_left, erase_right, move_left, move_right, move_home, move_end, insert_rune,
}

pub record FormField : Type 0 where
  pub label : Text
  pub value : Text
  pub error : Text
  pub max_length : ℕ
  pub alphanumeric : Bool

pub record Form : Type 0 where
  pub title : Text
  pub form_fields : List FormField
  pub active_idx : ℕ
  pub cursor_idx : ℕ

pub new_form : Text → List FormField → Form
new_form title fields = record {
  title = title;
  form_fields = fields;
  active_idx = 0;
  cursor_idx = 0;
}

-- The new form, whether it is done, and the values; a nil slice is `none`.
abbrev pub Handled : Type 0
Handled = Form × Bool × Option (List Text)

-- f.Fields[k]
unfoldable pub field_at : Form → ℕ → Outcome FormField
field_at f k = elim (get_elem? f.form_fields k) [ none ↦ panics | some fld ↦ returns fld ]

-- f.ActiveIdx = k % len(f.Fields), and the cursor to the end of that field.
unfoldable pub focus : Form → ℕ → Outcome Form
unfolding field_at
focus f k =
    if length f.form_fields == 0
    then panics
    else (field_at f (k % length f.form_fields) >>= λ fld.
        returns (record f { active_idx = k % length f.form_fields; cursor_idx = length fld.value }))

-- Write an edited line back to the field at the cursor.
abbrev pub store : Form → FormField → Line → Form
store f fld l = record f {
  form_fields = set f.form_fields f.active_idx (record fld { value = l.value });
  cursor_idx = l.cursor;
}

abbrev pub line_at : Form → FormField → Line
line_at f fld = record { value = fld.value; cursor = f.cursor_idx }

-- fld := &f.Fields[f.ActiveIdx], an edit of its value, and no result.
unfoldable pub edit : Form → (Line → Outcome Line) → Outcome Handled
unfolding field_at
edit f act = do
  fld ← field_at f f.active_idx
  l ← act (line_at f fld)
  returns (store f fld l, false, none)

-- Whether a field refuses a character.
unfoldable pub refuses : FormField → ℕ → Bool
refuses fld r =
    if fld.alphanumeric && not (is_alphanumeric (r ∷ []))
    then true
    else if ltb 0 fld.max_length && leb fld.max_length (length fld.value)
    then true
    else false

unfoldable pub handle_key : Form → Key → Outcome Handled
handle_key f tab = focus f (f.active_idx + 1) >>= λ g. returns (g, false, none)
handle_key f down = focus f (f.active_idx + 1) >>= λ g. returns (g, false, none)
handle_key f up =
    focus f (f.active_idx + length f.form_fields - 1) >>= λ g. returns (g, false, none)
handle_key f escape = returns (f, true, none)
handle_key f ctrl_c = returns (f, true, none)
handle_key f enter = returns (f, true, some (map (λ fld. fld.value) f.form_fields))
handle_key f backspace = edit f erase_left
handle_key f backspace2 = edit f erase_left
handle_key f delete = edit f erase_right
handle_key f left =
    returns
      (if ltb 0 f.cursor_idx then record f { cursor_idx = f.cursor_idx - 1 } else f, false, none)
handle_key f right = edit f (λ l. returns (move_right l))
handle_key f home = returns (record f { cursor_idx = 0 }, false, none)
handle_key f end = edit f (λ l. returns (move_end l))
handle_key f (rune r) = do
  fld ← field_at f f.active_idx
  if refuses fld r then returns (f, false, none) else edit f (λ l. insert_rune l r)
handle_key f _ = returns (f, false, none)
