-- ===== src/Ui/Form/Valid.antt =====
-- No key makes a form panic, and each field keeps to its limits.
use underground_node_network.Base.{
  ℕ, ◌≤◌, ◌≡◌, ◌+◌, ◌-◌, ◌%◌, refl, [], ◌∷◌, Bool, true, false, not, ◌||◌, Outcome, returns, arith,
  length, get_elem?, get_elem?-set_self, get_elem?-some, get_elem?-lt, All, All-set, All-get_elem?,
  some, none, ◌>>=◌, ltb, leb, ◌==◌, Bool-cases, inl, inr, ap,
}
use underground_node_network.Text.{all}
use underground_node_network.Ui.Common.{is_alphanumeric, is_alphanumeric_rune}
use underground_node_network.Ui.LineEdit.{
  Key, enter, escape, ctrl_c, tab, backspace, backspace2, delete, left, right, home, end, up, down,
  rune, other, Line, erase_left, erase_right, move_right, move_end, insert_rune,
}
use underground_node_network.Ui.LineEdit.Within.{Within, move_right-Within, move_end-Within}
use underground_node_network.Ui.LineEdit.Content.{
  Shrinks, Grows, erase_left-Shrinks, erase_right-Shrinks, insert_rune-Grows,
}
use underground_node_network.Ui.Form.{
  FormField, Form, Handled, handle_key, field_at, focus, edit, refuses, store, line_at,
}

-- A value that a field accepts: within its maximal length, and alphanumeric where it has to be.
pub record Admits (fld : FormField) : Type 0 where
  pub short : (fld.max_length == 0 || leb (length fld.value) fld.max_length) ≡ true
  pub plain : (not fld.alphanumeric || is_alphanumeric fld.value) ≡ true

pub record FormIsValid (f : Form) : Type 0 where
  pub current : FormField
  pub found : get_elem? f.form_fields f.active_idx ≡ some current
  pub cursor_within : f.cursor_idx ≤ length current.value
  pub admitted : All Admits f.form_fields

-- The handler returns a valid form.
abbrev pub Handles : Outcome Handled → Type 0
Handles m = (r : Handled) × (m ≡ returns r) × FormIsValid r.0

field_at-current : (f : Form) (v : FormIsValid f) → field_at f f.active_idx ≡ returns v.current
unfolding field_at
field_at-current f v = rw (v.found, field_at)

-- Any index modulo the number of fields is that of a field.
focus-FormIsValid :
    (f : Form) (k : ℕ) → FormIsValid f → (g : Form) × (focus f k ≡ returns g) × FormIsValid g
unfolding focus
focus-FormIsValid f k v =
    let some_field = get_elem?-lt f.form_fields f.active_idx v.found in
    let nonempty : (length f.form_fields == 0) ≡ false = ground arith in
    let (fld, e) = get_elem?-some f.form_fields (k % length f.form_fields) (grind arith) in
    let at : field_at f (k % length f.form_fields) ≡ returns fld =
      unfold field_at in rw (e, field_at) in
    rw (nonempty, at)
      (
        _,
        refl,
        record { current = fld; found = e; cursor_within = omega arith; admitted = v.admitted },
      )

-- A line that the active field accepts is stored.
store-FormIsValid :
    (f : Form) (v : FormIsValid f) (l : Line)
    → Within l
    → Admits (record (v.current) { value = l.value })
    → FormIsValid (store f v.current l)
store-FormIsValid f v l w ok = record {
  current = record (v.current) { value = l.value };
  found =
      get_elem?-set_self f.form_fields f.active_idx _
        (get_elem?-lt f.form_fields f.active_idx v.found);
  cursor_within = w;
  admitted = All-set Admits f.form_fields f.active_idx _ v.admitted ok;
}

shrunk-Admits :
    (fld : FormField) (l : Line)
    → Admits fld
    → length l.value ≤ length fld.value
    → ((p : ℕ → Bool) → all p fld.value ≡ true → all p l.value ≡ true)
    → Admits (record fld { value = l.value })
shrunk-Admits fld l ok le keep = record {
  short = ground (arith, ok.short);
  plain = ground (arith, ok.plain, keep');
}
  where
    keep' : is_alphanumeric fld.value ≡ true → is_alphanumeric l.value ≡ true
    keep' = unfold is_alphanumeric in keep is_alphanumeric_rune

one_alphanumeric : (r : ℕ) → is_alphanumeric (r ∷ []) ≡ true → is_alphanumeric_rune r ≡ true
unfolding is_alphanumeric
one_alphanumeric r h = ground arith

grown-Admits :
    (fld : FormField) (l : Line) (r : ℕ)
    → Admits fld
    → refuses fld r ≡ false
    → length l.value ≡ length fld.value + 1
    → ((p : ℕ → Bool) → all p fld.value ≡ true → p r ≡ true → all p l.value ≡ true)
    → Admits (record fld { value = l.value })
unfolding refuses
grown-Admits fld l r ok takes longer keep = record {
  short = ground (arith, ok.short);
  plain = ground (arith, ok.plain, keep', one_alphanumeric r);
}
  where
    keep' :
        is_alphanumeric fld.value ≡ true
        → is_alphanumeric_rune r ≡ true
        → is_alphanumeric l.value ≡ true
    keep' = unfold is_alphanumeric in keep is_alphanumeric_rune

edit-Shrinks :
    (f : Form) (v : FormIsValid f) (act : Line → Outcome Line)
    → Shrinks (line_at f v.current) (act (line_at f v.current))
    → Handles (edit f act)
unfolding edit
edit-Shrinks f v act (l, e, w, le, keep) =
    let ok =
      shrunk-Admits v.current l (All-get_elem? Admits f.form_fields f.active_idx v.admitted v.found)
        le keep in
    rw (field_at-current f v, e)
      ((store f v.current l, false, none), refl, store-FormIsValid f v l w ok)

edit-Grows :
    (f : Form) (v : FormIsValid f) (r : ℕ)
    → refuses v.current r ≡ false
    → Grows (line_at f v.current) r (insert_rune (line_at f v.current) r)
    → Handles (edit f (λ l. insert_rune l r))
unfolding edit
edit-Grows f v r takes (l, e, w, longer, keep) =
    let ok =
      grown-Admits v.current l r
        (All-get_elem? Admits f.form_fields f.active_idx v.admitted v.found) takes longer keep in
    rw (field_at-current f v, e)
      ((store f v.current l, false, none), refl, store-FormIsValid f v l w ok)

focus-Handles :
    (f : Form) (k : ℕ) → FormIsValid f → Handles (focus f k >>= λ g. returns (g, false, none))
focus-Handles f k v = let (g, e, w) = focus-FormIsValid f k v in rw e ((g, false, none), refl, w)

-- A move of the cursor within the active field's value.
moved-Shrinks : (l k : Line) → k.value ≡ l.value → Within k → Shrinks l (returns k)
moved-Shrinks l k e w = (k, refl, w, omega (arith, ap length e), λ p h. rw e h)

with_cursor-FormIsValid :
    (f : Form) (v : FormIsValid f) (c : ℕ)
    → c ≤ length v.current.value
    → FormIsValid (record f { cursor_idx = c })
with_cursor-FormIsValid f v c h = record {
  current = v.current;
  found = v.found;
  cursor_within = h;
  admitted = v.admitted;
}

move_right-value : (l : Line) → (move_right l).value ≡ l.value
unfolding move_right
move_right-value l = ground arith

move_end-value : (l : Line) → (move_end l).value ≡ l.value
unfolding move_end
move_end-value l = refl

-- Every key is handled without a panic; the form stays valid, each field within its limits.
pub handle_key-FormIsValid : (f : Form) (k : Key) → FormIsValid f → Handles (handle_key f k)
unfolding handle_key
handle_key-FormIsValid f tab v = focus-Handles f _ v
handle_key-FormIsValid f down v = focus-Handles f _ v
handle_key-FormIsValid f up v = focus-Handles f _ v
handle_key-FormIsValid f escape v = ((f, true, none), refl, v)
handle_key-FormIsValid f ctrl_c v = ((f, true, none), refl, v)
handle_key-FormIsValid f enter v = ((f, true, _), refl, v)
handle_key-FormIsValid f backspace v =
    edit-Shrinks f v erase_left (erase_left-Shrinks _ v.cursor_within)
handle_key-FormIsValid f backspace2 v =
    edit-Shrinks f v erase_left (erase_left-Shrinks _ v.cursor_within)
handle_key-FormIsValid f delete v =
    edit-Shrinks f v erase_right (erase_right-Shrinks _ v.cursor_within)
handle_key-FormIsValid f left v = elim (Bool-cases (ltb 0 f.cursor_idx)) [
  | inl more ↦
      rw more
        (_, refl, with_cursor-FormIsValid f v (f.cursor_idx - 1) (omega (arith, v.cursor_within)))
  | inr none_left ↦ rw none_left ((f, false, none), refl, v)
]
handle_key-FormIsValid f right v =
    edit-Shrinks f v (λ l. returns (move_right l))
      (moved-Shrinks (line_at f v.current) (move_right (line_at f v.current)) (move_right-value _)
        (move_right-Within _ v.cursor_within))
handle_key-FormIsValid f home v = (_, refl, with_cursor-FormIsValid f v 0 (omega arith))
handle_key-FormIsValid f end v =
    edit-Shrinks f v (λ l. returns (move_end l))
      (moved-Shrinks (line_at f v.current) (move_end (line_at f v.current)) (move_end-value _)
        (move_end-Within _))
handle_key-FormIsValid f (rune r) v =
    rw (field_at-current f v) (elim (Bool-cases (refuses v.current r)) [
      | inl refused ↦ rw refused ((f, false, none), refl, v)
      | inr taken ↦ rw taken (edit-Grows f v r taken (insert_rune-Grows _ r v.cursor_within))
    ])
handle_key-FormIsValid f other v = ((f, false, none), refl, v)
