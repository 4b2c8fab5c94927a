-- ===== src/Tests/Form.antt =====
-- internal/ui/form/form.go at concrete keys.
use underground_node_network.Base.{[], ◌∷◌, ◌≡◌, refl, returns, arith, true, false, none}
use underground_node_network.Text.{runes}
use underground_node_network.Ui.Common.{is_alphanumeric}
use underground_node_network.Ui.LineEdit.{rune}
use underground_node_network.Ui.Form.{Form, FormField, handle_key, field_at, refuses}
use underground_node_network.Ui.Form.Valid.{FormIsValid, Handles, handle_key-FormIsValid}

abbrev name_field : FormField
name_field = record {
  label = runes "Name";
  value = runes "bo";
  error = [];
  max_length = 2;
  alphanumeric = true;
}

abbrev two_fields : Form
two_fields = record {
  title = [];
  form_fields = name_field ∷ record name_field { max_length = 3 } ∷ [];
  active_idx = 1;
  cursor_idx = 2;
}

two_fields-FormIsValid : FormIsValid two_fields
unfolding is_alphanumeric
two_fields-FormIsValid = record {
  current = record name_field { max_length = 3 };
  found = refl;
  cursor_within = omega arith;
  admitted = (record { short = refl; plain = refl }, (record { short = refl; plain = refl }, tt));
}

-- The second field has room for one more letter, and refuses a dash.
dash_refused : handle_key two_fields (rune b'-') ≡ returns (two_fields, false, none)
unfolding handle_key field_at refuses is_alphanumeric
dash_refused = refl

handle_key-FormIsValid_example : Handles (handle_key two_fields (rune b'b'))
handle_key-FormIsValid_example =
    handle_key-FormIsValid two_fields (rune b'b') two_fields-FormIsValid
