-- ===== src/Tests/Input.antt =====
-- internal/ui/input/input.go at concrete keys.
use underground_node_network.Base.{[], ◌∷◌, ◌≡◌, refl, returns, arith, true, false, slice}
use underground_node_network.Text.{runes, text_eq, trim_space}
use underground_node_network.Ui.LineEdit.{rune, enter, up, down, insert_rune}
use underground_node_network.Ui.Input.{CommandInput, handle_key}
use underground_node_network.Ui.Input.Valid.{IsValid, Handles, handle_key-IsValid}
use underground_node_network.Ui.Input.Recall.{after, handle_key-recall}

abbrev typed : CommandInput
typed = record {
  prompt = [];
  line = record { value = runes "hi"; cursor = 1 };
  history = runes "a" ∷ [];
  h_index = 1;
}

typed-IsValid : IsValid typed
typed-IsValid = omega arith

typed_a :
    handle_key typed (rune b'a')
    ≡ returns (record typed { line = record { value = runes "hai"; cursor = 2 } }, false, [])
unfolding handle_key insert_rune slice
typed_a = refl

handle_key-IsValid_example : Handles (handle_key typed up)
handle_key-IsValid_example = handle_key-IsValid typed up typed-IsValid

handle_key-recall_example :
    (handle_key typed enter ≡ returns (after typed, true, runes "hi"))
    × (handle_key (after typed) up
        ≡ returns (
          record (after typed) { h_index = 1; line = record { value = runes "hi"; cursor = 2 } },
          false,
          [],
        ))
    × (handle_key
          (record (after typed) { h_index = 1; line = record { value = runes "hi"; cursor = 2 } })
          down
        ≡ returns (after typed, false, []))
unfolding text_eq trim_space
handle_key-recall_example = handle_key-recall typed refl
