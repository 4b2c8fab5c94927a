-- ===== src/Ui/Input/Recall.antt =====
-- The history of submitted lines.
use underground_node_network.Base.{
  ℕ, ◌≡◌, ◌-◌, refl, List, [], ◌∷◌, ◌++◌, true, false, returns, arith, length, length-append,
  get_elem?, some,
}
use underground_node_network.Text.{Text, text_eq, trim_space}
use underground_node_network.Ui.LineEdit.{enter, up, down}
use underground_node_network.Ui.Input.{CommandInput, handle_key, recall, submit}

get_elem?_last : (h : List Text) (v : Text) → get_elem? (h ++ v ∷ []) (length h) ≡ some v
get_elem?_last [] v = refl
get_elem?_last (u ∷ h) v = get_elem?_last h v

-- A command line just after `v` was submitted.
abbrev pub after : CommandInput → CommandInput
after i = record i {
  line = record { value = []; cursor = 0 };
  history = i.history ++ i.line.value ∷ [];
  h_index = length (i.history ++ i.line.value ∷ []);
}

recall_last :
    (i : CommandInput) (h : List Text) (v : Text) (k : ℕ)
    → i.history ≡ h ++ v ∷ []
    → k ≡ length h
    → recall i k
      ≡ returns (record i { h_index = k; line = record { value = v; cursor = length v } })
unfolding recall
recall_last i h v k e ek =
    let found : get_elem? i.history k ≡ some v = rw (e, ek) (get_elem?_last h v) in
    rw (found, recall)

submit_lem : (i : CommandInput) → text_eq (trim_space i.line.value) [] ≡ false → submit i ≡ after i
unfolding submit
submit_lem i h = rw h

-- A submitted line that is not blank is stored behind the history; Up brings it back with the
-- cursor at its end, and Down clears the line again.
pub handle_key-recall :
    (i : CommandInput)
    → text_eq (trim_space i.line.value) [] ≡ false
    → (handle_key i enter ≡ returns (after i, true, i.line.value))
      × (handle_key (after i) up
          ≡ returns (
            record (after i) {
              h_index = length i.history;
              line = record { value = i.line.value; cursor = length i.line.value };
            },
            false,
            [],
          ))
      × (handle_key
            (record (after i) {
              h_index = length i.history;
              line = record { value = i.line.value; cursor = length i.line.value };
            })
            down
          ≡ returns (after i, false, []))
unfolding handle_key
handle_key-recall i h =
    let one_more = length-append i.history (i.line.value ∷ []) in
    let last = length (i.history ++ i.line.value ∷ []) - 1 in
    let last_eq : last ≡ length i.history = omega arith in
    let back = recall_last (after i) i.history i.line.value last refl last_eq in
    (rw (submit_lem i h), rw back (ground arith), ground arith)
