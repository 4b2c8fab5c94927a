-- ===== src/Room/Histories.antt =====
-- The histories stay short, and a message reaches the histories of the people who are there.
use underground_node_network.Base.{
  ◌+◌, ◌≤◌, ◌≡◌, ◌≢◌, refl, sym, ap, ◌∙◌, [], ◌∷◌, ◌++◌, List, true, false, length, length-append,
  length-drop, if◌then◌else◌, ltb, drop, arith, Bool-cases, inl, inr, same, subst,
}
use underground_node_network.Map.{Map, put, get-put, same_self}
use underground_node_network.Text.{Text, text_eq_iff, text_key}
use underground_node_network.Room.{
  RoomServer, history_of, append_capped, is_last, add_command_to_history,
}

-- No two equal commands behind each other.
abbrev pub NoRepeats : List Text → Type 0
NoRepeats [] = Unit
NoRepeats (c ∷ []) = Unit
NoRepeats (c ∷ d ∷ h) = (c ≢ d) × NoRepeats (d ∷ h)

abbrev pub IsTidy : List Text → Type 0
IsTidy h = (length h ≤ 100) × NoRepeats h

NoRepeats-append :
    (h : List Text) (c : Text) → NoRepeats h → is_last c h ≡ false → NoRepeats (h ++ c ∷ [])
unfolding is_last
NoRepeats-append [] c h new = tt
NoRepeats-append (d ∷ []) c h new = ((λ e. ground (arith, text_eq_iff d c)), tt)
NoRepeats-append (d ∷ e ∷ h) c (ne, rest) new = (ne, NoRepeats-append (e ∷ h) c rest new)

NoRepeats-drop : (h : List Text) → NoRepeats h → NoRepeats (drop 1 h)
NoRepeats-drop [] h = tt
NoRepeats-drop (c ∷ []) h = tt
NoRepeats-drop (c ∷ d ∷ h) (ne, rest) = rest

append_capped-IsTidy :
    (h : List Text) (c : Text) → IsTidy h → is_last c h ≡ false → IsTidy (append_capped 100 h c)
unfolding append_capped
append_capped-IsTidy h c (short, tidy) new = elim (Bool-cases (ltb 100 (length h + 1))) [
  | inl long ↦ rw long (
    ground (arith, length-append h (c ∷ []), length-drop 1 (h ++ c ∷ [])),
    NoRepeats-drop (h ++ c ∷ []) (NoRepeats-append h c tidy new),
  )
  | inr fits ↦ rw fits (ground (arith, length-append h (c ∷ [])), NoRepeats-append h c tidy new)
]

is_last-append : (h : List Text) (c : Text) → is_last c (h ++ c ∷ []) ≡ true
unfolding is_last
is_last-append [] c = ground (arith, text_eq_iff c c)
is_last-append (d ∷ []) c = ground (arith, text_eq_iff c c)
is_last-append (d ∷ e ∷ h) c = is_last-append (e ∷ h) c

append_capped-last : (h : List Text) (c : Text) → is_last c (append_capped 100 h c) ≡ true
unfolding append_capped
append_capped-last [] c = is_last-append [] c
append_capped-last (d ∷ h) c = elim (Bool-cases (ltb 100 (length (d ∷ h) + 1))) [
  | inl long ↦ rw long (is_last-append h c)
  | inr fits ↦ rw fits (is_last-append (d ∷ h) c)
]

pub history_of-put :
    {A : Type 0} (k j : Text) (h : List A) (m : Map Text (List A))
    → history_of j (put k h m) ≡ (if same k j then h else history_of j m)
unfolding history_of
history_of-put k j h m = elim (Bool-cases (same k j)) [
  | inl eq ↦ rw (history_of, get-put, eq) refl
  | inr ne ↦ rw (history_of, get-put, ne) refl
]

-- Whoever types whatever, the command history of each key has 100 commands at most and none twice in a
-- row, and the command that was typed is the last of its key's history.
pub add_command_to_history-IsTidy :
    (s : RoomServer) (k cmd : Text)
    → ((j : Text) → IsTidy (history_of j s.cmd_histories))
    → ((j : Text) → IsTidy (history_of j (add_command_to_history s k cmd).cmd_histories))
      × (is_last cmd (history_of k (add_command_to_history s k cmd).cmd_histories) ≡ true)
unfolding add_command_to_history
add_command_to_history-IsTidy s k cmd tidy =
    elim (Bool-cases (is_last cmd (history_of k s.cmd_histories))) [
      | inl old ↦ rw (add_command_to_history, old) (tidy, old)
      | inr new ↦
          let h = append_capped 100 (history_of k s.cmd_histories) cmd in
          rw (add_command_to_history, new)
            (
              λ j. subst IsTidy (sym (history_of-put k j h s.cmd_histories)) (after j new),
              ap (is_last cmd) (history_of-put k k h s.cmd_histories)
                  ∙ rw (same_self k) (append_capped-last (history_of k s.cmd_histories) cmd),
            )
    ]
  where
    after :
        (j : Text)
        → is_last cmd (history_of k s.cmd_histories) ≡ false
        → IsTidy (
            if same k j
            then append_capped 100 (history_of k s.cmd_histories) cmd
            else history_of j s.cmd_histories)
    after j new = elim (Bool-cases (same k j)) [
      | inl eq ↦ rw eq (append_capped-IsTidy (history_of k s.cmd_histories) cmd (tidy k) new)
      | inr ne ↦ rw ne (tidy j)
    ]
