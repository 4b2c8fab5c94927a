-- ===== src/Room/Runs/Bounded.antt =====
-- The histories of a room stay short, whatever happens.
use underground_node_network.Base.{
  ◌+◌, ◌≤◌, ◌≡◌, sym, subst, [], ◌∷◌, ◌++◌, List, some, length, length-append, length-drop, ltb,
  arith, Option-cases, Bool-cases, inl, inr, same,
}
use underground_node_network.Map.{delete, get-delete}
use underground_node_network.Text.{Text, text_key}
use underground_node_network.Room.{
  Message, RoomServer, finished, history_of, append_capped, add_message_to_history,
  add_command_to_history, set_person, is_last,
}
use underground_node_network.Room.Histories.{IsTidy, history_of-put, add_command_to_history-IsTidy}
use underground_node_network.Room.Commands.Moderate.{set_bans, set_lock}
use underground_node_network.Room.Connections.{elect, authorize_key}
use underground_node_network.Room.Steps.{Ends}
use underground_node_network.Room.Runs.{RoomEvent, run}
use underground_node_network.Room.Runs.Arrivals.{Invariant}
use underground_node_network.Room.Runs.Kept.{All-Comes, run-Ends}

-- 200 messages at most for each key, 100 commands at most for each key and none twice in a row.
abbrev pub Bounded : RoomServer → Type 0
Bounded s =
    ((k : Text) → length (history_of k s.histories) ≤ 200)
    × ((k : Text) → IsTidy (history_of k s.cmd_histories))

append_capped-length :
    {A : Type 0} (h : List A) (x : A) → length h ≤ 200 → length (append_capped 200 h x) ≤ 200
unfolding append_capped
append_capped-length h x le = elim (Bool-cases (ltb 200 (length h + 1))) [
  | inl long ↦ rw long (ground (arith, length-append h (x ∷ []), length-drop 1 (h ++ x ∷ [])))
  | inr fits ↦ rw fits (ground (arith, length-append h (x ∷ [])))
]

add_message_to_history-Bounded :
    (k : Text) (m : Message) (s : RoomServer) → Bounded s → Bounded (add_message_to_history s k m)
unfolding add_message_to_history
add_message_to_history-Bounded k m s (short, tidy) = (after, tidy)
  where
    after : (j : Text) → length (history_of j (add_message_to_history s k m).histories) ≤ 200
    after j =
        subst (λ h. length h ≤ 200)
          (sym (history_of-put k j (append_capped 200 (history_of k s.histories) m) s.histories))
          (elim (Bool-cases (same k j)) [
            | inl eq ↦ rw eq (append_capped-length (history_of k s.histories) m (short k))
            | inr ne ↦ rw ne (short j)
          ])

delete-Bounded :
    (k : Text) (s : RoomServer)
    → Bounded s
    → Bounded (record s { histories = delete k s.histories })
unfolding history_of
delete-Bounded k s (short, tidy) = (after, tidy)
  where
    after : (j : Text) → length (history_of j (delete k s.histories)) ≤ 200
    after j =
        let law = get-delete k j s.histories in
        elim (Bool-cases (same k j)) [
          | inl eq ↦ rw (history_of, law, eq) (omega arith)
          | inr ne ↦ rw (history_of, law, ne) (short j)
        ]

add_command_to_history-Bounded :
    (k cmd : Text) (s : RoomServer) → Bounded s → Bounded (add_command_to_history s k cmd)
unfolding add_command_to_history
add_command_to_history-Bounded k cmd s (short, tidy) =
    let (after, _) = add_command_to_history-IsTidy s k cmd tidy in (kept, after)
  where
    kept : (j : Text) → length (history_of j (add_command_to_history s k cmd).histories) ≤ 200
    kept j = elim (Bool-cases (is_last cmd (history_of k s.cmd_histories))) [
      | inl old ↦ rw (add_command_to_history, old) (short j)
      | inr new ↦ rw (add_command_to_history, new) (short j)
    ]

elect-Bounded : (key : Text) (s : RoomServer) → Bounded s → Bounded (elect (some key) s)
unfolding elect
elect-Bounded key s h = elim (Option-cases s.operator_pub_key) [
  | inl none_yet ↦ rw (elect, none_yet) h
  | inr (op, there) ↦ rw (elect, there) h
]

Bounded-Invariant : Invariant Bounded Unit (λ _. Unit)
unfolding set_person set_bans set_lock authorize_key
Bounded-Invariant = record {
  steps = record {
    to_history = add_message_to_history-Bounded;
    clear_history = delete-Bounded;
    move = λ id p q s known same_one h. h;
    no_screen = λ id p s h known e. tt;
    keys = λ s h. inl tt;
    no_bus = λ op id p s h known e. tt;
    send = λ op id p sent s known h. h;
    shut = λ op id p s known h. h;
    ban = λ op bans s h. h;
    change_lock = λ op key s h. h;
  };
  op_of = λ key t k h e. tt;
  arrive = λ id name key s k h. h;
  elected = λ key s k h. elect-Bounded key s h;
  depart = λ id s h. h;
  attach = λ id p q s t known e h ht. ht;
  authorize = λ key name s h. h;
  typed = add_command_to_history-Bounded;
}

-- Whatever happens to a room that starts so, it has stored 200 messages at most for each key and 100
-- commands at most for each key, and no command twice in a row.
pub run-Bounded :
    (digest : Text → Text) (es : List RoomEvent) (s t : RoomServer)
    → Bounded s
    → run digest es s ≡ finished t
    → Bounded t
run-Bounded digest es s t h e =
    subst (Ends Unit Unit Bounded) e (run-Ends Bounded-Invariant digest es s (All-Comes es) h)
