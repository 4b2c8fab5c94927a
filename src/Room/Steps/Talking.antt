-- ===== src/Room/Steps/Talking.antt =====
-- The invariants of a room are kept by the broadcasts and by the commands that everybody has.
use underground_node_network.Base.{
  ℕ, zero, suc, ◌⊎◌, [], ◌∷◌, ◌++◌, refl, List, true, ◌&&◌, not, Option, none, some, All,
  Option-cases, Bool-cases, inl, inr, if◌then◌else◌,
}
use underground_node_network.Map.{get}
use underground_node_network.Text.{Text, text_eq, text_key, runes, trim_space}
use underground_node_network.Room.{
  Message, MessageType, Person, RoomServer, finished, msg_server, msg_action, msg_whisper, on_ui,
  with_lock, add_message, clear_messages, close, add_message_to_history, is_operator,
  get_pub_key_hash, reach, broadcast_to, broadcast, with_history_to, broadcast_with_history,
}
use underground_node_network.Room.Commands.Talk.{
  message, help_lines, operator_lines, find_named, set_quit_reason, two_words, say_holding, say,
  say_all, help, person_line, people_lines, list_people, me, tell_bystanders, whisper_to, whisper,
  clear, list_doors, quit,
}
use underground_node_network.Room.Steps.{Ends, bind-Ends, HasKey, Steps, on_ui-Ends, on_ui_if-holds}

module _ {I : RoomServer → Type 0} {C D Op : Type 0} (steps : Steps I C D Op)
    (digest : Text → Text) where
  pub reach-holds :
      (id : Text) (p : Person) (m : Message) (s : RoomServer) → I s → I (reach digest id p m s)
  unfolding reach
  reach-holds id p m s h =
      steps.to_history (get_pub_key_hash digest p.pub_key) m _
        (on_ui_if-holds steps id (add_message m) s h)

  broadcast_to-holds :
      (people : List (Text × Person)) (sender text : Text) (s : RoomServer)
      → I s
      → I (broadcast_to digest s people sender text)
  unfolding broadcast_to
  broadcast_to-holds [] sender text s h = h
  broadcast_to-holds ((id, p) ∷ people) sender text s h =
      broadcast_to-holds people sender text _ (reach-holds id p _ s h)

  pub broadcast-holds :
      (sender text : Text) (s : RoomServer) → I s → I (broadcast digest s sender text)
  unfolding broadcast
  broadcast-holds sender text s h = broadcast_to-holds s.people sender _ s h

  with_history_to-holds :
      (people : List (Text × Person)) (sender : Option Text) (text : Text) (kind : MessageType)
      (s : RoomServer)
      → I s
      → I (with_history_to digest s people sender text kind)
  unfolding with_history_to
  with_history_to-holds [] sender text kind s h = h
  with_history_to-holds ((id, p) ∷ people) sender text kind s h =
      with_history_to-holds people sender text kind _ (reach-holds id p _ s h)

  pub broadcast_with_history-holds :
      (sender : Option Text) (text : Text) (kind : MessageType) (s : RoomServer)
      → I s
      → I (broadcast_with_history digest sender text kind s)
  unfolding broadcast_with_history
  broadcast_with_history-holds sender text kind s h =
      with_history_to-holds s.people sender text kind s h

  pub say-Ends :
      (id : Text) (p : Person) (text : Text) (kind : MessageType) (s : RoomServer)
      → I s
      → Ends C D I (say digest id p text kind s)
  unfolding say say_holding with_lock
  say-Ends id p text kind s h =
      bind-Ends C D I I (on_ui id (add_message (message text kind)) s) _
        (on_ui-Ends steps id (add_message (message text kind)) s h)
        (λ t. steps.to_history (get_pub_key_hash digest p.pub_key) (message text kind) t)

  -- Who holds the lock himself may hang.
  pub say_holding-Ends :
      D
      → (readers : ℕ) (id : Text) (p : Person) (text : Text) (kind : MessageType) (s : RoomServer)
      → I s
      → Ends C D I (say_holding digest readers id p text kind s)
  unfolding say_holding with_lock
  say_holding-Ends d readers id p text kind s h =
      bind-Ends C D I I (on_ui id (add_message (message text kind)) s) _
        (on_ui-Ends steps id (add_message (message text kind)) s h) (locked readers)
    where
      locked :
          (n : ℕ) (t : RoomServer)
          → I t
          → Ends C D I (
              with_lock n
                (λ u.
                  add_message_to_history u (get_pub_key_hash digest p.pub_key) (message text kind))
                t)
      locked zero t ht =
          steps.to_history (get_pub_key_hash digest p.pub_key) (message text kind) t ht
      locked (suc n) t ht = d

  pub say_all-Ends :
      (id : Text) (p : Person) (lines : List Text) (s : RoomServer)
      → I s
      → Ends C D I (say_all digest id p lines s)
  unfolding say_all
  say_all-Ends id p [] s h = h
  say_all-Ends id p (line ∷ lines) s h =
      bind-Ends C D I I (say digest id p line msg_server s) _ (say-Ends id p line msg_server s h)
        (λ t. say_all-Ends id p lines t)

  pub help-Ends : (id : Text) (p : Person) (s : RoomServer) → I s → Ends C D I (help digest id p s)
  unfolding help
  help-Ends id p s h =
      bind-Ends C D I I (say_all digest id p help_lines s) _ (say_all-Ends id p help_lines s h) more
    where
      more :
          (t : RoomServer)
          → I t
          → Ends C D I
              (if is_operator p.pub_key t then say_all digest id p operator_lines t else finished t)
      more t ht = elim (Bool-cases (is_operator p.pub_key t)) [
        | inl eq ↦ rw eq (say_all-Ends id p operator_lines t ht)
        | inr ne ↦ rw ne ht
      ]

  person_line-Ends :
      (op : Option Text) (e : Text × Person)
      → C ⊎ HasKey e
      → Ends C D (λ _. Unit) (person_line digest op e.1)
  unfolding person_line
  person_line-Ends none (id, p) h = tt
  person_line-Ends (some op) (id, p) (inl c) = elim (Option-cases p.pub_key) [
    | inl none_there ↦ rw none_there c
    | inr (key, there) ↦ rw there tt
  ]
  person_line-Ends (some op) (id, p) (inr (key, there)) = rw there tt

  people_lines-Ends :
      (op : Option Text) (people : List (Text × Person))
      → C ⊎ All HasKey people
      → Ends C D (λ _. Unit) (people_lines digest op people)
  unfolding people_lines
  people_lines-Ends op [] h = tt
  people_lines-Ends op ((id, p) ∷ people) h =
      bind-Ends C D (λ _. Unit) (λ _. Unit) (person_line digest op p) _
        (person_line-Ends op (id, p) (first h))
        (λ line _.
          bind-Ends C D (λ _. Unit) (λ _. Unit) (people_lines digest op people) _
            (people_lines-Ends op people (others h)) (λ lines _. tt))
    where
      first : C ⊎ All HasKey ((id, p) ∷ people) → C ⊎ HasKey (id, p)
      first (inl c) = inl c
      first (inr (k, _)) = inr k

      others : C ⊎ All HasKey ((id, p) ∷ people) → C ⊎ All HasKey people
      others (inl c) = inl c
      others (inr (_, ks)) = inr ks

  pub list_people-Ends :
      (id : Text) (p : Person) (s : RoomServer) → I s → Ends C D I (list_people digest id p s)
  unfolding list_people
  list_people-Ends id p s h =
      bind-Ends C D (λ _. Unit) I (people_lines digest s.operator_pub_key s.people) _
        (people_lines-Ends s.operator_pub_key s.people (steps.keys s h))
        (λ lines _.
          bind-Ends C D I I (say digest id p (runes "People:") msg_server s) _
            (say-Ends id p (runes "People:") msg_server s h) (say_all-Ends id p lines))

  pub me-Ends :
      (id : Text) (p : Person) (arg : Option Text) (s : RoomServer)
      → I s
      → Ends C D I (me digest id p arg s)
  unfolding me
  me-Ends id p none s h = say-Ends id p _ msg_server s h
  me-Ends id p (some rest) s h = broadcast_with_history-holds p.pub_key _ msg_action s h

  tell_bystanders-Ends :
      (sender target : Text) (m : Message) (people : List (Text × Person)) (s : RoomServer)
      → I s
      → Ends C D I (tell_bystanders digest sender target m people s)
  unfolding tell_bystanders
  tell_bystanders-Ends sender target m [] s h = h
  tell_bystanders-Ends sender target m ((id, person) ∷ people) s h =
      elim (Bool-cases
        (not (text_eq person.username sender) && not (text_eq person.username target))) [
          | inl other_one ↦
              rw (tell_bystanders, other_one)
                (bind-Ends C D I I (on_ui id (add_message m) s) _
                  (on_ui-Ends steps id (add_message m) s h)
                  (λ t ht.
                    tell_bystanders-Ends sender target m people _
                      (steps.to_history (get_pub_key_hash digest person.pub_key) m t ht)))
          | inr part_of ↦
              rw (tell_bystanders, part_of) (tell_bystanders-Ends sender target m people s h)
        ]

  whisper_to-Ends :
      (id : Text) (p : Person) (target_name text target_id : Text) (target : Person)
      (s : RoomServer)
      → I s
      → Ends C D I (whisper_to digest id p target_name text target_id target s)
  unfolding whisper_to
  whisper_to-Ends id p target_name text target_id target s h =
      let sent = message (runes "-> [" ++ (target_name ++ (runes "] " ++ text))) msg_whisper in
      let received = message (runes "[" ++ (p.username ++ (runes "] -> " ++ text))) msg_whisper in
      bind-Ends C D I I (say digest id p sent.text msg_whisper s) _
        (say-Ends id p sent.text msg_whisper s h)
        (λ t ht.
          bind-Ends C D I I (on_ui target_id (add_message received) t) _
            (on_ui-Ends steps target_id (add_message received) t ht)
            (λ u hu.
              let v = add_message_to_history u (get_pub_key_hash digest p.pub_key) sent in
              tell_bystanders-Ends p.username target_name _ _ _ (
                steps.to_history (get_pub_key_hash digest target.pub_key) received v
                  (steps.to_history (get_pub_key_hash digest p.pub_key) sent u hu))))

  pub whisper-Ends :
      (id : Text) (p : Person) (arg : Option Text) (s : RoomServer)
      → I s
      → Ends C D I (whisper digest id p arg s)
  unfolding whisper
  whisper-Ends id p none s h = say-Ends id p _ msg_server s h
  whisper-Ends id p (some rest) s h = elim (Option-cases (two_words rest).1) [
    | inl one_word ↦ rw (whisper, one_word) (say-Ends id p _ msg_server s h)
    | inr (last, two) ↦ elim (Option-cases (find_named (trim_space (two_words rest).0) s.people)) [
      | inl nobody ↦ rw (whisper, two, nobody) (say-Ends id p _ msg_server s h)
      | inr ((target_id, target), found) ↦
          rw (whisper, two, found)
            (whisper_to-Ends id p (trim_space (two_words rest).0) (trim_space last) target_id target
              s h)
    ]
  ]

  pub clear-Ends :
      (id : Text) (p : Person) (s : RoomServer) → I s → Ends C D I (clear digest id p s)
  unfolding clear
  clear-Ends id p s h =
      on_ui-Ends steps id clear_messages _
        (steps.clear_history (get_pub_key_hash digest p.pub_key) s h)

  pub list_doors-Ends :
      (id : Text) (p : Person) (s : RoomServer) → I s → Ends C D I (list_doors digest id p s)
  unfolding list_doors
  list_doors-Ends id p s h = say_all-Ends id p _ s h

  set_quit_reason-holds :
      (id reason : Text) (s : RoomServer) → I s → I (set_quit_reason id reason s)
  unfolding set_quit_reason
  set_quit_reason-holds id reason s h = elim (Option-cases (get id s.people)) [
    | inl gone ↦ rw (set_quit_reason, gone) h
    | inr (p, known) ↦
        rw (set_quit_reason, known) (steps.move id p _ s known (refl, refl, refl, refl, λ e. e) h)
  ]

  pub quit-Ends :
      (id : Text) (p : Person) (arg : Option Text) (s : RoomServer)
      → I s
      → Ends C D I (quit id p arg s)
  unfolding quit
  quit-Ends id p none s h = on_ui-Ends steps id (close true) s h
  quit-Ends id p (some rest) s h =
      on_ui-Ends steps id (close true) _ (set_quit_reason-holds id (trim_space rest) s h)
