-- ===== src/Room/Bystanders.antt =====
-- Whispers beside somebody whose screen has not started.
use underground_node_network.Base.{
  ◌≡◌, ◌≢◌, refl, sym, ap, ◌∙◌, subst, [], ◌∷◌, ◌++◌, Bool, true, ◌&&◌, not, none, some, Bool-cases,
  Option-cases, inl, inr, same, some_injective, arith,
}
use underground_node_network.Map.{Map, get, get-put}
use underground_node_network.Text.{
  Text, text_eq, text_eq_iff, text_key, runes, has_prefix, trim_space,
}
use underground_node_network.Room.{
  with_lock, ChatUi, Message, Person, RoomServer, Handled, finished, crashed, deadlocked, ◌>>=◌,
  set_person, on_ui, add_message, add_message_to_history, msg_command, msg_whisper,
}
use underground_node_network.Room.Steps.{Ends}
use underground_node_network.Room.Steps.Talking.{say-Ends}
use underground_node_network.Room.Finding.{Found, Found-Steps}
use underground_node_network.Room.Commands.Talk.{
  message, say_holding, say, two_words, find_named, tell_bystanders, whisper_to, whisper,
}
use underground_node_network.Room.Commands.{
  command_of, command_parts, cmd_whisper, handled, run_command, handle_internal_command,
}

-- Somebody who is there as given.
abbrev At : Text → Person → RoomServer → Type 0
At b q s = get b s.people ≡ some q

-- Such a call crashes, or it is done and `b` is as before.
abbrev Crashing : Text → Person → Handled RoomServer → Type 0
Crashing b q (finished s) = At b q s
Crashing b q crashed = Unit
Crashing b q deadlocked = ⊥

crash-bind :
    {B : Type 0} (b : Text) (q : Person) (m : Handled RoomServer) (f : RoomServer → Handled B)
    → Crashing b q m
    → ((s : RoomServer) → At b q s → f s ≡ crashed)
    → (m >>= f) ≡ crashed
crash-bind b q (finished s) f h k = k s h
crash-bind b q crashed f h k = refl
crash-bind b q deadlocked f h k = absurd h

-- With something else that is known of the state behind the call.
crash-bind_with :
    {B : Type 0} (b : Text) (q : Person) (J : RoomServer → Type 0) (m : Handled RoomServer)
    (f : RoomServer → Handled B)
    → Crashing b q m
    → Ends Unit Unit J m
    → ((s : RoomServer) → At b q s → J s → f s ≡ crashed)
    → (m >>= f) ≡ crashed
crash-bind_with b q J (finished s) f h j k = k s h j
crash-bind_with b q J crashed f h j k = refl
crash-bind_with b q J deadlocked f h j k = absurd h

Crashing-bind :
    (b : Text) (q : Person) (m : Handled RoomServer) (f : RoomServer → Handled RoomServer)
    → Crashing b q m
    → ((s : RoomServer) → At b q s → Crashing b q (f s))
    → Crashing b q (m >>= f)
Crashing-bind b q (finished s) f h k = k s h
Crashing-bind b q crashed f h k = tt
Crashing-bind b q deadlocked f h k = absurd h

module _ (b : Text) (q : Person) (blind : q.chat_ui ≡ none) where
  on_ui-Crashing :
      (id : Text) (f : ChatUi → ChatUi) (s : RoomServer) → At b q s → Crashing b q (on_ui id f s)
  unfolding on_ui set_person
  on_ui-Crashing id f s h = elim (Option-cases (get id s.people)) [
    | inl gone ↦ rw (on_ui, gone) h
    | inr (p, known) ↦ elim (Option-cases p.chat_ui) [
      | inl none_yet ↦ rw (on_ui, known, none_yet) tt
      | inr (ui, seen) ↦
          rw (on_ui, known, seen)
            (elim (Bool-cases (same id b)) [
              | inl eq ↦
                  let is_q : p ≡ q =
                    some_injective
                      (sym known ∙ ap (λ i. get i s.people) ((text_eq_iff id b).0 eq) ∙ h) in
                  let never : q.chat_ui ≡ some ui = subst (λ r. r.chat_ui ≡ some ui) is_q seen in cc
              | inr ne ↦ rw (get-put, ne) h
            ])
    ]
  ]

  on_ui-blind : (f : ChatUi → ChatUi) (s : RoomServer) → At b q s → on_ui b f s ≡ crashed
  unfolding on_ui
  on_ui-blind f s h = rw (on_ui, h, blind) refl

  module _ (digest : Text → Text) where
    say-Crashing :
        (id : Text) (p : Person) (text : Text) (s : RoomServer) (m : Message)
        → m ≡ message text m.kind
        → At b q s
        → Crashing b q (say digest id p text m.kind s)
    unfolding say say_holding with_lock on_ui add_message_to_history
    say-Crashing id p text s m e h =
        Crashing-bind b q (on_ui id (add_message (message text m.kind)) s) _
          (on_ui-Crashing id (add_message (message text m.kind)) s h) (λ t ht. ht)

    -- The loop comes to `b`.
    tell_bystanders-crashed :
        (sender target : Text) (m : Message) (people : Map Text Person) (s : RoomServer)
        → q.username ≢ sender
        → q.username ≢ target
        → get b people ≡ some q
        → At b q s
        → tell_bystanders digest sender target m people s ≡ crashed
    unfolding tell_bystanders add_message_to_history get
    tell_bystanders-crashed sender target m [] s ns nt there h = cc
    tell_bystanders-crashed sender target m ((id, person) ∷ people) s ns nt there h =
        elim (Bool-cases (same id b)) [
          | inl eq ↦
              let is_q : person ≡ q = some_injective (rw eq at there) in
              let others : (not (text_eq person.username sender)
                    && not (text_eq person.username target))
                  ≡ true =
                subst
                  (λ r. (not (text_eq r.username sender) && not (text_eq r.username target)) ≡ true)
                  (sym is_q)
                  (ground (arith, text_eq_iff q.username sender, text_eq_iff q.username target)) in
              let here : on_ui id (add_message m) s ≡ crashed =
                subst (λ i. on_ui i (add_message m) s ≡ crashed) (sym ((text_eq_iff id b).0 eq))
                  (on_ui-blind (add_message m) s h) in
              rw (tell_bystanders, others, here) refl
          | inr ne ↦
              let later = rw ne at there in
              elim (Bool-cases
                (not (text_eq person.username sender) && not (text_eq person.username target))) [
                  | inl others ↦
                      rw (tell_bystanders, others)
                        (crash-bind b q (on_ui id (add_message m) s) _
                          (on_ui-Crashing id (add_message m) s h)
                          (λ t ht. tell_bystanders-crashed sender target m people _ ns nt later ht))
                  | inr part_of ↦
                      rw (tell_bystanders, part_of)
                        (tell_bystanders-crashed sender target m people s ns nt later h)
                ]
        ]

    whisper_to-crashed :
        (id : Text) (p : Person) (target_name text target_id : Text) (target : Person)
        (s : RoomServer)
        → q.username ≢ p.username
        → q.username ≢ target_name
        → At b q s
        → whisper_to digest id p target_name text target_id target s ≡ crashed
    unfolding whisper_to add_message_to_history
    whisper_to-crashed id p target_name text target_id target s ns nt h =
        let sent = message (runes "-> [" ++ (target_name ++ (runes "] " ++ text))) msg_whisper in
        crash-bind b q (say digest id p sent.text msg_whisper s) _
          (say-Crashing id p sent.text s sent refl h)
          (λ t ht.
            crash-bind b q (on_ui target_id _ t) _ (on_ui-Crashing target_id _ t ht)
              (λ u hu. tell_bystanders-crashed p.username target_name _ u.people _ ns nt hu hu))

-- Somebody whispers to somebody who is there, and there is a third person under another name whose
-- screen has not started: the server crashes.
pub handle_internal_command-bystander :
    (digest : Text → Text) (id : Text) (p : Person) (cmd rest text b : Text) (q : Person)
    (target : Text × Person) (s : RoomServer)
    → has_prefix cmd (runes "/") ≡ true
    → command_of (command_parts cmd).0 ≡ cmd_whisper
    → (command_parts cmd).1 ≡ some rest
    → (two_words rest).1 ≡ some text
    → find_named (trim_space (two_words rest).0) s.people ≡ some target
    → get b s.people ≡ some q
    → q.chat_ui ≡ none
    → q.username ≢ p.username
    → q.username ≢ trim_space (two_words rest).0
    → handle_internal_command digest id p cmd s ≡ crashed
unfolding handle_internal_command run_command whisper handled find_named
handle_internal_command-bystander digest id p cmd rest text b q target s slash is_whisper has_arg
      has_text found there blind ns nt =
    let name = trim_space (two_words rest).0 in
    let test : Person → Bool = λ r. text_eq r.username name in
    let m = message cmd msg_command in
    rw (handle_internal_command, slash)
      (crash-bind_with b q (Found test target.1.pub_key) (say digest id p cmd msg_command s) _
        (say-Crashing b q blind digest id p cmd s m refl there)
        (say-Ends
          (Found-Steps test target.1.pub_key (λ x y same_one. ap (λ n. text_eq n name) same_one.0))
          digest id p cmd msg_command s (target.0, target.1, found, refl))
        (λ t ht (target_id, r, found_t, _).
          let gone =
            whisper_to-crashed b q blind digest id p name (trim_space text) target_id r t ns nt
              ht in
          rw (is_whisper, has_arg, run_command, whisper, has_text, find_named, found_t, gone) refl))
