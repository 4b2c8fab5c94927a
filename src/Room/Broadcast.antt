-- ===== src/Room/Broadcast.antt =====
-- A broadcast reaches the histories of the people who are there, and no others.
use underground_node_network.Base.{
  ◌+◌, ◌≤◌, ◌≡◌, refl, sym, ◌∙◌, [], ◌∷◌, ◌++◌, List, Bool, true, false, ◌||◌, Option, none, some,
  length, length-append, if◌then◌else◌, ltb, arith, Bool-cases, inl, inr, same, subst,
}
use underground_node_network.Map.{get}
use underground_node_network.Text.{Text, text_eq, text_eq_iff, text_key, runes}
use underground_node_network.Room.{
  Message, msg_self, msg_chat, Person, ChatUi, RoomServer, history_of, append_capped,
  add_message_to_history, add_message, get_pub_key_hash, on_ui_if, reach, set_person, broadcast_to,
  broadcast,
}
use underground_node_network.Room.Histories.{history_of-put}

-- The text of the last message.
abbrev pub last_text : List Message → Option Text
last_text [] = none
last_text (m ∷ []) = some m.text
last_text (m ∷ n ∷ h) = last_text (n ∷ h)

last_text-append : (h : List Message) (m : Message) → last_text (h ++ m ∷ []) ≡ some m.text
last_text-append [] m = refl
last_text-append (n ∷ []) m = refl
last_text-append (n ∷ o ∷ h) m = last_text-append (o ∷ h) m

append_capped-last_text :
    (h : List Message) (m : Message)
    → (last_text (append_capped 200 h m) ≡ some m.text)
      × (length h ≤ 200 → length (append_capped 200 h m) ≤ 200)
unfolding append_capped
append_capped-last_text [] m = (refl, λ le. omega arith)
append_capped-last_text (n ∷ h) m = elim (Bool-cases (ltb 200 (length (n ∷ h) + 1))) [
  | inl long ↦ rw long (last_text-append h m, λ le. ground (arith, length-append h (m ∷ [])))
  | inr fits ↦ rw fits (last_text-append (n ∷ h) m, λ le. ground (arith, length-append h (m ∷ [])))
]

-- Somebody with the key hash `k` is there.
abbrev pub present : (Text → Text) → Text → List (Text × Person) → Bool
present digest k [] = false
present digest k ((id, p) ∷ people) =
    same (get_pub_key_hash digest p.pub_key) k || present digest k people

-- What a broadcast of `text` makes of the history `before` of a key, with somebody there or not.
abbrev pub Reached : Bool → Text → List Message → List Message → Type 0
Reached there text before after =
    (there ≡ true → last_text after ≡ some text)
    × (there ≡ false → after ≡ before)
    × (last_text before ≡ some text → last_text after ≡ some text)
    × (length before ≤ 200 → length after ≤ 200)

one_more :
    (s : RoomServer) (j k : Text) (m : Message)
    → Reached
        (same j k)
        m.text
        (history_of k s.histories)
        (history_of k (add_message_to_history s j m).histories)
unfolding add_message_to_history
one_more s j k m =
    subst (Reached (same j k) m.text (history_of k s.histories))
      (sym (history_of-put j k (append_capped 200 (history_of j s.histories) m) s.histories))
      (elim (Bool-cases (same j k)) [
        | inl eq ↦
            let is_k : j ≡ k = (text_eq_iff j k).0 eq in
            let (last, short) = append_capped-last_text (history_of j s.histories) m in
            rw eq (
              λ _. last,
              λ no_one. cc,
              λ _. last,
              subst
                  (λ i.
                    length (history_of i s.histories) ≤ 200
                    → length (append_capped 200 (history_of j s.histories) m) ≤ 200)
                  is_k short,
            )
        | inr ne ↦ rw ne ((λ yes_one. cc), (λ _. refl), (λ h. h), (λ h. h))
      ])

on_ui_if-histories :
    (id : Text) (f : ChatUi → ChatUi) (s : RoomServer) → (on_ui_if id f s).histories ≡ s.histories
unfolding on_ui_if set_person
on_ui_if-histories id f s = person (get id s.people)
  where
    ui :
        (p : Person) (o : Option ChatUi)
        → (elim o as (λ _. RoomServer) [
          | none ↦ s
          | some u ↦ set_person id (record p { chat_ui = some (f u) }) s
        ]).histories
          ≡ s.histories
    ui p none = refl
    ui p (some u) = refl

    person :
        (o : Option Person)
        → (elim o as (λ _. RoomServer) [
          | none ↦ s
          | some p ↦ elim p.chat_ui [
            | none ↦ s
            | some u ↦ set_person id (record p { chat_ui = some (f u) }) s
          ]
        ]).histories
          ≡ s.histories
    person none = refl
    person (some p) = ui p p.chat_ui

reach-Reached :
    (digest : Text → Text) (s : RoomServer) (id : Text) (p : Person) (k : Text) (m : Message)
    → Reached
        (same (get_pub_key_hash digest p.pub_key) k)
        m.text
        (history_of k s.histories)
        (history_of k (reach digest id p m s).histories)
unfolding reach
reach-Reached digest s id p k m =
    let j = get_pub_key_hash digest p.pub_key in
    let shown = on_ui_if id (add_message m) s in
    subst
      (λ h.
        Reached (same j k) m.text (history_of k h)
          (history_of k (add_message_to_history shown j m).histories))
      (on_ui_if-histories id (add_message m) s) (one_more shown j k m)

broadcast_to-Reached :
    (digest : Text → Text) (s : RoomServer) (people : List (Text × Person)) (sender text k : Text)
    → Reached
        (present digest k people)
        text
        (history_of k s.histories)
        (history_of k (broadcast_to digest s people sender text).histories)
unfolding broadcast_to
broadcast_to-Reached digest s [] sender text k = ((λ yes_one. cc), (λ _. refl), (λ h. h), (λ h. h))
broadcast_to-Reached digest s ((id, p) ∷ people) sender text k =
    let m : Message = record {
      text = text;
      kind = if text_eq p.username sender then msg_self else msg_chat;
    } in
    let j = get_pub_key_hash digest p.pub_key in
    let (here, not_here, keeps, short) = reach-Reached digest s id p k m in
    let (there, not_there, keeps', short') =
      broadcast_to-Reached digest (reach digest id p m s) people sender text k in
    (
      λ some_one. elim (Bool-cases (same j k)) [
        | inl eq ↦ keeps' (here eq)
        | inr ne ↦ there (rw ne at some_one)
      ],
      λ no_one. elim (Bool-cases (same j k)) [
        | inl eq ↦ let never = rw eq at no_one in cc
        | inr ne ↦ not_there (rw ne at no_one) ∙ not_here ne
      ],
      λ h. keeps' (keeps h),
      λ h. short' (short h),
    )

-- A broadcast is the last message in the history of every key with which somebody is there; all other
-- histories are as they were; no history that had 200 messages at most has more.
pub broadcast-Reached :
    (digest : Text → Text) (s : RoomServer) (sender message k : Text)
    → let text = b'<' ∷ (sender ++ (runes "> " ++ message)) in
      let after = history_of k (broadcast digest s sender message).histories in
      (present digest k s.people ≡ true → last_text after ≡ some text)
      × (present digest k s.people ≡ false → after ≡ history_of k s.histories)
      × (length (history_of k s.histories) ≤ 200 → length after ≤ 200)
unfolding broadcast
broadcast-Reached digest s sender message k =
    let (there, not_there, _, short) =
      broadcast_to-Reached digest s s.people sender (b'<' ∷ (sender ++ (runes "> " ++ message)))
        k in
    (there, not_there, short)
