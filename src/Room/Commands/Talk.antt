-- ===== src/Room/Commands/Talk.antt =====
-- internal/sshserver/commands.go: the commands that everybody has.
use underground_node_network.Base.{
  [], ◌∷◌, ◌++◌, List, Bool, true, false, ◌&&◌, not, Option, none, some, length, if◌then◌else◌, ltb,
  take, ℕ, zero,
}
use underground_node_network.Map.{get, delete}
use underground_node_network.Text.{Text, text_eq, text_key, runes, trim_space}
use underground_node_network.Text.Split.{split_n}
use underground_node_network.Doors.{list}
use underground_node_network.Room.{
  Message, MessageType, Person, RoomServer, Handled, finished, crashed, ◌>>=◌, msg_server,
  msg_action, msg_whisper, msg_system, on_ui, add_message, with_lock, clear_messages, close,
  add_message_to_history, set_person, is_operator, get_pub_key_hash, broadcast_with_history,
}

-- parts[0], and parts[1] where there is one.
unfoldable pub head_and_rest : List Text → Text × Option Text
head_and_rest [] = ([], none)
head_and_rest (a ∷ []) = (a, none)
head_and_rest (a ∷ b ∷ ps) = (a, some b)

abbrev pub message : Text → MessageType → Message
message text kind = record { text = text; kind = kind }

abbrev pub help_lines : List Text
help_lines =
    runes "--- Available Commands ---"
    ∷ runes "/help         - Show this help"
    ∷ runes "/people       - List people in room"
    ∷ runes "/doors        - List available doors"
    ∷ runes "/clear        - Clear your chat history"
    ∷ runes "/open <door>  - Open a door (launch program)"
    ∷ runes "/quit [msg]   - Leave the room"
    ∷ runes "Ctrl+C        - Exit room"
    ∷ []

abbrev pub operator_lines : List Text
operator_lines =
    runes "--- Operator Commands ---"
    ∷ runes "/kick <person> [reason]    - Kick a person"
    ∷ runes "/kickban <person> [reason] - Kick and ban a person"
    ∷ runes "/unban <person>            - Unban a person"
    ∷ runes "/banlist                   - List banned people"
    ∷ runes "/lock <key>                - Lock the room"
    ∷ runes "/unlock                    - Unlock the room"
    ∷ runes "/kickall [reason]          - Kick everyone"
    ∷ []

-- The loops that look for the first person with something.
unfoldable pub find_person : (Person → Bool) → List (Text × Person) → Option (Text × Person)
find_person test [] = none
find_person test ((id, p) ∷ people) =
    let later = find_person test people in if test p then some (id, p) else later

unfoldable pub find_named : Text → List (Text × Person) → Option (Text × Person)
find_named name people = find_person (λ p. text_eq p.username name) people

-- p.QuitReason = reason
unfoldable pub set_quit_reason : Text → Text → RoomServer → RoomServer
set_quit_reason id reason s = elim (get id s.people) [
  | none ↦ s
  | some p ↦ set_person id (record p { quit_reason = reason }) s
]

-- `kick` and the like: SplitN(parts[1], " ", 2)
unfoldable pub two_words : Text → Text × Option Text
two_words rest = head_and_rest (split_n 2 rest b' ')

module _ (digest : Text → Text) where
  -- addMessage, called by who holds the room's lock for reading `readers` times.
  unfoldable pub say_holding :
      ℕ → Text → Person → Text → MessageType → RoomServer → Handled RoomServer
  say_holding readers id p text kind s = on_ui id (add_message (message text kind)) s >>= λ t.
      with_lock readers
        (λ u. add_message_to_history u (get_pub_key_hash digest p.pub_key) (message text kind)) t

  -- addMessage, called without the lock.
  unfoldable pub say : Text → Person → Text → MessageType → RoomServer → Handled RoomServer
  say = say_holding zero

  unfoldable pub say_all : Text → Person → List Text → RoomServer → Handled RoomServer
  say_all id p [] s = finished s
  say_all id p (line ∷ lines) s = say id p line msg_server s >>= λ t. say_all id p lines t

  -- case "help"
  unfoldable pub help : Text → Person → RoomServer → Handled RoomServer
  help id p s = say_all id p help_lines s >>= λ t.
      if is_operator p.pub_key t then say_all id p operator_lines t else finished t

  -- The line of a person in the list of people: Marshal panics on a nil key.
  unfoldable pub person_line : Option Text → Person → Handled Text
  person_line none person =
      let hash = get_pub_key_hash digest person.pub_key in
      let short = if ltb 8 (length hash) then take 8 hash else hash in
      finished (person.username ++ (runes " (" ++ (short ++ runes ")")))
  person_line (some op) person = elim person.pub_key [
    | none ↦ crashed
    | some key ↦
        let hash = get_pub_key_hash digest (some key) in
        let short = if ltb 8 (length hash) then take 8 hash else hash in
        let prefix = if text_eq key op then runes "@" else [] in
        finished (prefix ++ (person.username ++ (runes " (" ++ (short ++ runes ")"))))
  ]

  unfoldable pub people_lines : Option Text → List (Text × Person) → Handled (List Text)
  people_lines op [] = finished []
  people_lines op ((id, person) ∷ people) = person_line op person >>= λ line.
      people_lines op people >>= λ lines. finished ((runes "• " ++ line) ∷ lines)

  -- case "people"
  unfoldable pub list_people : Text → Person → RoomServer → Handled RoomServer
  list_people id p s = people_lines s.operator_pub_key s.people >>= λ lines.
      say id p (runes "People:") msg_server s >>= λ t. say_all id p lines t

  -- case "me"
  unfoldable pub me : Text → Person → Option Text → RoomServer → Handled RoomServer
  me id p none s = say id p (runes "Usage: /me <action>") msg_server s
  me id p (some rest) s =
      let text = runes "* " ++ (p.username ++ (runes " " ++ trim_space rest)) in
      finished (broadcast_with_history digest p.pub_key text msg_action s)

  -- The loop that tells the others that somebody whispers.
  unfoldable pub tell_bystanders :
      Text → Text → Message → List (Text × Person) → RoomServer → Handled RoomServer
  tell_bystanders sender target m [] s = finished s
  tell_bystanders sender target m ((id, person) ∷ people) s =
      elim (not (text_eq person.username sender) && not (text_eq person.username target)) [
        | true ↦ on_ui id (add_message m) s >>= λ t.
            tell_bystanders sender target m people
              (add_message_to_history t (get_pub_key_hash digest person.pub_key) m)
        | false ↦ tell_bystanders sender target m people s
      ]

  -- case "whisper", once the person is found.
  unfoldable pub whisper_to :
      Text → Person → Text → Text → Text → Person → RoomServer → Handled RoomServer
  whisper_to id p target_name text target_id target s =
      let sent = message (runes "-> [" ++ (target_name ++ (runes "] " ++ text))) msg_whisper in
      let received = message (runes "[" ++ (p.username ++ (runes "] -> " ++ text))) msg_whisper in
      let about =
        message
          (runes "* " ++ (p.username ++ (runes " is secretly whispering with " ++ target_name)))
          msg_system in
      say id p sent.text msg_whisper s >>= λ t. on_ui target_id (add_message received) t >>= λ u.
      let v = add_message_to_history u (get_pub_key_hash digest p.pub_key) sent in
      let w = add_message_to_history v (get_pub_key_hash digest target.pub_key) received in
      tell_bystanders p.username target_name about w.people w

  unfoldable pub whisper : Text → Person → Option Text → RoomServer → Handled RoomServer
  whisper id p none s = say id p (runes "Usage: /whisper <user> <message>") msg_server s
  whisper id p (some rest) s = elim (two_words rest).1 [
    | none ↦ say id p (runes "Usage: /whisper <user> <message>") msg_server s
    | some last ↦
        let target_name = trim_space (two_words rest).0 in
        elim (find_named target_name s.people) [
          | none ↦ say id p (runes "User '" ++ (target_name ++ runes "' not found.")) msg_server s
          | some (target_id, target) ↦
              whisper_to id p target_name (trim_space last) target_id target s
        ]
  ]

  -- case "clear"
  unfoldable pub clear : Text → Person → RoomServer → Handled RoomServer
  clear id p s =
      let hash = get_pub_key_hash digest p.pub_key in
      let t : RoomServer = record s { histories = delete hash s.histories } in
      on_ui id clear_messages t

  -- case "doors"
  unfoldable pub door_lines : List Text → List Text
  door_lines [] = runes "Type /open <door> to launch a program." ∷ []
  door_lines (door ∷ doors) = (runes "• " ++ door) ∷ door_lines doors

  unfoldable pub list_doors : Text → Person → RoomServer → Handled RoomServer
  list_doors id p s =
      say_all id p (runes "--- Available doors ---" ∷ door_lines (list s.door_manager)) s

-- case "quit", "exit"
unfoldable pub quit : Text → Person → Option Text → RoomServer → Handled RoomServer
quit id p none s = on_ui id (close true) s
quit id p (some rest) s = on_ui id (close true) (set_quit_reason id (trim_space rest) s)
