-- ===== src/Room.antt =====
-- internal/sshserver: the state of a room's server (server.go), its histories and broadcasts (room.go),
-- and the parts of internal/ui/chat.go that they call. `digest` is the hexadecimal SHA-256 of a key.
-- The Person of a session stands under its session's id; a screen of somebody who has left is not kept.
pub mod Histories
pub mod Broadcast
pub mod Commands
pub mod Steps
pub mod Connections
pub mod Runs
pub mod Authority
pub mod Ready
pub mod Finding
pub mod Bystanders
pub mod Refused
use underground_node_network.Base.{
  ℕ, ◌+◌, [], ◌∷◌, ◌++◌, List, Bool, true, false, ◌&&◌, Option, none, some, length, if◌then◌else◌,
  ltb, drop, zero, suc,
}
use underground_node_network.Map.{Map, get, put, put_all}
use underground_node_network.Text.{Text, text_eq, text_key, runes}
use underground_node_network.Doors.{Manager}

-- MessageType of internal/ui/log/log.go
pub data MessageType : Type 0 where
  msg_chat : MessageType
  msg_self : MessageType
  msg_command : MessageType
  msg_server : MessageType
  msg_system : MessageType
  msg_action : MessageType
  msg_whisper : MessageType

pub record Message : Type 0 where
  pub text : Text
  pub kind : MessageType

-- ChatUI of internal/ui/chat.go: the messages of its log, the sidebars, the history of its command
-- line; `is_closed` says that closeChan is closed.
pub record ChatUi : Type 0 where
  pub messages : List Message
  pub people : List Text
  pub doors : List Text
  pub cmd_history : List Text
  pub is_closed : Bool
  pub success : Bool

-- A person; `pub_key` is the marshalled key, `chat_ui` and `bus` are none where the pointers are nil,
-- `bus` holds the messages that SendOSC wrote to it, `conn_closed` says that Conn.Close was called.
pub record Person : Type 0 where
  pub username : Text
  pub pub_key : Option Text
  pub chat_ui : Option ChatUi
  pub bus : Option (List (Map Text Text))
  pub conn_closed : Bool
  pub quit_reason : Text

pub record RoomServer : Type 0 where
  pub door_manager : Manager
  pub room_name : Text
  pub people : Map Text Person
  pub authorized_keys : Map Text Text
  pub headless : Bool
  pub histories : Map Text (List Message)
  pub cmd_histories : Map Text (List Text)
  pub banned_hashes : Map Text Text
  pub room_lock_key : Text
  pub operator_pub_key : Option Text

-- A call that finishes, one that panics, and one that waits for a lock for ever.
pub data Handled {ℓ} (A : Type ℓ) : Type ℓ where
  finished : A → Handled A
  crashed : Handled A
  deadlocked : Handled A

infixl 5 ◌>>=◌
abbrev pub ◌>>=◌ {ℓ κ} : {A : Type ℓ} {B : Type κ} → Handled A → (A → Handled B) → Handled B
finished a >>= f = f a
crashed >>= f = crashed
deadlocked >>= f = deadlocked

-- s.mu.Lock(), a change, s.mu.Unlock(), where the call that runs holds s.mu for reading `readers` times
-- already: Lock waits until every reader has let go, so a call that is a reader itself waits for ever.
unfoldable pub with_lock {ℓ} : {A : Type ℓ} → ℕ → (A → A) → A → Handled A
with_lock zero change s = finished (change s)
with_lock (suc readers) change s = deadlocked

-- ChatUI.AddMessage, SetPeople with SetDoors, ClearMessages and Close
unfoldable pub add_message : Message → ChatUi → ChatUi
add_message m ui = record ui { messages = ui.messages ++ m ∷ [] }

unfoldable pub set_lists : List Text → List Text → ChatUi → ChatUi
set_lists people doors ui = record ui { people = people; doors = doors }

unfoldable pub clear_messages : ChatUi → ChatUi
clear_messages ui = record ui { messages = [] }

unfoldable pub close : Bool → ChatUi → ChatUi
close success ui = if ui.is_closed then ui else record ui { is_closed = true; success = success }

unfoldable pub history_of : {A : Type 0} → Text → Map Text (List A) → List A
history_of k m = elim (get k m) [ none ↦ [] | some h ↦ h ]

-- append(history, x), and history[1:] where that is longer than `cap`.
unfoldable pub append_capped : {A : Type 0} → ℕ → List A → A → List A
append_capped cap h x = if ltb cap (length h + 1) then drop 1 (h ++ x ∷ []) else h ++ x ∷ []

unfoldable pub add_message_to_history : RoomServer → Text → Message → RoomServer
add_message_to_history s k m = record s {
  histories = put k (append_capped 200 (history_of k s.histories) m) s.histories;
}

-- history[len(history)-1] == cmd
unfoldable pub is_last : Text → List Text → Bool
is_last cmd [] = false
is_last cmd (c ∷ []) = text_eq c cmd
is_last cmd (c ∷ d ∷ h) = is_last cmd (d ∷ h)

unfoldable pub add_command_to_history : RoomServer → Text → Text → RoomServer
add_command_to_history s k cmd =
    let history = history_of k s.cmd_histories in
    if is_last cmd history
    then s
    else record s { cmd_histories = put k (append_capped 100 history cmd) s.cmd_histories }

unfoldable pub set_person : Text → Person → RoomServer → RoomServer
set_person id p s = record s { people = put id p s.people }

-- if p.ChatUI != nil { f(p.ChatUI) }
unfoldable pub on_ui_if : Text → (ChatUi → ChatUi) → RoomServer → RoomServer
on_ui_if id f s = elim (get id s.people) [
  | none ↦ s
  | some p ↦ elim p.chat_ui [
    | none ↦ s
    | some ui ↦ set_person id (record p { chat_ui = some (f ui) }) s
  ]
]

-- f(p.ChatUI), which panics where the pointer is nil.
unfoldable pub on_ui : Text → (ChatUi → ChatUi) → RoomServer → Handled RoomServer
on_ui id f s = elim (get id s.people) [
  | none ↦ finished s
  | some p ↦ elim p.chat_ui [
    | none ↦ crashed
    | some ui ↦ finished (set_person id (record p { chat_ui = some (f ui) }) s)
  ]
]

-- The payload that common.SendOSC encodes.
unfoldable pub osc_payload : Text → Map Text Text → Map Text Text
osc_payload action params = put_all params (put (runes "action") action [])

-- SendOSC to the bus of a person, whose Write panics where the pointer is nil.
unfoldable pub send_osc : Text → Text → Map Text Text → RoomServer → Handled RoomServer
send_osc id action params s = elim (get id s.people) [
  | none ↦ finished s
  | some p ↦ elim p.bus [
    | none ↦ crashed
    | some sent ↦
        finished
          (set_person id (record p { bus = some (sent ++ osc_payload action params ∷ []) }) s)
  ]
]

-- p.Conn.Close()
unfoldable pub close_conn : Text → RoomServer → RoomServer
close_conn id s = elim (get id s.people) [
  | none ↦ s
  | some p ↦ set_person id (record p { conn_closed = true }) s
]

unfoldable pub same_key : Option Text → Option Text → Bool
same_key none k = false
same_key (some j) none = false
same_key (some j) (some k) = text_eq j k

unfoldable pub is_operator : Option Text → RoomServer → Bool
is_operator key s = same_key key s.operator_pub_key

unfoldable pub is_chat : MessageType → Bool
is_chat msg_chat = true
is_chat _ = false

module _ (digest : Text → Text) where
  unfoldable pub get_pub_key_hash : Option Text → Text
  get_pub_key_hash none = runes "anonymous"
  get_pub_key_hash (some key) = digest key

  -- What the loops of both broadcasts do with a person.
  unfoldable pub reach : Text → Person → Message → RoomServer → RoomServer
  reach id p m s =
      add_message_to_history (on_ui_if id (add_message m) s) (get_pub_key_hash p.pub_key) m

  -- The loop of Broadcast over the people.
  unfoldable pub broadcast_to : RoomServer → List (Text × Person) → Text → Text → RoomServer
  broadcast_to s [] sender text = s
  broadcast_to s ((id, p) ∷ people) sender text =
      let kind = if text_eq p.username sender then msg_self else msg_chat in
      let m : Message = record { text = text; kind = kind } in
      broadcast_to (reach id p m s) people sender text

  unfoldable pub broadcast : RoomServer → Text → Text → RoomServer
  broadcast s sender message =
      broadcast_to s s.people sender (b'<' ∷ (sender ++ (runes "> " ++ message)))

  -- The loop of broadcastWithHistory.
  unfoldable pub with_history_to :
      RoomServer → List (Text × Person) → Option Text → Text → MessageType → RoomServer
  with_history_to s [] sender text kind = s
  with_history_to s ((id, p) ∷ people) sender text kind =
      let actual = if is_chat kind && same_key p.pub_key sender then msg_self else kind in
      let m : Message = record { text = text; kind = actual } in
      with_history_to (reach id p m s) people sender text kind

  unfoldable pub broadcast_with_history : Option Text → Text → MessageType → RoomServer → RoomServer
  broadcast_with_history sender text kind s = with_history_to s s.people sender text kind
