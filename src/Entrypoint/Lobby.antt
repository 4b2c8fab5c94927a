-- ===== src/Entrypoint/Lobby.antt =====
-- internal/entrypoint/commands.go: the commands of a person at the entry point, and the way into a
-- room, with what they call of internal/ui/entry.go. A person belongs to one connection; the bus holds
-- the messages that SendOSC wrote, with their parameters.
pub mod Answered
pub mod Joined
use underground_node_network.Base.{
  ℕ, suc, [], ◌∷◌, ◌++◌, List, Bool, true, false, Option, none, some, Outcome, returns, panics,
  ◌>>=◌, if◌then◌else◌,
}
use underground_node_network.Base.Int.{ℤ, pos, negsuc}
use underground_node_network.Map.{Map, get, put, delete}
use underground_node_network.Text.{
  Text, text_eq, text_key, runes, has_prefix, trim_prefix, trim_space,
}
use underground_node_network.Text.Words.{fields}
use underground_node_network.Text.Decimal.{decimal}
use underground_node_network.Protocol.{RoomInfo, PunchStartPayload, PunchOfferPayload}
use underground_node_network.Room.{
  Message, MessageType, msg_command, msg_server, msg_system, history_of, append_capped, is_last,
}
use underground_node_network.Entrypoint.State.{Server, Room, Conn, PersonChan, PunchSession}
use underground_node_network.Entrypoint.Operator.{room_infos}

-- EntryUI: the messages of its log, the rooms of its sidebar, and closeChan with success.
pub record EntryUi : Type 0 where
  pub messages : List Message
  pub rooms : List RoomInfo
  pub is_closed : Bool
  pub success : Bool

-- Person; `ui` is none where the pointer is nil.
pub record Visitor : Type 0 where
  pub username : Text
  pub pub_key_hash : Text
  pub ui : Option EntryUi
  pub bus : List (Text × PunchStartPayload)
  pub teleport_data : Option PunchStartPayload

-- The server with the histories of those who are there.
pub record Lobby : Type 0 where
  pub server : Server
  pub histories : Map Text (List Message)
  pub cmd_histories : Map Text (List Text)

-- EntryUI.Close
unfoldable pub close_entry : Bool → EntryUi → EntryUi
close_entry success ui =
    if ui.is_closed then ui else record ui { is_closed = true; success = success }

-- The method of a pointer that may be nil.
unfoldable pub on_entry : (EntryUi → EntryUi) → Visitor → Outcome Visitor
on_entry f p = elim p.ui [ none ↦ panics | some ui ↦ returns (record p { ui = some (f ui) }) ]

unfoldable pub keep_message : Lobby → Text → Message → Lobby
keep_message s hash m = if text_eq hash [] then s else record s {
  histories = put hash (append_capped 200 (history_of hash s.histories) m) s.histories;
}

unfoldable pub keep_command : Lobby → Text → Text → Lobby
keep_command s hash cmd =
    let history = history_of hash s.cmd_histories in
    if text_eq hash []
    then s
    else if is_last cmd history
    then s
    else record s { cmd_histories = put hash (append_capped 100 history cmd) s.cmd_histories }

-- updatePersonRooms
unfoldable pub update_person_rooms : Lobby → Visitor → Visitor
update_person_rooms s p = elim p.ui [
  | none ↦ p
  | some ui ↦ record p { ui = some (record ui { rooms = room_infos s.server.rooms }) }
]

unfoldable pub with_message : Message → Visitor → Visitor
with_message m p = elim p.ui [
  | none ↦ p
  | some ui ↦ record p { ui = some (record ui { messages = ui.messages ++ m ∷ [] }) }
]

-- showMessage
unfoldable pub show_message : Text → MessageType → Lobby × Visitor → Lobby × Visitor
show_message text kind (s, p) =
    let m : Message = record { text = text; kind = kind } in
    (keep_message s p.pub_key_hash m, with_message m p)

unfoldable pub show_lines : List Text → Lobby × Visitor → Lobby × Visitor
show_lines [] x = x
show_lines (line ∷ lines) x = show_lines lines (show_message line msg_server x)

abbrev pub entry_help : List Text
entry_help =
    runes "/help                     - Show this help message"
    ∷ runes "/rooms                    - List all active rooms"
    ∷ runes "/join <room_name>         - Join a room by name"
    ∷ runes "/quit                     - Exit"
    ∷ runes "Ctrl+C                    - Exit"
    ∷ []

-- %d
unfoldable pub int_text : ℤ → Text
int_text (pos n) = decimal n
int_text (negsuc n) = b'-' ∷ decimal (suc n)

unfoldable pub room_lines : List RoomInfo → List Text
room_lines [] = []
room_lines (room ∷ rooms) =
    (runes "• "
      ++ (room.name ++ (runes " (" ++ (int_text room.people_count ++ (runes ") @" ++ room.owner)))))
    ∷ room_lines rooms

unfoldable pub list_rooms : Lobby × Visitor → Lobby × Visitor
list_rooms (s, p) = elim (room_infos s.server.rooms) [
  | [] ↦ show_message (runes "No rooms found.") msg_server (s, p)
  | room ∷ rooms ↦
      show_lines (room_lines (room ∷ rooms)) (show_message (runes "Rooms:") msg_server (s, p))
]

-- The extensions of a connection; a missing one is "".
unfoldable pub permission : Conn → Text → Text
permission conn key = elim (get key conn.extensions) [ none ↦ [] | some v ↦ v ]

-- What the operator of the room is offered.
unfoldable pub join_offer : Visitor → Conn → Text → PunchOfferPayload
join_offer p conn person_id =
    let name = permission conn (runes "username") in
    record {
      person_id = person_id;
      candidates = [];
      person_key = permission conn (runes "pubkey");
      display_name =
          if text_eq (permission conn (runes "verified")) (runes "true")
          then name ++ (runes " (" ++ (permission conn (runes "platform") ++ runes ")"))
          else p.username;
      username = if text_eq name [] then p.username else name;
    }

-- A command that is done, or a join that waits: the id, the operator's connection and the offer.
pub data Lobbied : Type 0 where
  done : Lobby → Visitor → Lobbied
  joining : Lobby → Visitor → Text → ℕ → PunchOfferPayload → Lobbied

unfoldable pub finish : Lobby × Visitor → Lobbied
finish (s, p) = done s p

-- handleRoomJoin until it waits; `now` is the clock in ns.
unfoldable pub begin_join : Lobby → Visitor → Conn → ℕ → Text → Lobbied
begin_join s p conn now room_name = elim (get room_name s.server.rooms) [
  | none ↦ finish (show_message (runes "Room not found: " ++ room_name) msg_server (s, p))
  | some room ↦
      let person_id = p.username ++ b'-' ∷ decimal now in
      let session : PunchSession = record {
        room_name = room_name;
        person_chan = some (record { capacity = 1; queue = [] });
      } in
      let server : Server = record s.server {
        punch_sessions = put person_id session s.server.punch_sessions;
      } in
      joining (record s { server = server }) p person_id room.connection
        (join_offer p conn person_id)
]

-- What is in the channel of the join.
unfoldable pub start_message : Server → Text → Option PunchStartPayload
start_message s person_id = elim (get person_id s.punch_sessions) [
  | none ↦ none
  | some session ↦ elim session.person_chan [
    | none ↦ none
    | some c ↦ elim c.queue [ [] ↦ none | start ∷ _ ↦ some start ]
  ]
]

unfoldable pub forget_join : Text → Lobby → Lobby
forget_join person_id s =
    let server : Server = record s.server {
      punch_sessions = delete person_id s.server.punch_sessions;
    } in
    record s { server = server }

-- handleRoomJoin from there on: a message in the channel, or else ten seconds pass. The message parses,
-- since handleOperator made it.
unfoldable pub end_join : Lobby → Visitor → Text → Outcome (Lobby × Visitor)
end_join s p person_id = elim (start_message s.server person_id) [
  | none ↦
      let shown = show_message (runes "Timeout waiting for room operator.") msg_server (s, p) in
      returns (forget_join person_id shown.0, shown.1)
  | some start ↦
      let q : Visitor = record p {
        teleport_data = some start;
        bus = p.bus ++ (runes "teleport", start) ∷ [];
      } in
      let shown = show_message (runes "Room joined! Teleporting...") msg_system (s, q) in
      on_entry (close_entry true) shown.1 >>= λ r. returns (forget_join person_id shown.0, r)
]

-- The switch of handlePersonCommand.
unfoldable pub entry_command : Lobby × Visitor → Conn → ℕ → Text → List Text → Outcome Lobbied
entry_command x conn now word args =
    if text_eq word (runes "help")
    then returns (finish (show_lines entry_help x))
    else if text_eq word (runes "join")
    then elim args [
      | [] ↦ returns (finish (show_message (runes "Usage: /join <room_name>") msg_server x))
      | room_name ∷ _ ↦ returns (begin_join x.0 x.1 conn now room_name)
    ]
    else if text_eq word (runes "rooms")
    then returns (finish (list_rooms x))
    else if text_eq word (runes "quit")
    then (on_entry (close_entry false) x.1 >>= λ q. returns (done x.0 q))
    else if text_eq word (runes "exit")
    then (on_entry (close_entry false) x.1 >>= λ q. returns (done x.0 q))
    else returns (finish (show_message (runes "Unknown command: " ++ word) msg_server x))

unfoldable pub entry_words : Lobby × Visitor → Conn → ℕ → List Text → Outcome Lobbied
entry_words x conn now [] = returns (finish x)
entry_words x conn now (word ∷ args) = entry_command x conn now word args

unfoldable pub handle_person_command : Lobby → Visitor → Conn → ℕ → Text → Outcome Lobbied
handle_person_command s p conn now input =
    let line = trim_space input in
    let t = keep_command s p.pub_key_hash line in
    let x = show_message (runes "> " ++ line) msg_command (t, p) in
    if has_prefix line (runes "/")
    then entry_words x conn now (fields (trim_prefix line (runes "/")))
    else returns (
        finish (
          show_message (runes "Use /rooms to list rooms and /join <room> to join.") msg_server
            (show_message (runes "Chat is disabled in the entry point.") msg_server x)))
