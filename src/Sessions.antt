-- ===== src/Sessions.antt =====
-- The requests of an SSH session, by which both servers find out what a session is for.
pub mod Later
pub mod Fatal
use underground_node_network.Base.{
  ℕ, [], ◌∷◌, List, Bool, true, false, Option, none, some, Outcome, returns, panics, ◌>>=◌,
  if◌then◌else◌, length, slice, Bytes,
}
use underground_node_network.Map.{Map, get, delete}
use underground_node_network.Text.{Text, text_eq, text_key, runes}
use underground_node_network.Terminal.{parse_pty_request, parse_window_change}
use underground_node_network.Entrypoint.State.{Server, Room}

-- ssh.Request
pub record Request : Type 0 where
  pub kind : Text
  pub payload : Bytes

-- The size of the terminal, 80 by 24 where the request does not say.
unfoldable pub size_of : Option (ℕ × ℕ) → ℕ × ℕ
size_of none = (80, 24)
size_of (some size) = size

-- req.Payload[4:]
unfoldable pub subsystem_name : Request → Outcome Text
subsystem_name r = slice r.payload 4 (length r.payload)

-- p.Bus.Resize, if the request could be read.
unfoldable pub resized : ℕ × ℕ → Option (ℕ × ℕ) → ℕ × ℕ
resized old none = old
resized old (some size) = size

-- The goroutine of both servers that reads the requests behind the first pty-req: the terminal's size
-- when they end.
unfoldable pub later_requests : List Request → ℕ × ℕ → Outcome (ℕ × ℕ)
later_requests [] size = returns size
later_requests (r ∷ rs) size =
    let rest = later_requests rs in
    if text_eq r.kind (runes "pty-req")
    then (parse_pty_request r.payload >>= λ new. rest (resized size new))
    else if text_eq r.kind (runes "window-change")
    then (parse_window_change r.payload >>= λ new. rest (resized size new))
    else rest size

-- A pty-req with the requests behind it: an interaction, with the terminal's last size.
unfoldable pub terminal_session : Request → List Request → Outcome (ℕ × ℕ)
terminal_session r rs = parse_pty_request r.payload >>= λ size. later_requests rs (size_of size)

-- What becomes of a session of a room: internal/sshserver/server.go, handleSession.
pub data RoomSession : Type 0 where
  no_session : RoomSession
  closed_session : RoomSession
  interaction : ℕ × ℕ → RoomSession
  room_subsystem : RoomSession

unfoldable pub room_subsystem_of : Text → RoomSession
room_subsystem_of name = if text_eq name (runes "unn-room") then room_subsystem else closed_session

unfoldable pub room_session : List Request → Outcome RoomSession
room_session [] = returns no_session
room_session (r ∷ rs) =
    let rest = room_session rs in
    if text_eq r.kind (runes "exec")
    then returns closed_session
    else if text_eq r.kind (runes "pty-req")
    then (terminal_session r rs >>= λ size. returns (interaction size))
    else if text_eq r.kind (runes "subsystem")
    then (subsystem_name r >>= λ name. returns (room_subsystem_of name))
    else rest

-- And at the entry point: internal/entrypoint/server.go, handleSession.
pub data EntrySession : Type 0 where
  nothing_asked : EntrySession
  control : EntrySession
  api : EntrySession
  signaling : EntrySession
  unknown_subsystem : EntrySession
  person_session : ℕ × ℕ → EntrySession

unfoldable pub entry_subsystem_of : Text → EntrySession
entry_subsystem_of name =
    if text_eq name (runes "unn-control")
    then control
    else if text_eq name (runes "unn-api")
    then api
    else if text_eq name (runes "unn-signaling")
    then signaling
    else unknown_subsystem

unfoldable pub entry_session : List Request → Outcome EntrySession
entry_session [] = returns nothing_asked
entry_session (r ∷ rs) =
    let rest = entry_session rs in
    if text_eq r.kind (runes "subsystem")
    then (subsystem_name r >>= λ name. returns (entry_subsystem_of name))
    else if text_eq r.kind (runes "pty-req")
    then (terminal_session r rs >>= λ size. returns (person_session size))
    else rest

-- The connections of old operators with the same key, which are closed.
unfoldable pub old_operators : (ℕ → Text) → Text → Map Text Room → List ℕ
old_operators pubkey_of pubkey [] = []
old_operators pubkey_of pubkey ((name, room) ∷ rooms) =
    let rest = old_operators pubkey_of pubkey rooms in
    if text_eq (pubkey_of room.connection) pubkey then room.connection ∷ rest else rest

-- The end of an operator's connection with the room that it had, if it had one.
unfoldable pub operator_ends : Text → Server → Server
operator_ends room_name s =
    if text_eq room_name [] then s else record s { rooms = delete room_name s.rooms }
