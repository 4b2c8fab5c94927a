-- ===== src/Room/Runs.antt =====
-- internal/sshserver: what may happen to a room, one step for each event. The callbacks of a screen
-- (OnSend and OnCmd) belong to handleInteraction of server.go.
pub mod Arrivals
pub mod Kept
pub mod Bounded
pub mod Away
use underground_node_network.Base.{
  ℕ, [], ◌∷◌, ◌++◌, List, Bool, true, false, Option, none, some, Outcome, returns, panics,
  if◌then◌else◌,
}
use underground_node_network.Map.{get}
use underground_node_network.Text.{
  Text, text_eq, text_key, runes, has_prefix, trim_space, trim_prefix,
}
use underground_node_network.Text.Words.{fields}
use underground_node_network.Doors.{Manager, is_door}
use underground_node_network.Ui.Password.{Event, passes_lock}
use underground_node_network.Room.{
  Person, RoomServer, Handled, finished, crashed, ◌>>=◌, msg_system, add_command_to_history,
  set_person, close_conn, is_operator, get_pub_key_hash, broadcast, broadcast_with_history,
}
use underground_node_network.Room.Commands.{handle_internal_command}
use underground_node_network.Room.Connections.{
  authorize_key, is_authorized, Connected, refused, entered, handle_connection, leave, open_screen,
}

-- What happens: `starts` is a screen that opens behind the room's lock, `sends` a line that is no
-- command, `runs` what handleCommand gets when a screen has ended, `closes` a connection that ends.
-- `sends` and `commands` carry the person that the callbacks of his screen hold, who may have left.
pub data RoomEvent : Type 0 where
  authorizes : Text → Text → RoomEvent
  connects : Text → Option Text → ℕ → RoomEvent
  leaves : Text → RoomEvent
  gets_pty : Text → RoomEvent
  starts : Text → Bool → List Event → Option Text → RoomEvent
  sends : Person → Text → RoomEvent
  commands : Text → Person → Text → RoomEvent
  runs : Text → Text → RoomEvent
  closes : Text → RoomEvent

unfoldable pub state_behind : Connected → RoomServer
state_behind (refused reason s) = s
state_behind (entered session old s) = s

-- PublicKeyCallback lets a key in that is authorized.
unfoldable pub passes_handshake : Option Text → RoomServer → Bool
passes_handshake none s = false
passes_handshake (some key) s = is_authorized key s

-- The door that a command line names.
unfoldable pub door_name : Text → List Text → Manager → Text
door_name word rest m =
    if text_eq word (runes "open")
    then elim rest [ [] ↦ [] | name ∷ _ ↦ name ]
    else if is_door word m
    then word
    else []

module _ (digest : Text → Text) where
  -- The door is told to the room, and opened.
  unfoldable pub start_door : Person → Text → RoomServer → RoomServer × Option Text
  start_door p name s =
      let text = runes "* " ++ (p.username ++ (runes " started door: " ++ name)) in
      if is_door name s.door_manager
      then (broadcast_with_history digest p.pub_key text msg_system s, some name)
      else (s, none)

  unfoldable pub run_words : Person → List Text → RoomServer → RoomServer × Option Text
  run_words p [] s = (s, none)
  run_words p (word ∷ rest) s =
      let name = door_name word rest s.door_manager in
      if text_eq name [] then (s, none) else start_door p name s

  -- handleCommand, and the door that it opens.
  unfoldable pub handle_command : Text → Text → RoomServer → RoomServer × Option Text
  handle_command id input s = elim (get id s.people) [
    | none ↦ (s, none)
    | some p ↦
        let text = trim_space input in
        if text_eq text []
        then (s, none)
        else if has_prefix text (runes "/")
        then run_words p (fields (trim_prefix text (runes "/"))) s
        else (broadcast digest s p.username text, none)
  ]

  -- The callback of OnSend
  unfoldable pub on_send : Person → Text → RoomServer → RoomServer
  on_send p msg s =
      if text_eq (trim_space msg) []
      then s
      else broadcast digest (add_command_to_history s (get_pub_key_hash digest p.pub_key) msg)
          p.username msg

  -- The callback of OnCmd
  unfoldable pub on_cmd : Text → Person → Text → RoomServer → Handled (RoomServer × Bool)
  on_cmd id p cmd s =
      handle_internal_command digest id p cmd
        (add_command_to_history s (get_pub_key_hash digest p.pub_key) cmd)

  -- handleInteraction up to the first run of the screen.
  unfoldable pub start :
      Text → Person → Bool → List Event → Option Text → RoomServer → Handled RoomServer
  start id p screen_ok keys banner s =
      elim (passes_lock s.room_lock_key (is_operator p.pub_key s) s.headless screen_ok keys) [
        | panics ↦ crashed
        | returns answer ↦ elim answer [
          | none ↦ finished s
          | some passed ↦
              if passed
              then finished (open_screen digest id p banner s)
              else finished (close_conn id s)
        ]
      ]

  -- What a session does that handleSession or handleInteraction has looked up.
  unfoldable pub step_of : RoomEvent → Text → Person → RoomServer → Handled RoomServer
  step_of (gets_pty _) id p s = finished (set_person id (record p { bus = some [] }) s)
  step_of (starts _ screen_ok keys banner) id p s = start id p screen_ok keys banner s
  step_of _ id p s = finished s

  unfoldable pub at_session : RoomEvent → Text → RoomServer → Handled RoomServer
  at_session e id s = elim (get id s.people) [ none ↦ finished s | some p ↦ step_of e id p s ]

  unfoldable pub step : RoomEvent → RoomServer → Handled RoomServer
  step (authorizes key name) s = finished (authorize_key key name s)
  step (connects user key now) s =
      if passes_handshake key s
      then (handle_connection digest user key now s >>= λ c. finished (state_behind c))
      else finished s
  step (leaves id) s = finished (leave digest id s)
  step (gets_pty id) s = at_session (gets_pty id) id s
  step (starts id screen_ok keys banner) s = at_session (starts id screen_ok keys banner) id s
  step (sends p msg) s = finished (on_send p msg s)
  step (commands id p cmd) s = on_cmd id p cmd s >>= λ r. finished r.0
  step (runs id input) s = finished (handle_command id input s).0
  step (closes id) s = finished (close_conn id s)

  unfoldable pub run : List RoomEvent → RoomServer → Handled RoomServer
  run [] s = finished s
  run (e ∷ es) s = step e s >>= λ t. run es t
