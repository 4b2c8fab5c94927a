-- ===== src/Room/Connections.antt =====
-- internal/sshserver/server.go: who comes into a room and leaves it, and how a session starts.
-- `digest` is the hash of a key. Threads that the code starts take their steps later: handleConnection
-- says which connections are closed behind it.
use underground_node_network.Base.{
  ℕ, [], ◌∷◌, ◌++◌, List, Bool, true, false, ◌||◌, Option, none, some, if◌then◌else◌, ◌==◌,
}
use underground_node_network.Map.{Map, get, put, delete}
use underground_node_network.Text.{Text, text_eq, text_key, runes, has_prefix, trim_right}
use underground_node_network.Text.Split.{split}
use underground_node_network.Text.Decimal.{decimal}
use underground_node_network.Doors.{list}
use underground_node_network.Room.{
  Message, ChatUi, Person, RoomServer, Handled, finished, crashed, ◌>>=◌, msg_server, msg_system,
  add_message, set_lists, history_of, add_message_to_history, set_person, on_ui_if, send_osc,
  same_key, is_operator, get_pub_key_hash, broadcast_with_history,
}
use underground_node_network.Room.Commands.Talk.{message}

-- AuthorizeKey, and the test of PublicKeyCallback
unfoldable pub authorize_key : Text → Text → RoomServer → RoomServer
authorize_key key username s = record s { authorized_keys = put key username s.authorized_keys }

unfoldable pub is_authorized : Text → RoomServer → Bool
is_authorized key s = elim (get key s.authorized_keys) [ none ↦ false | some name ↦ true ]

-- The loop over the bans, which may be prefixes of a hash.
unfoldable pub prefix_ban : Text → Map Text Text → Option Text
prefix_ban hash [] = none
prefix_ban hash ((h, reason) ∷ bans) =
    let later = prefix_ban hash bans in if has_prefix hash h then some reason else later

-- The reason for which a hash is banned, if it is.
unfoldable pub ban_reason : Text → Map Text Text → Option Text
ban_reason hash bans = elim (get hash bans) [
  | some reason ↦ some reason
  | none ↦ prefix_ban hash bans
]

-- GetPeople, and the names of the sidebar.
unfoldable pub get_people : List (Text × Person) → List Text
get_people [] = []
get_people ((id, p) ∷ people) = p.username ∷ get_people people

unfoldable pub display_names : RoomServer → List (Text × Person) → List Text
display_names s [] = []
display_names s ((id, p) ∷ people) =
    (if is_operator p.pub_key s then b'@' ∷ p.username else p.username) ∷ display_names s people

unfoldable pub update_people_list : Text → RoomServer → RoomServer
update_people_list id s = on_ui_if id (set_lists (display_names s s.people) (list s.door_manager)) s

unfoldable pub update_people_lists : List (Text × Person) → RoomServer → RoomServer
update_people_lists [] s = s
update_people_lists ((id, p) ∷ people) s = update_people_lists people (update_people_list id s)

unfoldable pub update_all_people : RoomServer → RoomServer
update_all_people s = update_people_lists s.people s

-- The first person with a key becomes the operator.
unfoldable pub elect : Option Text → RoomServer → RoomServer
elect key s = elim s.operator_pub_key [
  | some op ↦ s
  | none ↦ elim key [ none ↦ s | some k ↦ record s { operator_pub_key = some k } ]
]

unfoldable pub mapped_name : Text → Text → RoomServer → Text
mapped_name user key s = elim (get key s.authorized_keys) [
  | none ↦ user
  | some name ↦ if text_eq name [] then user else name
]

abbrev duplicate_popup : Map Text Text
duplicate_popup =
    (runes "title", runes "Duplicate Session")
    ∷ (
      runes "message",
      runes "You have been disconnected because you connected from another session.",
    )
    ∷ (runes "type", runes "warning")
    ∷ []

-- The loop over the old sessions with the same key.
unfoldable pub warn_old : Text → List (Text × Person) → RoomServer → Handled RoomServer
warn_old key [] s = finished s
warn_old key ((id, old) ∷ people) s = elim (same_key old.pub_key (some key)) [
  | true ↦ send_osc id (runes "popup") duplicate_popup s >>= λ t. warn_old key people t
  | false ↦ warn_old key people s
]

unfoldable pub old_sessions : Text → List (Text × Person) → List Text
old_sessions key [] = []
old_sessions key ((id, old) ∷ people) =
    let rest = old_sessions key people in
    if same_key old.pub_key (some key) then id ∷ rest else rest

abbrev pub new_person : Text → Text → Person
new_person username key = record {
  username = username;
  pub_key = some key;
  chat_ui = none;
  bus = none;
  conn_closed = false;
  quit_reason = [];
}

-- What becomes of a connection: refused for a reason, or a session, and the old sessions that are to be
-- closed.
pub data Connected : Type 0 where
  refused : Text → RoomServer → Connected
  entered : Text → List Text → RoomServer → Connected

-- The banner of a new session, which goes into the history, too.
unfoldable pub show_banner : Text → List Text → ChatUi → RoomServer → ChatUi × RoomServer
show_banner hash [] ui s = (ui, s)
show_banner hash (line ∷ lines) ui s =
    let m = message (trim_right (λ c. c == 13 || c == 10) line) msg_server in
    show_banner hash lines (add_message m ui) (add_message_to_history s hash m)

-- The stored messages, else the banner, else two lines.
unfoldable pub welcome : Text → Text → Option Text → ChatUi → RoomServer → ChatUi × RoomServer
welcome hash username none ui s =
    let joined =
      runes "*** You joined " ++ (s.room_name ++ (runes " as " ++ (username ++ runes " ***"))) in
    let ui' = add_message (message joined msg_system) ui in
    (add_message (message (runes "*** Type /help for commands ***") msg_system) ui', s)
welcome hash username (some banner) ui s = show_banner hash (split banner 10) ui s

unfoldable pub replay : List Message → ChatUi → ChatUi
replay [] ui = ui
replay (m ∷ ms) ui = replay ms (add_message m ui)

unfoldable pub new_chat_ui : List Text → ChatUi
new_chat_ui commands = record {
  messages = [];
  people = [];
  doors = [];
  cmd_history = commands;
  is_closed = false;
  success = false;
}

unfoldable pub show_history :
    Text → Text → Option Text → List Message → ChatUi → RoomServer → ChatUi × RoomServer
show_history hash username banner [] ui s = welcome hash username banner ui s
show_history hash username banner (m ∷ ms) ui s = (replay (m ∷ ms) ui, s)

-- handleConnection behind the check of the bans; pubKey.Marshal() panics on a nil key.
unfoldable pub enter : Text → Option Text → ℕ → RoomServer → Handled Connected
enter user none now s = crashed
enter user (some key) now s =
    let t = elect (some key) s in
    let username = mapped_name user key t in
    let session = username ++ b'-' ∷ decimal now in
    warn_old key t.people t >>= λ u. finished (
      entered session (old_sessions key t.people)
        (update_all_people (set_person session (new_person username key) u)))

module _ (digest : Text → Text) where
  -- handleConnection behind the handshake, for the key of its permissions and the clock in ns.
  unfoldable pub handle_connection : Text → Option Text → ℕ → RoomServer → Handled Connected
  handle_connection user key now s =
      elim (ban_reason (get_pub_key_hash digest key) s.banned_hashes) [
        | some reason ↦ finished (refused reason s)
        | none ↦ enter user key now s
      ]

  -- The deferred function of handleConnection.
  unfoldable pub leave : Text → RoomServer → RoomServer
  leave id s = elim (get id s.people) [
    | none ↦ s
    | some p ↦
        let t : RoomServer = record s { people = delete id s.people } in
        let text = runes "* " ++ (p.username ++ runes " left the room") in
        let said =
          if text_eq p.quit_reason [] then text else text ++ (runes ": " ++ p.quit_reason) in
        update_all_people (broadcast_with_history digest p.pub_key said msg_system t)
  ]

  -- handleInteraction up to the first run of the screen, for somebody whom the lock lets in.
  unfoldable pub open_screen : Text → Person → Option Text → RoomServer → RoomServer
  open_screen id p banner s =
      let hash = get_pub_key_hash digest p.pub_key in
      let commands = history_of hash s.cmd_histories in
      let shown =
        show_history hash p.username banner (history_of hash s.histories) (new_chat_ui commands)
          s in
      update_people_list id (set_person id (record p { chat_ui = some shown.0 }) shown.1)
