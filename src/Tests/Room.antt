-- ===== src/Tests/Room.antt =====
-- Runs of the theorems on a room.
use underground_node_network.Base.{◌≡◌, ◌≤◌, [], ◌∷◌, ◌++◌, true, false, some, length}
use underground_node_network.Text.{Text, runes, text_key}
use underground_node_network.Room.{RoomServer, Person, ChatUi, history_of, broadcast}
use underground_node_network.Room.Broadcast.{present, last_text, broadcast-Reached}
use underground_node_network.Doors.{new_manager}

abbrev new_ui : ChatUi
new_ui = record {
  messages = [];
  people = [];
  doors = [];
  cmd_history = [];
  is_closed = false;
  success = false;
}

abbrev ann : Person
ann = record {
  username = runes "ann";
  pub_key = some (runes "k");
  chat_ui = some new_ui;
  bus = some [];
  conn_closed = false;
  quit_reason = [];
}

abbrev room : RoomServer
room = record {
  door_manager = new_manager (runes "doors");
  room_name = runes "den";
  people = (runes "s1", ann) ∷ [];
  authorized_keys = [];
  headless = false;
  histories = [];
  cmd_histories = [];
  banned_hashes = [];
  room_lock_key = [];
  operator_pub_key = some (runes "k");
}

abbrev digest : Text → Text
digest k = k

broadcast-Reached_example :
    (present digest (runes "k") room.people ≡ true
      → last_text
          (history_of (runes "k") (broadcast digest room (runes "ann") (runes "hi")).histories)
        ≡ some (b'<' ∷ (runes "ann" ++ (runes "> " ++ runes "hi"))))
    × (present digest (runes "k") room.people ≡ false
        → history_of (runes "k") (broadcast digest room (runes "ann") (runes "hi")).histories
          ≡ history_of (runes "k") room.histories)
    × (length (history_of (runes "k") room.histories) ≤ 200
        → length
            (history_of (runes "k") (broadcast digest room (runes "ann") (runes "hi")).histories)
          ≤ 200)
broadcast-Reached_example = broadcast-Reached digest room (runes "ann") (runes "hi") (runes "k")
