-- ===== src/Tests/Lobby.antt =====
-- A run of the theorem on the way into a room.
use underground_node_network.Base.{
  ◌≡◌, refl, [], ◌∷◌, List, Option, none, some, returns, false, arith,
}
use underground_node_network.Base.Int.{pos}
use underground_node_network.Map.{get}
use underground_node_network.Text.{Text, runes, text_eq, text_key}
use underground_node_network.Protocol.{PunchAnswerPayload}
use underground_node_network.Entrypoint.State.{Server, Room, Conn, fresh_server}
use underground_node_network.Entrypoint.Operator.{Session}
use underground_node_network.Entrypoint.Lobby.{
  EntryUi, Visitor, Lobby, joining, join_offer, begin_join, end_join,
}
use underground_node_network.Entrypoint.Lobby.Answered.{start_of, answer_all}
use underground_node_network.Entrypoint.Lobby.Joined.{
  on_screen, join_id, while_waiting, IsTeleported, begin_join-end_join,
}

abbrev no_key : Text → Option Text
no_key k = none

abbrev conn : Conn
conn = record { number = 4; user = runes "ann"; extensions = []; remote_addr = [] }

abbrev den : Room
den = record {
  info = record {
    name = runes "den";
    owner = runes "bob";
    doors = [];
    candidates = [];
    ssh_port = pos 22;
    public_keys = [];
    people_count = pos 0;
  };
  connection = 3;
}

abbrev lobby : Lobby
lobby =
    let s : Server = record (fresh_server none none) { rooms = (runes "den", den) ∷ [] } in
    record { server = s; histories = []; cmd_histories = [] }

abbrev ann : Visitor
ann = record {
  username = runes "ann";
  pub_key_hash = runes "ka";
  ui = none;
  bus = [];
  teleport_data = none;
}

abbrev screen : EntryUi
screen = record { messages = []; rooms = []; is_closed = false; success = false }

abbrev operator : Session
operator = record {
  server = (while_waiting lobby (join_id ann 7) (runes "den")).server;
  username = runes "bob";
  room_name = runes "den";
  replies = [];
}

abbrev to_nobody : PunchAnswerPayload
to_nobody = record { person_id = []; candidates = []; ssh_port = pos 1 }

abbrev answered : List PunchAnswerPayload → Lobby
answered answers = record (while_waiting lobby (join_id ann 7) (runes "den")) {
  server =
      (answer_all no_key (runes "2024-01-01") conn (join_id ann 7) (runes "den") operator
        answers).server;
}

den_online : get (runes "den") lobby.server.rooms ≡ some den
unfolding get text_eq fresh_server
den_online = refl

begin_join-end_join_example :
    (begin_join lobby (on_screen ann screen) conn 7 (runes "den")
      ≡ joining
          (while_waiting lobby (join_id ann 7) (runes "den"))
          (on_screen ann screen)
          (join_id ann 7)
          3
          (join_offer (on_screen ann screen) conn (join_id ann 7)))
    × ((a : PunchAnswerPayload) (later : List PunchAnswerPayload)
        → a.person_id ≡ join_id ann 7
        → (t : Lobby) × (q : Visitor) × (end_join
              (answered (to_nobody ∷ a ∷ later))
              (on_screen ann screen)
              (join_id ann 7)
            ≡ returns (t, q))
          × IsTeleported (start_of (runes "den") a) q
          × (get (join_id ann 7) t.server.punch_sessions ≡ none))
    × ((t : Lobby) × (q : Visitor) × (end_join
            (answered (to_nobody ∷ []))
            (on_screen ann screen)
            (join_id ann 7)
          ≡ returns (t, q))
        × (q.teleport_data ≡ ann.teleport_data)
        × (get (join_id ann 7) t.server.punch_sessions ≡ none))
begin_join-end_join_example =
    begin_join-end_join no_key (runes "2024-01-01") conn conn lobby ann screen 7 (runes "den") den
      operator (to_nobody ∷ []) den_online refl ((λ e. ground arith), tt)
