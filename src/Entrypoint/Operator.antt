-- ===== src/Entrypoint/Operator.antt =====
-- internal/entrypoint/operator.go: the messages of a room's operator. `key_hash` stands for
-- ssh.ParseAuthorizedKey and protocol.CalculatePubKeyHash, `today` for the date.
pub mod Keeps
pub mod Owner
pub mod Refused
use underground_node_network.Base.{
  ℕ, [], ◌∷◌, ◌++◌, List, Bool, true, false, not, ◌&&◌, Option, none, some, Outcome, returns,
  panics, ◌>>=◌, if◌then◌else◌, length, ltb, map,
}
use underground_node_network.Map.{Map, get, put, delete}
use underground_node_network.Text.{Text, text_eq, text_key, runes}
use underground_node_network.Text.Split.{split}
use underground_node_network.Protocol.{
  RegisterPayload, RoomInfo, PunchAnswerPayload, PunchStartPayload,
}
use underground_node_network.Entrypoint.Names.{is_valid_room_name}
use underground_node_network.Entrypoint.State.{Server, Room, Conn, PersonChan, PunchSession}
use underground_node_network.Entrypoint.Store.{three, save_rooms}

-- msg, decoded; `none` is a payload that does not parse.
pub data OperatorMessage : Type 0 where
  register_msg : Option RegisterPayload → OperatorMessage
  unregister_msg : OperatorMessage
  punch_answer_msg : Option PunchAnswerPayload → OperatorMessage
  other_msg : OperatorMessage

-- What is sent back.
pub data Reply : Type 0 where
  error_reply : Text → Reply
  room_list_reply : List RoomInfo → Reply

-- The server, and the variables of handleOperator: what it was called with, and what it has sent.
pub record Session : Type 0 where
  pub server : Server
  pub username : Text
  pub room_name : Text
  pub replies : List Reply

unfoldable pub send_error : Session → Text → Session
send_error e message = record e { replies = e.replies ++ error_reply message ∷ [] }

unfoldable pub room_infos : Map Text Room → List RoomInfo
room_infos [] = []
room_infos ((name, room) ∷ m) = room.info ∷ room_infos m

unfoldable pub send_room_list : Session → Session
send_room_list e = record e {
  replies = e.replies ++ room_list_reply (room_infos e.server.rooms) ∷ [];
}

-- s.registeredRooms[name] = info, s.saveRooms()
unfoldable pub write_registry : Server → Text → Text → Server
write_registry s name info =
    save_rooms record s { registered_rooms = put name info s.registered_rooms }

module _ (key_hash : Text → Option Text) (today : Text) (conn : Conn) where
  -- payloadHostHash, which is "" where there is no key that parses.
  unfoldable pub payload_host_hash : RegisterPayload → Text
  payload_host_hash p = elim p.public_keys [
    | [] ↦ []
    | key ∷ _ ↦ elim (key_hash key) [ none ↦ [] | some hash ↦ hash ]
  ]

  -- conn.Permissions.Extensions[key], which is "" where it is missing.
  unfoldable pub extension : Text → Text
  extension key = elim (get key conn.extensions) [ none ↦ [] | some v ↦ v ]

  unfoldable pub is_owner : Text → Bool
  is_owner owner =
      text_eq (extension (runes "verified")) (runes "true")
      && text_eq (extension (runes "username")) owner

  -- A name that is registered; `none` where the registration is rejected.
  unfoldable pub register_again : Session → RegisterPayload → Text → Text → Option Session
  register_again e p host owner =
      let hash = payload_host_hash p in
      let kept = record e {
        username = owner;
        server = write_registry e.server p.room_name (three host owner today);
      } in
      let rotated = record e {
        username = owner;
        server = write_registry e.server p.room_name (three hash owner today);
      } in
      if not (text_eq hash []) && not (text_eq hash host)
      then (if is_owner owner then some rotated else none)
      else some kept

  -- hostKeyHash
  unfoldable pub host_key_hash : RegisterPayload → Text
  host_key_hash p = elim p.public_keys [
    | [] ↦ extension (runes "pubkeyhash")
    | key ∷ _ ↦ elim (key_hash key) [ none ↦ extension (runes "pubkeyhash") | some hash ↦ hash ]
  ]

  -- A name that is not registered.
  unfoldable pub register_new : Session → RegisterPayload → Option Session
  register_new e p =
      if not (is_valid_room_name p.room_name)
      then none
      else some record e {
        server = write_registry e.server p.room_name (three (host_key_hash p) e.username today);
      }

  unfoldable pub room_of : Session → RegisterPayload → Room
  room_of e p = record {
    info = record {
      name = p.room_name;
      owner = e.username;
      doors = p.doors;
      candidates = p.candidates;
      ssh_port = p.ssh_port;
      public_keys = p.public_keys;
      people_count = p.people_count;
    };
    connection = conn.number;
  }

  -- Behind the registry: the room is online, and the room list is sent.
  unfoldable pub go_online : Session → RegisterPayload → Session
  go_online e p = send_room_list record e {
    room_name = p.room_name;
    server = record e.server { rooms = put p.room_name (room_of e p) e.server.rooms };
  }

  unfoldable pub taken_text : RegisterPayload → Text
  taken_text p = runes "Room name '" ++ (p.room_name ++ runes "' is already taken by another user.")

  -- registeredHostHash := parts[0], registeredOwner := parts[1]
  unfoldable pub register_parts : Session → RegisterPayload → List Text → Outcome Session
  register_parts e p (host ∷ owner ∷ _) = returns (elim (register_again e p host owner) [
    | none ↦ send_error e (taken_text p)
    | some next ↦ go_online next p
  ])
  register_parts e p _ = panics

  unfoldable pub handle_register : Session → RegisterPayload → Outcome Session
  handle_register e p = elim (get p.room_name e.server.registered_rooms) [
    | some info ↦ register_parts e p (split info b' ')
    | none ↦ returns (elim (register_new e p) [
      | none ↦ send_error e (runes "Invalid room name. Must be 3-20 characters, alphanumeric.")
      | some next ↦ go_online next p
    ])
  ]

  unfoldable pub handle_unregister : Session → Session
  handle_unregister e =
      if not (text_eq e.room_name [])
      then record e {
        server = record e.server { rooms = delete e.room_name e.server.rooms };
        room_name = [];
      }
      else e

  -- select { case session.PersonChan <- startMsg: … default: … }
  unfoldable pub offer : PersonChan → PunchStartPayload → PersonChan
  offer c m = if ltb (length c.queue) c.capacity then record c { queue = c.queue ++ m ∷ [] } else c

  unfoldable pub punch_start : PunchSession → PunchAnswerPayload → PunchStartPayload
  punch_start session p = record {
    room_name = session.room_name;
    candidates = p.candidates;
    ssh_port = p.ssh_port;
    public_keys = [];
  }

  unfoldable pub handle_punch_answer : Session → PunchAnswerPayload → Session
  handle_punch_answer e p = elim (get p.person_id e.server.punch_sessions) [
    | none ↦ e
    | some session ↦ elim session.person_chan [
      | none ↦ e
      | some c ↦ record e {
        server = record e.server {
          punch_sessions =
              put p.person_id
                record session { person_chan = some (offer c (punch_start session p)) }
                e.server.punch_sessions;
        };
      }
    ]
  ]

  -- One round of the loop.
  unfoldable pub operator_step : Session → OperatorMessage → Outcome Session
  operator_step e (register_msg none) = returns (send_error e (runes "invalid register payload"))
  operator_step e (register_msg (some p)) = handle_register e p
  operator_step e unregister_msg = returns (handle_unregister e)
  operator_step e (punch_answer_msg none) = returns e
  operator_step e (punch_answer_msg (some p)) = returns (handle_punch_answer e p)
  operator_step e other_msg = returns e

  -- The messages until the channel ends.
  unfoldable pub handle_operator : Session → List OperatorMessage → Outcome Session
  handle_operator e [] = returns e
  handle_operator e (m ∷ ms) = operator_step e m >>= λ next. handle_operator next ms
