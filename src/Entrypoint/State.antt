-- ===== src/Entrypoint/State.antt =====
-- internal/entrypoint/server.go: the part of Server that connections share, and a connection.
use underground_node_network.Base.{ℕ, [], List, Option}
use underground_node_network.Map.{Map}
use underground_node_network.Text.{Text}
use underground_node_network.Protocol.{RoomInfo, PunchStartPayload}

-- An online room; `connection` is the number of the operator's connection, which stands for the
-- connection, its channel and its encoder.
pub record Room : Type 0 where
  pub info : RoomInfo
  pub connection : ℕ

-- PersonChan: a channel with room for `capacity` messages.
pub record PersonChan : Type 0 where
  pub capacity : ℕ
  pub queue : List PunchStartPayload

pub record PunchSession : Type 0 where
  pub room_name : Text
  pub person_chan : Option PersonChan

-- The maps of the server and its two files.
pub record Server : Type 0 where
  pub rooms : Map Text Room
  pub punch_sessions : Map Text PunchSession
  pub identities : Map Text Text
  pub usernames : Map Text Text
  pub registered_rooms : Map Text Text
  pub users_file : Option Text
  pub rooms_file : Option Text

-- An SSH connection: conn.User(), conn.Permissions.Extensions and conn.RemoteAddr().
pub record Conn : Type 0 where
  pub number : ℕ
  pub user : Text
  pub extensions : Map Text Text
  pub remote_addr : Text

-- NewServer, before it reads the files.
unfoldable pub fresh_server : Option Text → Option Text → Server
fresh_server users_file rooms_file = record {
  rooms = [];
  punch_sessions = [];
  identities = [];
  usernames = [];
  registered_rooms = [];
  users_file = users_file;
  rooms_file = rooms_file;
}
