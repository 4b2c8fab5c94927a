-- ===== src/Protocol.antt =====
-- internal/protocol/protocol.go: the payloads that the entry point keeps or passes on.
use underground_node_network.Base.{List}
use underground_node_network.Base.Int.{ℤ}
use underground_node_network.Text.{Text}

pub record RegisterPayload : Type 0 where
  pub room_name : Text
  pub doors : List Text
  pub candidates : List Text
  pub ssh_port : ℤ
  pub public_keys : List Text
  pub people_count : ℤ

pub record RoomInfo : Type 0 where
  pub name : Text
  pub owner : Text
  pub doors : List Text
  pub candidates : List Text
  pub ssh_port : ℤ
  pub public_keys : List Text
  pub people_count : ℤ

pub record PunchAnswerPayload : Type 0 where
  pub person_id : Text
  pub candidates : List Text
  pub ssh_port : ℤ

pub record PunchStartPayload : Type 0 where
  pub room_name : Text
  pub candidates : List Text
  pub ssh_port : ℤ
  pub public_keys : List Text

pub record PunchOfferPayload : Type 0 where
  pub person_id : Text
  pub candidates : List Text
  pub person_key : Text
  pub display_name : Text
  pub username : Text
