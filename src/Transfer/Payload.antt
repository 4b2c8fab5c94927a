-- ===== src/Transfer/Payload.antt =====
-- internal/protocol/protocol.go: FileBlockPayload, one block of a file, as it is before it is encoded
-- and after it is decoded.
use underground_node_network.Base.Int.{ℤ}
use underground_node_network.Text.{Text}

pub record FileBlockPayload : Type 0 where
  pub action : Text
  pub filename : Text
  pub id : Text
  pub count : ℤ
  pub index : ℤ
  pub checksum : Text
  pub content : Text
