-- ===== src/Transfer.antt =====
-- The transfer of a file in blocks from a room to the client: internal/protocol/protocol.go (the
-- payload), doors/files/main.go (the sender) and cmd/unn-client/transfer.go (the receiver).
pub mod Base64
pub mod Payload
pub mod UniquePath
pub mod Sender
pub mod Receiver
