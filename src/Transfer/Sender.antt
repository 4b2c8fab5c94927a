-- ===== src/Transfer/Sender.antt =====
-- doors/files/main.go: the blocks that the file door sends for a file. A read of a regular file
-- fills the buffer as long as the file has that much left.
use underground_node_network.Base.{
  ℕ, zero, suc, ◌+◌, ◌-◌, ◌/◌, [], ◌∷◌, List, length, take, drop, Bytes,
}
use underground_node_network.Base.Int.{pos}
use underground_node_network.Text.{Text, runes}
use underground_node_network.Transfer.Base64.{encode}
use underground_node_network.Transfer.Payload.{FileBlockPayload}

unfoldable pub block_size : ℕ
block_size = 8192

-- int((info.Size() + blockSize - 1) / blockSize)
unfoldable pub block_count : Bytes → ℕ
block_count file = (length file + block_size - 1) / block_size

-- What downloadFile settles before its loop.
pub record Header : Type 0 where
  pub filename : Text
  pub transfer_id : Text
  pub count : ℕ
  pub checksum : Text

unfoldable pub payload : Header → ℕ → Bytes → FileBlockPayload
payload h i block = record {
  action = runes "transfer_block";
  filename = h.filename;
  id = h.transfer_id;
  count = pos h.count;
  index = pos i;
  checksum = h.checksum;
  content = encode block;
}

-- for i := …; each round reads the next block: `n` rounds are left and `rest` is unread.
unfoldable pub send_from : Header → ℕ → ℕ → Bytes → List FileBlockPayload
send_from h zero i rest = []
send_from h (suc n) i rest =
    payload h i (take block_size rest) ∷ send_from h n (i + 1) (drop block_size rest)

-- The payloads that downloadFile sends for a file, with `sha256` the hexadecimal digest.
unfoldable pub download_file : (Bytes → Text) → Text → Text → Bytes → List FileBlockPayload
download_file sha256 filename transfer_id file = send_from header header.count 0 file
  where
    header : Header
    header = record {
      filename = filename;
      transfer_id = transfer_id;
      count = block_count file;
      checksum = sha256 file;
    }
