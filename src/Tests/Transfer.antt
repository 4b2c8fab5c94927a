-- ===== src/Tests/Transfer.antt =====
-- Runs of the theorems on transfers.
use underground_node_network.Base.{
  Option, none, ◌↔◌, ◌==◌, if◌then◌else◌, ℕ, ◌≡◌, ◌<◌, refl, [], ◌∷◌, true, false, some, arith,
  Bytes, returns, panics, ◌++◌, ◌⊎◌,
}
use underground_node_network.Base.Int.{pos, negsuc}
use underground_node_network.Map.{get}
use underground_node_network.Text.{Text, runes, text_eq}
use underground_node_network.Transfer.Base64.{encode, digit}
use underground_node_network.Transfer.Payload.{FileBlockPayload}
use underground_node_network.Transfer.Sender.{
  block_size, block_count, payload, send_from, download_file,
}
use underground_node_network.Transfer.UniquePath.{get_unique_path}
use underground_node_network.Transfer.UniquePath.Free.{among, get_unique_path_free}
use underground_node_network.Transfer.Receiver.{
  Client, mark, state_for, new_transfer, file_at, read_parts, handle_block, handle_blocks,
}
use underground_node_network.Transfer.Receiver.Count.{has}
use underground_node_network.Transfer.Receiver.Complete.{Arrived, handle_blocks-download_file}
use underground_node_network.Transfer.Receiver.Picked.{pick}
use underground_node_network.Transfer.Receiver.Hostile.{
  IsNegative, IsFull, HasBad, handle_block-panics_iff, handle_block-negative_count,
}
use underground_node_network.Transfer.Receiver.Lines.{IsWritten}
use underground_node_network.Transfer.Receiver.Chunks.{header_of}
use underground_node_network.Transfer.Receiver.Progress.{block_at}
use underground_node_network.Text.Split.{split}

abbrev join : Text → Text → Text
join dir name = dir ++ (runes "/" ++ name)

-- A stand-in for the digest: the first byte.
abbrev digest : Bytes → Text
digest [] = []
digest (b ∷ bs) = b ∷ []

abbrev bytes : Bytes
bytes = 104 ∷ 105 ∷ 10 ∷ []

-- A stand-in for JSON: a brace and the content of the block, whose other fields are those of `bytes`
-- sent as a.txt; and a line "-", which reads as a block with the index -1.
abbrev line_of : FileBlockPayload → Bytes
line_of p = b'{' ∷ p.content

abbrev read_line : Bytes → Option FileBlockPayload
read_line [] = none
read_line (c ∷ s) =
    if c == b'-'
    then some record {
      action = runes "transfer_block";
      filename = runes "b";
      id = runes "t3";
      count = pos 1;
      index = negsuc 0;
      checksum = [];
      content = [];
    }
    else some (payload (header_of digest (runes "a.txt") (runes "t1") bytes) 0 bytes)

abbrev client : Client
client = record { active = []; files = (runes "in/a.txt", 9 ∷ []) ∷ [] }

only_block : (j : ℕ) → j < block_count bytes → has (0 ∷ []) j ≡ true
unfolding block_count block_size
only_block j lt = ground arith

sent-IsWritten :
    IsWritten line_of read_line
      (block_at join digest line_of read_line (runes "in") (runes "a.txt") (runes "t1") bytes 0)
unfolding payload block_size encode digit
sent-IsWritten = record {
  is_read = refl;
  is_line = (
    λ e. omega arith,
    (λ e. ground arith, (λ e. ground arith, (λ e. ground arith, (λ e. ground arith, tt)))),
  );
  brace = (_, refl);
}

handle_blocks-download_file_example :
    (d : Client) × (handle_blocks join digest line_of read_line
        (runes "in")
        client
        (pick (download_file digest (runes "a.txt") (runes "t1") bytes) (0 ∷ []))
      ≡ returns d)
    × Arrived join digest line_of read_line (runes "in") (runes "a.txt") (runes "t1") bytes client d
unfolding get block_count block_size download_file send_from text_eq
handle_blocks-download_file_example =
    handle_blocks-download_file join digest line_of read_line (runes "in") (runes "a.txt")
      (runes "t1") bytes client [] 0 0 (sent-IsWritten, tt)
      (omega arith, (omega arith, (omega arith, tt))) refl refl tt (omega arith) (omega arith) refl
      only_block

abbrev rogue : FileBlockPayload
rogue = record {
  action = runes "transfer_block";
  filename = runes "../x";
  id = runes "t2";
  count = negsuc 0;
  index = pos 0;
  checksum = [];
  content = [];
}

handle_block-negative_count_example :
    handle_block join digest line_of read_line (runes "in") client rogue ≡ panics
unfolding get
handle_block-negative_count_example =
    handle_block-negative_count join digest line_of read_line (runes "in") client rogue 0 refl refl

-- A file that came before, under the path of the parts file of the transfer t3 of "b", with a line that
-- reads as a block with the index -1.
abbrev trapped : Client
trapped = record { active = []; files = (runes "in/b.t3.parts", b'-' ∷ 10 ∷ []) ∷ [] }

abbrev innocent : FileBlockPayload
innocent = record rogue { filename = runes "b"; id = runes "t3"; count = pos 1 }

handle_block-panics_iff_example :
    (handle_block join digest line_of read_line (runes "in") trapped innocent ≡ panics) ↔ (
      IsNegative (pos 1)
      ⊎ (IsFull
            (mark (state_for join digest line_of read_line (runes "in") trapped innocent) (pos 0))
          × HasBad (
              read_parts read_line (
                split
                  (file_at (runes "in/b.t3.parts") trapped ++ (line_of innocent ++ 10 ∷ []))
                  10))))
unfolding get state_for new_transfer
handle_block-panics_iff_example =
    handle_block-panics_iff join digest line_of read_line (runes "in") trapped innocent

get_unique_path_free_example :
    (p : Text) × (get_unique_path (among (runes "a.txt" ∷ [])) 2 (runes "a.txt") ≡ some p)
    × (among (runes "a.txt" ∷ []) p ≡ false)
    × ((p ≡ runes "a.txt") ⊎ (among (runes "a.txt" ∷ []) (runes "a.txt") ≡ true))
get_unique_path_free_example =
    get_unique_path_free (among (runes "a.txt" ∷ [])) 2 (runes "a.txt") (runes "a.txt" ∷ [])
      (omega arith) (λ p e. e)
