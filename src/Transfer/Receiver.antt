-- ===== src/Transfer/Receiver.antt =====
-- cmd/unn-client/transfer.go: the client's side of a transfer. Calls of the file system succeed;
-- `filepath.Join`, SHA-256, and the encoder and decoder of a line of JSON are parameters.
pub mod Lines
pub mod Count
pub mod Slots
pub mod Chunks
pub mod Free
pub mod Progress
pub mod Picked
pub mod Complete
pub mod Hostile
use underground_node_network.Base.{
  ℕ, zero, suc, ◌+◌, ◌++◌, [], ◌∷◌, List, Bool, true, false, not, ◌&&◌, Option, none, some, Outcome,
  returns, panics, ◌>>=◌, if◌then◌else◌, leb, length, replicate, set, Bytes,
}
use underground_node_network.Base.Int.{ℤ, pos, negsuc, ℤ_eq}
use underground_node_network.Map.{Map, get, put, delete}
use underground_node_network.Text.{Text, text_eq, text_key, runes, trim_space}
use underground_node_network.Text.Split.{split}
use underground_node_network.Transfer.Base64.{decode}
use underground_node_network.Transfer.UniquePath.{get_unique_path}
use underground_node_network.Transfer.Payload.{FileBlockPayload}

-- oscTransferState; a key of `indices` is an index that has been received.
pub record TransferState : Type 0 where
  pub parts_path : Text
  pub filename : Text
  pub received : ℕ
  pub total : ℤ
  pub checksum : Text
  pub indices : Map ℤ Bool

-- activeTransfers, and the files by their paths, the parts files among them.
pub record Client : Type 0 where
  pub active : Map Text TransferState
  pub files : Map Text Bytes

-- !state.indices[p.Index], state.indices[p.Index] = true, state.received++
unfoldable pub mark : TransferState → ℤ → TransferState
mark t i = elim (get i t.indices) [
  | some _ ↦ t
  | none ↦ record t { indices = put i true t.indices; received = t.received + 1 }
]

-- state.received >= state.total
unfoldable pub is_complete : ℕ → ℤ → Bool
is_complete received (pos total) = leb total received
is_complete received (negsuc n) = true

-- make([][]byte, state.total)
unfoldable pub make_slots : ℤ → Outcome (List (Option Bytes))
make_slots (pos n) = returns (replicate n none)
make_slots (negsuc n) = panics

-- if p.Index < len(blocks) { blocks[p.Index] = decoded }
unfoldable pub place_at : List (Option Bytes) → ℤ → Bytes → Outcome (List (Option Bytes))
place_at slots (pos i) b = returns (set slots i (some b))
place_at slots (negsuc n) b = panics

-- One line of the parts file; a block that does not decode is passed over.
unfoldable pub place : List (Option Bytes) → FileBlockPayload → Outcome (List (Option Bytes))
place slots p = elim (decode p.content) [ none ↦ returns slots | some b ↦ place_at slots p.index b ]

unfoldable pub place_all :
    List (Option Bytes) → List FileBlockPayload → Outcome (List (Option Bytes))
place_all slots [] = returns slots
place_all slots (p ∷ ps) = place slots p >>= λ more. place_all more ps

-- The blocks up to the first missing one, and whether none is missing.
unfoldable pub write_blocks : List (Option Bytes) → Bytes × Bool
write_blocks [] = ([], true)
write_blocks (none ∷ slots) = ([], false)
write_blocks (some b ∷ slots) = let (rest, whole) = write_blocks slots in (b ++ rest, whole)

-- os.Stat finds the path.
unfoldable pub path_exists : Client → Text → Bool
path_exists c p = elim (get p c.files) [ some _ ↦ true | none ↦ false ]

-- getUniquePath, with one round more than there are files; `Free.free_path_lem` shows that it returns.
unfoldable pub free_path : Client → Text → Text
unfolding get_unique_path
free_path c path = elim (get_unique_path (path_exists c) (length c.files + 1) path) [
  | some p ↦ p
  | none ↦ path
]

-- What O_APPEND writes behind: the file that is there, or the empty one that O_CREATE makes.
unfoldable pub file_at : Text → Client → Bytes
file_at path c = elim (get path c.files) [ none ↦ [] | some bytes ↦ bytes ]

-- The lines of a parts file that are not blank and that json.Unmarshal takes.
unfoldable pub read_parts : (Bytes → Option FileBlockPayload) → List Bytes → List FileBlockPayload
read_parts read_line [] = []
read_parts read_line (line ∷ lines) =
    let rest = read_parts read_line lines in
    if text_eq (trim_space line) []
    then rest
    else elim (read_line line) [ none ↦ rest | some p ↦ p ∷ rest ]

module _ (join : Text → Text → Text) (sha256 : Bytes → Text) (line_of : FileBlockPayload → Bytes)
    (read_line : Bytes → Option FileBlockPayload) (dir : Text) where
  unfoldable pub new_transfer : FileBlockPayload → TransferState
  new_transfer p = record {
    parts_path = join dir (p.filename ++ (runes "." ++ (p.id ++ runes ".parts")));
    filename = p.filename;
    received = 0;
    total = p.count;
    checksum = p.checksum;
    indices = [];
  }

  -- The end of assembleFile, once the blocks are in their slots.
  unfoldable pub save : Client → Text → TransferState → List (Option Bytes) → Client
  save c id t slots =
      let (out, whole) = write_blocks slots in
      let files = put (free_path c (join dir t.filename)) out c.files in
      if not whole
      then record c { files = files }
      else if not (text_eq t.checksum []) && not (text_eq (sha256 out) t.checksum)
      then record c { files = files; active = delete id c.active }
      else record c { files = delete t.parts_path files; active = delete id c.active }

  unfoldable pub assemble_file : Client → TransferState → Text → Outcome Client
  assemble_file c t id = elim (get t.parts_path c.files) [
    | none ↦ returns c
    | some bytes ↦ make_slots t.total >>= λ empty.
        place_all empty (read_parts read_line (split bytes 10)) >>= λ slots.
        returns (save c id t slots)
  ]

  -- The state of a transfer when a block of it arrives.
  unfoldable pub state_for : Client → FileBlockPayload → TransferState
  state_for c p = elim (get p.id c.active) [ some t ↦ t | none ↦ new_transfer p ]

  -- The line of the block is appended to the parts file and its index marked.
  unfoldable pub store_block : Client → FileBlockPayload → Client
  store_block c p =
      let t = state_for c p in
      record c {
        active = put p.id (mark t p.index) c.active;
        files = put t.parts_path (file_at t.parts_path c ++ (line_of p ++ 10 ∷ [])) c.files;
      }

  unfoldable pub handle_block : Client → FileBlockPayload → Outcome Client
  handle_block c p =
      let t = mark (state_for c p) p.index in
      if is_complete t.received t.total
      then assemble_file (store_block c p) t p.id
      else returns (store_block c p)

  unfoldable pub handle_blocks : Client → List FileBlockPayload → Outcome Client
  handle_blocks c [] = returns c
  handle_blocks c (p ∷ ps) = handle_block c p >>= λ d. handle_blocks d ps
