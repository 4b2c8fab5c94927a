-- ===== src/Transfer/Receiver/Complete.antt =====
-- A transfer whose blocks have all come, in whatever order and however often.
use underground_node_network.Base.{
  subst, ℕ, ◌+◌, ◌<◌, ◌≡◌, ◌≢◌, refl, sym, ap, ◌∙◌, [], ◌∷◌, ◌++◌, List, true, false, not, ◌&&◌,
  arith, Option, none, some, Bytes, map, All, All-append, returns, set, map-append,
}
use underground_node_network.Base.Int.{pos}
use underground_node_network.Map.{
  get, put, delete, get-delete, get-delete_ne, same_self, get-put_self, get-put_ne,
}
use underground_node_network.Text.{Text, text_eq, text_eq_refl, text_key}
use underground_node_network.Transfer.Base64.RoundTrip.{AreBytes, decode-encode}
use underground_node_network.Transfer.Payload.{FileBlockPayload}
use underground_node_network.Transfer.Sender.{block_count, payload, download_file}
use underground_node_network.Transfer.Receiver.{
  TransferState, Client, is_complete, make_slots, place_at, place, place_all, write_blocks,
  path_exists, free_path, state_for, store_block, handle_block, handle_blocks, save, assemble_file,
}
use underground_node_network.Transfer.Receiver.Count.{has, tally_all}
use underground_node_network.Transfer.Receiver.Slots.{
  tabulate, tabulate-replicate, update, set-tabulate, filled, all_filled,
}
use underground_node_network.Transfer.Receiver.Lines.{
  IsWritten, written, written-snoc, read_parts-written,
}
use underground_node_network.Transfer.Receiver.Free.{free_path_lem}
use underground_node_network.Transfer.Receiver.Chunks.{
  chunk, chunk-AreBytes, write_blocks-chunks, download_file-get,
}
use underground_node_network.Transfer.Receiver.Progress.{
  block_at, parts_of, StateIs, mark-StateIs, Receiving, start-Receiving, state_for_any,
  files-store_block, store_block-Receiving, handle_blocks-Receiving,
}
use underground_node_network.Transfer.Receiver.Picked.{pick, handle_blocks-append, All-pick}

module _ (join : Text → Text → Text) (sha256 : Bytes → Text) (line_of : FileBlockPayload → Bytes)
    (read_line : Bytes → Option FileBlockPayload) (dir name id : Text) (file : Bytes) where
  pick-download_file :
      (ks : List ℕ)
      → All (λ k. k < block_count file) ks
      → pick (download_file sha256 name id file) ks
        ≡ map (block_at join sha256 line_of read_line dir name id file) ks
  pick-download_file [] h = refl
  pick-download_file (k ∷ ks) (lt, h) =
      rw (pick, download_file-get sha256 name id file k lt, pick-download_file ks h)

  place-block :
      (slots : List (Option Bytes)) (k : ℕ)
      → AreBytes file
      → place slots (block_at join sha256 line_of read_line dir name id file k)
        ≡ returns (set slots k (some (chunk file k)))
  unfolding place place_at payload
  place-block slots k h = rw (place, decode-encode (chunk file k) (chunk-AreBytes file k h)) refl

  place_all-blocks :
      (n : ℕ) (ks : List ℕ) (f : ℕ → Option Bytes)
      → AreBytes file
      → place_all
          (tabulate 0 n f)
          (map (block_at join sha256 line_of read_line dir name id file) ks)
        ≡ returns (tabulate 0 n (filled (chunk file) ks f))
  unfolding place_all
  place_all-blocks n [] f h = refl
  place_all-blocks n (k ∷ ks) f h =
      let z : 0 + k ≡ k = omega arith in
      rw
        (place_all, place-block (tabulate 0 n f) k h, set-tabulate 0 n k f (some (chunk file k)), z)
        (place_all-blocks n ks (update f k (some (chunk file k))) h)

  save-whole :
      (d : Client) (t : TransferState) (slots : List (Option Bytes))
      → write_blocks slots ≡ (file, true)
      → t.checksum ≡ sha256 file
      → save join sha256 line_of read_line dir d id t slots ≡ record d {
        files = delete t.parts_path (put (free_path d (join dir t.filename)) file d.files);
        active = delete id d.active;
      }
  unfolding save
  save-whole d t slots whole sum =
      let clean : (not (text_eq t.checksum []) && not (text_eq (sha256 file) t.checksum)) ≡ false =
        let e = text_eq_refl (sha256 file) in simp (sum, e) (ground arith) in
      rw (whole, clean) refl

  slots_made :
      (t : TransferState)
      → t.total ≡ pos (block_count file)
      → make_slots t.total ≡ returns (tabulate 0 (block_count file) (λ _. none))
  unfolding make_slots
  slots_made t e =
      ap make_slots e ∙ ap returns (tabulate-replicate {A = Option Bytes} 0 (block_count file) none)

  -- assembleFile, with all blocks in the parts file.
  assemble_file-all :
      (d : Client) (ks : List ℕ) (t : TransferState)
      → AreBytes file
      → StateIs join sha256 line_of read_line dir name id file ks t
      → ((j : ℕ) → j < block_count file → has ks j ≡ true)
      → get (parts_of join sha256 line_of read_line dir name id file) d.files
        ≡ some (
            written line_of read_line
              (map (block_at join sha256 line_of read_line dir name id file) ks))
      → All
          (IsWritten line_of read_line)
          (map (block_at join sha256 line_of read_line dir name id file) ks)
      → assemble_file join sha256 line_of read_line dir d t id
        ≡ returns record d {
          files =
              delete
                (parts_of join sha256 line_of read_line dir name id file)
                (put (free_path d (join dir name)) file d.files);
          active = delete id d.active;
        }
  unfolding assemble_file
  assemble_file-all d ks t bytes s all there lines =
      let blocks = map (block_at join sha256 line_of read_line dir name id file) ks in
      let read : get t.parts_path d.files ≡ some (written line_of read_line blocks) =
        ap (λ p. get p d.files) s.parts_path_is ∙ there in
      let back = read_parts-written line_of read_line blocks lines in
      let saved = save-whole d t _ (write_blocks-chunks file) s.checksum_is in
      rw
        (
          assemble_file,
          read,
          back,
          slots_made t s.total_is,
          place_all-blocks (block_count file) ks (λ _. none) bytes,
          all_filled (chunk file) (block_count file) ks (λ _. none) all,
          saved,
        )
        (simp (s.parts_path_is, s.filename_is) refl)

  -- What `c` is once `file` has arrived.
  pub record Arrived (c d : Client) : Type 0 where
    pub path : Text
    pub is_new : get path c.files ≡ none
    pub is_saved : get path d.files ≡ some file
    pub is_removed : get (parts_of join sha256 line_of read_line dir name id file) d.files ≡ none
    pub files_else :
        (p : Text)
        → path ≢ p
        → parts_of join sha256 line_of read_line dir name id file ≢ p
        → get p d.files ≡ get p c.files
    pub is_over : get id d.active ≡ none
    pub active_else : (i : Text) → id ≢ i → get i d.active ≡ get i c.active

  unknown_path : (d : Client) (q : Text) → path_exists d q ≡ false → get q d.files ≡ none
  unfolding path_exists
  unknown_path d q e = go (get q d.files) e
    where
      go : (o : Option Bytes) → (elim o [ some _ ↦ true | none ↦ false ]) ≡ false → o ≡ none
      go (some b) e' = absurd (ground arith)
      go none e' = refl

  -- The client with the file saved has what `Arrived` says.
  saved-Arrived :
      (c e : Client) (ks : List ℕ) (b : Bytes)
      → Receiving join sha256 line_of read_line dir name id file c ks e
      → get (parts_of join sha256 line_of read_line dir name id file) e.files ≡ some b
      → Arrived c record e {
        files =
            delete
              (parts_of join sha256 line_of read_line dir name id file)
              (put (free_path e (join dir name)) file e.files);
        active = delete id e.active;
      }
  saved-Arrived c e ks b r there =
      let q = free_path e (join dir name) in
      let pp = parts_of join sha256 line_of read_line dir name id file in
      let unknown = unknown_path e q (free_path_lem e (join dir name)).0 in
      let other : pp ≢ q = λ eq. some_ne (sym there ∙ ap (λ p. get p e.files) eq ∙ unknown) in
      record {
        path = q;
        is_new = sym (r.files_else q other) ∙ unknown;
        is_saved = get-delete_ne pp q (put q file e.files) other ∙ get-put_self q file e.files;
        is_removed = rw (get-delete pp pp (put q file e.files), same_self pp) refl;
        files_else = λ p ne ne'.
            get-delete_ne pp p (put q file e.files) ne'
            ∙ get-put_ne q p file e.files ne
            ∙ r.files_else p ne';
        is_over = rw (get-delete id id e.active, same_self id) refl;
        active_else = λ i ne. get-delete_ne id i e.active ne ∙ r.active_else i ne;
      }
    where
      some_ne : {x : Bytes} → some x ≡ none → ⊥
      some_ne eq = cc

  is_complete-all :
      (ks : List ℕ) (t : TransferState)
      → StateIs join sha256 line_of read_line dir name id file ks t
      → ((j : ℕ) → j < block_count file → has ks j ≡ true)
      → is_complete t.received t.total ≡ true
  unfolding is_complete
  is_complete-all ks t s all =
      rw (s.total_is, s.received_is, tally_all (block_count file) (has ks) all) (ground arith)

  handle_block-last :
      (c d : Client) (ks : List ℕ) (k : ℕ)
      → AreBytes file
      → k < block_count file
      → ((j : ℕ) → j < block_count file → has (ks ++ k ∷ []) j ≡ true)
      → All
          (IsWritten line_of read_line)
          (map (block_at join sha256 line_of read_line dir name id file) (ks ++ k ∷ []))
      → Receiving join sha256 line_of read_line dir name id file c ks d
      → (d' : Client) × (handle_block join sha256 line_of read_line dir d
            (block_at join sha256 line_of read_line dir name id file k)
          ≡ returns d')
        × Arrived c d'
  unfolding handle_block payload
  handle_block-last c d ks k bytes lt all lines r =
      let e =
        store_block join sha256 line_of read_line dir d
          (block_at join sha256 line_of read_line dir name id file k) in
      let any = state_for_any join sha256 line_of read_line dir name id file d k in
      let path : (state_for join sha256 line_of read_line dir d
            (block_at join sha256 line_of read_line dir name id file k)).parts_path
          ≡ parts_of join sha256 line_of read_line dir name id file =
        rw any r.state_is.parts_path_is in
      let t = mark-StateIs join sha256 line_of read_line dir name id file ks _ k lt r.state_is in
      let block = block_at join sha256 line_of read_line dir name id file in
      let there : get (parts_of join sha256 line_of read_line dir name id file) e.files
          ≡ some (written line_of read_line (map block (ks ++ k ∷ []))) =
        files-store_block join sha256 line_of read_line dir name id file d k path
        ∙ ap some (
            ap (λ b. b ++ (line_of (block k) ++ 10 ∷ [])) r.parts_are
            ∙ sym (written-snoc line_of read_line (map block ks) (block k))
            ∙ ap (written line_of read_line) (sym (map-append block ks (k ∷ [])))) in
      let r' = store_block-Receiving join sha256 line_of read_line dir name id file c d ks k lt r in
      let complete = is_complete-all (ks ++ k ∷ []) _ t all in
      let done = assemble_file-all e (ks ++ k ∷ []) _ bytes t all there lines in
      (_, rw (any, complete) done, saved-Arrived c e (ks ++ k ∷ []) _ r' there)

-- The blocks of a file reach a client that has no transfer of that id and no file at the path of its
-- parts file, in any order and any number of times, until with the last one every block has come; each
-- payload is written as one line of JSON, opens with a brace, and is read back from it. The client takes
-- them all without a crash, the file is saved under a path that no file had, the transfer and its parts
-- file are gone, and no other file and no other transfer changes.
pub handle_blocks-download_file :
    (join : Text → Text → Text) (sha256 : Bytes → Text) (line_of : FileBlockPayload → Bytes)
    (read_line : Bytes → Option FileBlockPayload) (dir name id : Text) (file : Bytes) (c : Client)
    (ks : List ℕ) (k missing : ℕ)
    → All (IsWritten line_of read_line) (download_file sha256 name id file)
    → AreBytes file
    → get id c.active ≡ none
    → get (parts_of join sha256 line_of read_line dir name id file) c.files ≡ none
    → All (λ i. i < block_count file) ks
    → k < block_count file
    → missing < block_count file
    → has ks missing ≡ false
    → ((j : ℕ) → j < block_count file → has (ks ++ k ∷ []) j ≡ true)
    → (d : Client) × (handle_blocks join sha256 line_of read_line dir c
          (pick (download_file sha256 name id file) (ks ++ k ∷ []))
        ≡ returns d)
      × Arrived join sha256 line_of read_line dir name id file c d
handle_blocks-download_file join sha256 line_of read_line dir name id file c ks k missing lines
      bytes fresh empty lts lt lm gap all =
    let block = block_at join sha256 line_of read_line dir name id file in
    let start = start-Receiving join sha256 line_of read_line dir name id file c fresh empty in
    let (d, run, r) =
      handle_blocks-Receiving join sha256 line_of read_line dir name id file c c [] ks missing lts
        lm gap start in
    let sent : pick (download_file sha256 name id file) (ks ++ k ∷ []) ≡ map block (ks ++ k ∷ []) =
      pick-download_file join sha256 line_of read_line dir name id file (ks ++ k ∷ [])
        (All-append (λ i. i < block_count file) ks (k ∷ []) lts (lt, tt)) in
    let picked = All-pick (IsWritten line_of read_line) (download_file sha256 name id file) lines in
    let (d', last, arrived) =
      handle_block-last join sha256 line_of read_line dir name id file c d ks k bytes lt all
        (subst (All (IsWritten line_of read_line)) sent (picked (ks ++ k ∷ []))) r in
    (
      d',
      rw (sent, map-append block ks (k ∷ []))
          (handle_blocks-append join sha256 line_of read_line dir c (map block ks) (block k) d run
            ∙ last),
      arrived,
    )
