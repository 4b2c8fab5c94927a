-- ===== src/Transfer/Receiver/Progress.antt =====
-- The client while blocks of a file are missing.
use underground_node_network.Base.{
  Option, ℕ, ◌+◌, ◌<◌, ◌≡◌, ◌≢◌, refl, sym, ap, ◌∙◌, [], ◌∷◌, ◌++◌, List, true, false, ==_iff,
  arith, none, some, Bytes, map, All, returns, if◌then◌else◌, append_assoc, append-nil, map-append,
  Bool-cases, inl, inr,
}
use underground_node_network.Base.Int.{pos, int_eq, ℤ_eq}
use underground_node_network.Map.{get, put, get-put, get-put_self, get-put_ne}
use underground_node_network.Text.{Text, runes, text_key}
use underground_node_network.Transfer.Payload.{FileBlockPayload}
use underground_node_network.Transfer.Sender.{block_count, payload}
use underground_node_network.Transfer.Receiver.{
  TransferState, Client, mark, is_complete, new_transfer, state_for, file_at, store_block,
  handle_block, handle_blocks,
}
use underground_node_network.Transfer.Receiver.Lines.{written, written-snoc}
use underground_node_network.Transfer.Receiver.Count.{
  has, has-append, tally, tally_full, tally_new, tally_old, tally_none,
}
use underground_node_network.Transfer.Receiver.Chunks.{chunk, header_of}

module _ (join : Text → Text → Text) (sha256 : Bytes → Text) (line_of : FileBlockPayload → Bytes)
    (read_line : Bytes → Option FileBlockPayload) (dir name id : Text) (file : Bytes) where
  -- The payload of the k-th block.
  abbrev pub block_at : ℕ → FileBlockPayload
  block_at k = payload (header_of sha256 name id file) k (chunk file k)

  abbrev pub parts_of : Text
  parts_of = join dir (name ++ (runes "." ++ (id ++ runes ".parts")))

  -- What the state of the transfer says once the blocks `ks` have come.
  pub record StateIs (ks : List ℕ) (t : TransferState) : Type 0 where
    pub parts_path_is : t.parts_path ≡ parts_of
    pub filename_is : t.filename ≡ name
    pub checksum_is : t.checksum ≡ sha256 file
    pub total_is : t.total ≡ pos (block_count file)
    pub received_is : t.received ≡ tally (block_count file) (has ks)
    pub indices_are : (j : ℕ) → get (pos j) t.indices ≡ (if has ks j then some true else none)

  mark_old :
      (ks : List ℕ) (t : TransferState) (k : ℕ)
      → has ks k ≡ true
      → StateIs ks t
      → StateIs (ks ++ k ∷ []) t
  mark_old ks t k old s = record {
    parts_path_is = s.parts_path_is;
    filename_is = s.filename_is;
    checksum_is = s.checksum_is;
    total_is = s.total_is;
    received_is =
        s.received_is
        ∙ sym (tally_old (block_count file) k (has ks) (has (ks ++ k ∷ [])) old (has-append ks k));
    indices_are =
        λ j. rw (has-append ks k j) (let e = s.indices_are j in ground (arith, ==_iff k j));
  }

  mark_new :
      (ks : List ℕ) (t : TransferState) (k : ℕ)
      → k < block_count file
      → has ks k ≡ false
      → StateIs ks t
      → StateIs
          (ks ++ k ∷ [])
          record t { indices = put (pos k) true t.indices; received = t.received + 1 }
  unfolding int_eq
  mark_new ks t k lt fresh s = record {
    parts_path_is = s.parts_path_is;
    filename_is = s.filename_is;
    checksum_is = s.checksum_is;
    total_is = s.total_is;
    received_is =
        ap (λ r. r + 1) s.received_is
        ∙ sym (
            tally_new (block_count file) k (has ks) (has (ks ++ k ∷ [])) lt fresh
              (has-append ks k));
    indices_are = λ j.
        rw (has-append ks k j, get-put (pos k) (pos j) true t.indices, s.indices_are j)
          (ground arith);
  }

  pub mark-StateIs :
      (ks : List ℕ) (t : TransferState) (k : ℕ)
      → k < block_count file
      → StateIs ks t
      → StateIs (ks ++ k ∷ []) (mark t (pos k))
  unfolding mark
  mark-StateIs ks t k lt s = elim (Bool-cases (has ks k)) [
    | inl old ↦
        let seen : get (pos k) t.indices ≡ some true = s.indices_are k ∙ rw old refl in
        rw (mark, seen) (mark_old ks t k old s)
    | inr fresh ↦
        let unseen : get (pos k) t.indices ≡ none = s.indices_are k ∙ rw fresh refl in
        rw (mark, unseen) (mark_new ks t k lt fresh s)
  ]

  -- The client `d`, which has got the blocks `ks` since it was `c`.
  pub record Receiving (c : Client) (ks : List ℕ) (d : Client) : Type 0 where
    pub state_is : StateIs ks (state_for join sha256 line_of read_line dir d (block_at 0))
    pub parts_are : file_at parts_of d ≡ written line_of read_line (map block_at ks)
    pub active_else : (i : Text) → id ≢ i → get i d.active ≡ get i c.active
    pub files_else : (p : Text) → parts_of ≢ p → get p d.files ≡ get p c.files

  pub start-Receiving :
      (c : Client) → get id c.active ≡ none → get parts_of c.files ≡ none → Receiving c [] c
  unfolding state_for file_at new_transfer payload get
  start-Receiving c fresh empty = record {
    state_is =
        rw (state_for, fresh)
          record {
            parts_path_is = refl;
            filename_is = refl;
            checksum_is = refl;
            total_is = refl;
            received_is = sym (tally_none (block_count file));
            indices_are = λ j. refl;
          };
    parts_are = rw (file_at, empty) refl;
    active_else = λ i ne. refl;
    files_else = λ p ne. refl;
  }

  -- The state does not depend on which block it is asked for.
  pub state_for_any :
      (d : Client) (k : ℕ)
      → state_for join sha256 line_of read_line dir d (block_at k)
        ≡ state_for join sha256 line_of read_line dir d (block_at 0)
  unfolding state_for new_transfer payload
  state_for_any d k = refl

  state_for-store_block :
      (d : Client) (k : ℕ)
      → state_for join sha256 line_of read_line dir
          (store_block join sha256 line_of read_line dir d (block_at k))
          (block_at 0)
        ≡ mark (state_for join sha256 line_of read_line dir d (block_at k)) (pos k)
  unfolding state_for store_block payload new_transfer
  state_for-store_block d k = rw (state_for, get-put_self) refl

  file_at-some : (p : Text) (d : Client) (b : Bytes) → get p d.files ≡ some b → file_at p d ≡ b
  unfolding file_at
  file_at-some p d b e = rw (file_at, e) refl

  pub files-store_block :
      (d : Client) (k : ℕ)
      → (state_for join sha256 line_of read_line dir d (block_at k)).parts_path ≡ parts_of
      → get parts_of (store_block join sha256 line_of read_line dir d (block_at k)).files
        ≡ some (file_at parts_of d ++ (line_of (block_at k) ++ 10 ∷ []))
  unfolding store_block
  files-store_block d k path = simp path (get-put_self parts_of _ d.files)

  pub store_block-Receiving :
      (c d : Client) (ks : List ℕ) (k : ℕ)
      → k < block_count file
      → Receiving c ks d
      → Receiving c (ks ++ k ∷ []) (store_block join sha256 line_of read_line dir d (block_at k))
  unfolding store_block payload
  store_block-Receiving c d ks k lt r =
      let any = state_for_any d k in
      let path : (state_for join sha256 line_of read_line dir d (block_at k)).parts_path
          ≡ parts_of =
        rw any r.state_is.parts_path_is in
      record {
        state_is = rw (state_for-store_block d k, any) (mark-StateIs ks _ k lt r.state_is);
        parts_are =
            file_at-some parts_of _ _ (files-store_block d k path)
            ∙ ap (λ b. b ++ (line_of (block_at k) ++ 10 ∷ [])) r.parts_are
            ∙ sym (written-snoc line_of read_line (map block_at ks) (block_at k))
            ∙ ap (written line_of read_line) (sym (map-append block_at ks (k ∷ [])));
        active_else = λ i ne. get-put_ne id i _ d.active ne ∙ r.active_else i ne;
        files_else = λ p ne. rw path (get-put_ne parts_of p _ d.files ne ∙ r.files_else p ne);
      }

  -- Not complete as long as an index is missing.
  waits :
      (ks : List ℕ) (j : ℕ) (t : TransferState)
      → j < block_count file
      → has ks j ≡ false
      → StateIs ks t
      → is_complete t.received t.total ≡ false
  unfolding is_complete
  waits ks j t lt missing s =
      let full = tally_full (block_count file) (has ks) j in
      rw (s.total_is, s.received_is) (ground arith)

  handle_block-waits :
      (c d : Client) (ks : List ℕ) (k j : ℕ)
      → k < block_count file
      → j < block_count file
      → has (ks ++ k ∷ []) j ≡ false
      → Receiving c ks d
      → handle_block join sha256 line_of read_line dir d (block_at k)
        ≡ returns (store_block join sha256 line_of read_line dir d (block_at k))
  unfolding handle_block payload
  handle_block-waits c d ks k j lt lj missing r =
      let any = state_for_any d k in
      let wait = waits (ks ++ k ∷ []) j _ lj missing (mark-StateIs ks _ k lt r.state_is) in
      rw (any, wait) refl

  has-append_left : (ks is : List ℕ) (j : ℕ) → has (ks ++ is) j ≡ false → has ks j ≡ false
  has-append_left [] is j h = refl
  has-append_left (k ∷ ks) is j h = ground (arith, has-append_left ks is j)

  -- Blocks come in while one is missing.
  pub handle_blocks-Receiving :
      (c d : Client) (pre ks : List ℕ) (j : ℕ)
      → All (λ k. k < block_count file) ks
      → j < block_count file
      → has (pre ++ ks) j ≡ false
      → Receiving c pre d
      → (d' : Client) × (handle_blocks join sha256 line_of read_line dir d (map block_at ks)
          ≡ returns d')
        × Receiving c (pre ++ ks) d'
  unfolding handle_blocks
  handle_blocks-Receiving c d pre [] j lts lj missing r = (d, refl, rw (append-nil pre) r)
  handle_blocks-Receiving c d pre (k ∷ ks) j (lt, lts) lj missing r =
      let e = append_assoc pre (k ∷ []) ks in
      let now : has (pre ++ k ∷ []) j ≡ false =
        has-append_left (pre ++ k ∷ []) ks j (rw e missing) in
      let (d', run, r') =
        handle_blocks-Receiving c (store_block join sha256 line_of read_line dir d (block_at k))
          (pre ++ k ∷ []) ks j lts lj (rw e missing) (store_block-Receiving c d pre k lt r) in
      rw (handle_block-waits c d pre k j lt lj now r) (d', run, rw e at r')
