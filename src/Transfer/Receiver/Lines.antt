-- ===== src/Transfer/Receiver/Lines.antt =====
-- The lines of a parts file, written and read back.
use underground_node_network.Base.{
  ◌≡◌, refl, [], ◌∷◌, ◌++◌, List, false, Option, some, Bytes, All, append_assoc,
}
use underground_node_network.Text.{
  Text, Lacks, text_eq, is_space, trim_space, trim_left, trim_right, keep_unless,
}
use underground_node_network.Text.Split.{split, split-append}
use underground_node_network.Transfer.Payload.{FileBlockPayload}
use underground_node_network.Transfer.Receiver.{read_parts}

module _ (line_of : FileBlockPayload → Bytes) (read_line : Bytes → Option FileBlockPayload) where
  -- A payload is written as one line that opens with a brace, and read back from it.
  pub record IsWritten (p : FileBlockPayload) : Type 0 where
    pub is_read : read_line (line_of p) ≡ some p
    pub is_line : Lacks 10 (line_of p)
    pub brace : (rest : Bytes) × (line_of p ≡ b'{' ∷ rest)

  abbrev pub written : List FileBlockPayload → Bytes
  written [] = []
  written (p ∷ ps) = line_of p ++ 10 ∷ written ps

  pub written-snoc :
      (ps : List FileBlockPayload) (p : FileBlockPayload)
      → written (ps ++ p ∷ []) ≡ written ps ++ (line_of p ++ 10 ∷ [])
  written-snoc [] p = refl
  written-snoc (q ∷ ps) p =
      rw (written-snoc ps p, append_assoc (line_of q) (10 ∷ written ps) (line_of p ++ 10 ∷ [])) refl

  not_blank : (line rest : Bytes) → line ≡ b'{' ∷ rest → text_eq (trim_space line) [] ≡ false
  unfolding trim_space trim_left is_space trim_right text_eq keep_unless
  not_blank line rest e = rw e (go (trim_right is_space rest))
    where
      go : (s : Text) → text_eq (keep_unless is_space b'{' s) [] ≡ false
      go [] = refl
      go (c ∷ s) = refl

  pub read_parts-written :
      (ps : List FileBlockPayload)
      → All IsWritten ps
      → read_parts read_line (split (written ps) 10) ≡ ps
  unfolding read_parts split trim_space trim_left trim_right text_eq
  read_parts-written [] h = refl
  read_parts-written (p ∷ ps) (w, ws) =
      let cut = split-append (line_of p) (written ps) 10 w.is_line in
      let (rest, opens) = w.brace in
      rw (cut, read_parts, not_blank (line_of p) rest opens, w.is_read, read_parts-written ps ws)
        refl
