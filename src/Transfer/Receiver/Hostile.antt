-- ===== src/Transfer/Receiver/Hostile.antt =====
-- What blocks of unexpected contents do to the client.
use underground_node_network.Base.{
  ℕ, ◌+◌, ◌≤◌, ◌≡◌, ◌⊎◌, ◌↔◌, refl, sym, subst, ◌∙◌, [], ◌∷◌, ◌++◌, List, Bool, true, false, Option,
  none, some, ap, Bytes, Outcome, returns, panics, ◌>>=◌, replicate, set, inl, inr, arith, dec_le,
}
use underground_node_network.Base.Int.{ℤ, pos, negsuc, ℤ_eq}
use underground_node_network.Map.{get, put, get-put_self}
use underground_node_network.Text.{Text, text_key}
use underground_node_network.Text.Split.{split}
use underground_node_network.Transfer.Base64.{decode}
use underground_node_network.Transfer.Payload.{FileBlockPayload}
use underground_node_network.Transfer.Receiver.{
  TransferState, Client, mark, is_complete, make_slots, place_at, place, place_all, new_transfer,
  save, state_for, file_at, read_parts, store_block, assemble_file, handle_block,
}

abbrev pub IsNegative : ℤ → Type 0
IsNegative (pos n) = ⊥
IsNegative (negsuc n) = Unit

-- A line with a block that decodes and an index below 0.
abbrev pub IsBad : FileBlockPayload → Type 0
IsBad p = ((b : Bytes) × (decode p.content ≡ some b)) × IsNegative p.index

abbrev pub HasBad : List FileBlockPayload → Type 0
HasBad [] = ⊥
HasBad (p ∷ ps) = IsBad p ⊎ HasBad ps

-- As many indices as there are blocks have come.
abbrev pub IsFull : TransferState → Type 0
IsFull t = (n : ℕ) × (t.total ≡ pos n) × (n ≤ t.received)

mark-same :
    (t : TransferState) (i : ℤ)
    → ((mark t i).total ≡ t.total) × ((mark t i).parts_path ≡ t.parts_path)
unfolding mark
mark-same t i = go (get i t.indices)
  where
    go :
        (o : Option Bool)
        → let u = elim o as (λ _. TransferState) [
          | some _ ↦ t
          | none ↦ record t { indices = put i true t.indices; received = t.received + 1 }
        ] in
          (u.total ≡ t.total) × (u.parts_path ≡ t.parts_path)
    go (some b) = (refl, refl)
    go none = (refl, refl)

place-cases :
    (slots : List (Option Bytes)) (p : FileBlockPayload)
    → (((more : List (Option Bytes)) × (place slots p ≡ returns more)) × (IsBad p → ⊥))
      ⊎ ((place slots p ≡ panics) × IsBad p)
unfolding place place_at
place-cases slots p = go (decode p.content) p.index refl refl
  where
    go :
        (o : Option Bytes) (i : ℤ)
        → decode p.content ≡ o
        → p.index ≡ i
        → (((more : List (Option Bytes)) × ((elim o [
          | none ↦ returns slots
          | some b ↦ place_at slots p.index b
        ])
                ≡ returns more))
            × (IsBad p → ⊥))
          ⊎ (((elim o [ none ↦ returns slots | some b ↦ place_at slots p.index b ]) ≡ panics)
              × IsBad p)
    go none i e ei = inl ((slots, refl), λ bad. let there = bad.0.1 in cc)
    go (some b) (pos i) e ei =
        inl ((set slots i (some b), rw ei refl), λ bad. subst IsNegative ei bad.1)
    go (some b) (negsuc i) e ei = inr (rw ei refl, ((b, e), subst IsNegative (sym ei) tt))

place_all-panics :
    (slots : List (Option Bytes)) (ls : List FileBlockPayload)
    → (place_all slots ls ≡ panics) ↔ HasBad ls
unfolding place_all
place_all-panics slots [] = ((λ e. cc), λ never. absurd never)
place_all-panics slots (p ∷ ls) = elim (place-cases slots p) [
  | inr (e, bad) ↦ ((λ x. inl bad), λ x. rw (place_all, e) refl)
  | inl ((next, e), fine) ↦
      let (to, from) = place_all-panics next ls in
      let law : place_all slots (p ∷ ls) ≡ place_all next ls = rw (place_all, e) refl in
      ((λ x. inr (to (sym law ∙ x))), λ h. law ∙ from (behind fine h))
]
  where
    behind : (IsBad p → ⊥) → HasBad (p ∷ ls) → HasBad ls
    behind fine (inl bad) = absurd (fine bad)
    behind fine (inr later) = later

is_complete-cases :
    (t : TransferState)
    → ((is_complete t.received t.total ≡ true) × (IsNegative t.total ⊎ IsFull t))
      ⊎ ((is_complete t.received t.total ≡ false) × (IsNegative t.total ⊎ IsFull t → ⊥))
unfolding is_complete
is_complete-cases t = go t.total refl
  where
    full_of : (n : ℕ) → t.total ≡ pos n → IsFull t → n ≤ t.received
    full_of n e (m, e', le) =
        let same : pos m ≡ pos n = sym e' ∙ e in let eq : m ≡ n = cc in omega (arith, eq)

    go :
        (z : ℤ)
        → t.total ≡ z
        → ((is_complete t.received z ≡ true) × (IsNegative t.total ⊎ IsFull t))
          ⊎ ((is_complete t.received z ≡ false) × (IsNegative t.total ⊎ IsFull t → ⊥))
    go (negsuc n) e = inl (refl, inl (subst IsNegative (sym e) tt))
    go (pos n) e = elim (dec_le n t.received) [
      | yes le ↦ inl (ground arith, inr (n, e, le))
      | no gt ↦ inr (ground arith, never gt)
    ]
      where
        never : (n ≤ t.received → ⊥) → IsNegative t.total ⊎ IsFull t → ⊥
        never gt (inl neg) = subst IsNegative e neg
        never gt (inr full) = gt (full_of n e full)

bind-panics :
    {A B : Type 0} (m : Outcome A) (f : A → B)
    → ((m >>= λ a. returns (f a)) ≡ panics) ↔ (m ≡ panics)
bind-panics (returns a) f = ((λ e. cc), λ e. cc)
bind-panics panics f = ((λ e. refl), λ e. refl)

module _ (join : Text → Text → Text) (sha256 : Bytes → Text) (line_of : FileBlockPayload → Bytes)
    (read_line : Bytes → Option FileBlockPayload) (dir : Text) where
  new_total :
      (c : Client) (p : FileBlockPayload)
      → get p.id c.active ≡ none
      → (state_for join sha256 line_of read_line dir c p).total ≡ p.count
  unfolding state_for new_transfer
  new_total c p fresh = rw (state_for, fresh) refl

  -- assembleFile panics for a negative total, and for a bad line.
  assemble_file-panics :
      (c : Client) (t : TransferState) (id : Text) (b : Bytes)
      → get t.parts_path c.files ≡ some b
      → (assemble_file join sha256 line_of read_line dir c t id ≡ panics)
        ↔ (IsNegative t.total ⊎ HasBad (read_parts read_line (split b 10)))
  unfolding assemble_file make_slots
  assemble_file-panics c t id b there = go t.total refl
    where
      lines : List FileBlockPayload
      lines = read_parts read_line (split b 10)

      go :
          (z : ℤ)
          → t.total ≡ z
          → (assemble_file join sha256 line_of read_line dir c t id ≡ panics)
            ↔ (IsNegative t.total ⊎ HasBad lines)
      go (negsuc n) e =
          let made : make_slots t.total ≡ panics = ap make_slots e in
          ((λ x. inl (subst IsNegative (sym e) tt)), λ x. rw (assemble_file, there, made) refl)
      go (pos n) e =
          let made : make_slots t.total ≡ returns (replicate n none) = ap make_slots e in
          let law : assemble_file join sha256 line_of read_line dir c t id ≡ (
              place_all (replicate n none) lines >>= λ slots.
              returns (save join sha256 line_of read_line dir c id t slots)) =
            rw (assemble_file, there, made) refl in
          let (to, from) =
            bind-panics (place_all (replicate n none) lines)
              (save join sha256 line_of read_line dir c id t) in
          let (bad, back) = place_all-panics (replicate n none) lines in
          ((λ x. inr (bad (to (sym law ∙ x)))), λ h. law ∙ from (back (only e h)))
        where
          only : t.total ≡ pos n → IsNegative t.total ⊎ HasBad lines → HasBad lines
          only e' (inl neg) = absurd (subst IsNegative e' neg)
          only e' (inr h) = h

  -- A block crashes the client exactly if its transfer has a negative total, or if with this block as
  -- many indices as the total have come and the parts file, with the line of this block, has a line with
  -- a negative index and a content that decodes.
  pub handle_block-panics_iff :
      (c : Client) (p : FileBlockPayload)
      → (handle_block join sha256 line_of read_line dir c p ≡ panics) ↔ (
          IsNegative (state_for join sha256 line_of read_line dir c p).total
          ⊎ (IsFull (mark (state_for join sha256 line_of read_line dir c p) p.index)
              × HasBad (
                  read_parts read_line (
                    split
                      (file_at (state_for join sha256 line_of read_line dir c p).parts_path c
                        ++ (line_of p ++ 10 ∷ []))
                      10))))
  unfolding handle_block store_block
  handle_block-panics_iff c p =
      let t = mark (state_for join sha256 line_of read_line dir c p) p.index in
      let stored = store_block join sha256 line_of read_line dir c p in
      let total = (mark-same (state_for join sha256 line_of read_line dir c p) p.index).0 in
      let path = (mark-same (state_for join sha256 line_of read_line dir c p) p.index).1 in
      let there : get t.parts_path stored.files ≡ some bytes =
        ap (λ q. get q stored.files) path
        ∙ get-put_self (state_for join sha256 line_of read_line dir c p).parts_path bytes c.files in
      let (to, from) = assemble_file-panics stored t p.id bytes there in
      elim (is_complete-cases t) [
        | inl (full, why) ↦
            let law : handle_block join sha256 line_of read_line dir c p
                ≡ assemble_file join sha256 line_of read_line dir stored t p.id =
              rw full refl in
            ((λ x. told total why (to (sym law ∙ x))), λ h. law ∙ from (known total h))
        | inr (short, never) ↦
            let law : handle_block join sha256 line_of read_line dir c p ≡ returns stored =
              rw short refl in
            ((λ x. let e = sym law ∙ x in cc), λ h. absurd (never (counts total h)))
      ]
    where
      bytes : Bytes
      bytes =
          file_at (state_for join sha256 line_of read_line dir c p).parts_path c
          ++ (line_of p ++ 10 ∷ [])

      before : TransferState
      before = state_for join sha256 line_of read_line dir c p

      after : TransferState
      after = mark (state_for join sha256 line_of read_line dir c p) p.index

      bad_line : Type 0
      bad_line = HasBad (read_parts read_line (split bytes 10))

      told :
          after.total ≡ before.total
          → IsNegative after.total ⊎ IsFull after
          → IsNegative after.total ⊎ bad_line
          → IsNegative before.total ⊎ (IsFull after × bad_line)
      told e why (inl neg) = inl (subst IsNegative e neg)
      told e (inl neg) (inr bad) = inl (subst IsNegative e neg)
      told e (inr full) (inr bad) = inr (full, bad)

      known :
          after.total ≡ before.total
          → IsNegative before.total ⊎ (IsFull after × bad_line)
          → IsNegative after.total ⊎ bad_line
      known e (inl neg) = inl (subst IsNegative (sym e) neg)
      known e (inr (full, bad)) = inr bad

      counts :
          after.total ≡ before.total
          → IsNegative before.total ⊎ (IsFull after × bad_line)
          → IsNegative after.total ⊎ IsFull after
      counts e (inl neg) = inl (subst IsNegative (sym e) neg)
      counts e (inr (full, bad)) = inr full

  -- A block of a new transfer crashes the client if its count is negative.
  pub handle_block-negative_count :
      (c : Client) (p : FileBlockPayload) (n : ℕ)
      → get p.id c.active ≡ none
      → p.count ≡ negsuc n
      → handle_block join sha256 line_of read_line dir c p ≡ panics
  handle_block-negative_count c p n fresh negative =
      (handle_block-panics_iff c p).1
        (inl (subst IsNegative (sym (new_total c p fresh ∙ negative)) tt))
