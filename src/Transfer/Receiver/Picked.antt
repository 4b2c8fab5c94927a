-- ===== src/Transfer/Receiver/Picked.antt =====
-- Blocks that are picked out of a list, and the last block of a list.
use underground_node_network.Base.{
  zero, suc, subst, some_injective, ℕ, ◌≡◌, refl, [], ◌∷◌, ◌++◌, List, Option, none, some, Bytes,
  All, Outcome, returns, ◌>>=◌, panics, bind-returns, returns_injective, get_elem?,
}
use underground_node_network.Text.{Text, text_key}
use underground_node_network.Transfer.Payload.{FileBlockPayload}
use underground_node_network.Transfer.Receiver.{Client, handle_block, handle_blocks}

-- The elements of `xs` at the indices `ks`.
abbrev pub pick {ℓ} : {A : Type ℓ} → List A → List ℕ → List A
pick xs [] = []
pick xs (k ∷ ks) = elim (get_elem? xs k) [ none ↦ pick xs ks | some x ↦ x ∷ pick xs ks ]

All-get_elem? :
    {A : Type 0} (P : A → Type 0) (xs : List A) (k : ℕ) (x : A)
    → All P xs
    → get_elem? xs k ≡ some x
    → P x
All-get_elem? P [] k x h e = absurd (none_some e)
  where
    none_some : none ≡ some x → ⊥
    none_some e' = cc
All-get_elem? P (y ∷ xs) zero x (h, hs) e = subst P (some_injective e) h
All-get_elem? P (y ∷ xs) (suc k) x (h, hs) e = All-get_elem? P xs k x hs e

pub All-pick :
    {A : Type 0} (P : A → Type 0) (xs : List A) → All P xs → (ks : List ℕ) → All P (pick xs ks)
All-pick {A} P xs h [] = tt
All-pick {A} P xs h (k ∷ ks) = go (get_elem? xs k) (All-get_elem? P xs k) (All-pick P xs h ks)
  where
    go :
        (o : Option A)
        → ((x : A) → All P xs → o ≡ some x → P x)
        → All P (pick xs ks)
        → All P (elim o [ none ↦ pick xs ks | some x ↦ x ∷ pick xs ks ])
    go none each rest = rest
    go (some x) each rest = (each x h refl, rest)

pub handle_blocks-append :
    (join : Text → Text → Text) (sha256 : Bytes → Text) (line_of : FileBlockPayload → Bytes)
    (read_line : Bytes → Option FileBlockPayload) (dir : Text) (c : Client)
    (ps : List FileBlockPayload) (p : FileBlockPayload) (d : Client)
    → handle_blocks join sha256 line_of read_line dir c ps ≡ returns d
    → handle_blocks join sha256 line_of read_line dir c (ps ++ p ∷ [])
      ≡ handle_block join sha256 line_of read_line dir d p
unfolding handle_blocks
handle_blocks-append join sha256 line_of read_line dir c [] p d e =
    let same_client : c ≡ d = returns_injective e in
    rw same_client (bind-returns (handle_block join sha256 line_of read_line dir d p))
handle_blocks-append join sha256 line_of read_line dir c (q ∷ ps) p d e =
    go (handle_block join sha256 line_of read_line dir c q)
      (λ c'. handle_blocks-append join sha256 line_of read_line dir c' ps p d) e
  where
    go :
        (m : Outcome Client)
        → ((c' : Client)
            → handle_blocks join sha256 line_of read_line dir c' ps ≡ returns d
            → handle_blocks join sha256 line_of read_line dir c' (ps ++ p ∷ [])
              ≡ handle_block join sha256 line_of read_line dir d p)
        → (m >>= λ c'. handle_blocks join sha256 line_of read_line dir c' ps) ≡ returns d
        → (m >>= λ c'. handle_blocks join sha256 line_of read_line dir c' (ps ++ p ∷ []))
          ≡ handle_block join sha256 line_of read_line dir d p
    go (returns c') ih e' = ih c' e'
    go panics ih e' = cc
