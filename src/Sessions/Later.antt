-- ===== src/Sessions/Later.antt =====
-- The requests behind the first one for a terminal.
use underground_node_network.Base.{
  ℕ, ◌≡◌, ◌⊎◌, ◌↔◌, refl, sym, subst, Option, some, none, [], ◌∷◌, List, true, false, Bytes,
  Outcome, returns, panics, ◌>>=◌, length, ltb, Bool-cases, inl, inr, arith,
}
use underground_node_network.Text.{text_eq, runes}
use underground_node_network.Terminal.{parse_pty_request, parse_window_change}
use underground_node_network.Terminal.Overflow.{word_at_returns}
use underground_node_network.Sessions.{Request, size_of, resized, later_requests, terminal_session}

-- A terminal whose parser panics.
abbrev pub IsBadTerminal : Request → Type 0
IsBadTerminal r = (text_eq r.kind (runes "pty-req") ≡ true) × (parse_pty_request r.payload ≡ panics)

abbrev pub LaterIsBad : List Request → Type 0
LaterIsBad [] = ⊥
LaterIsBad (r ∷ rs) = IsBadTerminal r ⊎ LaterIsBad rs

-- A call that panics before it goes on, or where whatever it goes on with does.
chain-panics :
    {A B : Type 0} (L : Type 0) (m : Outcome A) (f : A → Outcome B)
    → ((a : A) → (f a ≡ panics) ↔ L)
    → ((m >>= f) ≡ panics) ↔ ((m ≡ panics) ⊎ L)
chain-panics L (returns a) f k = ((λ e. inr ((k a).0 e)), back)
  where
    back : (returns a ≡ panics) ⊎ L → f a ≡ panics
    back (inl e) = cc
    back (inr l) = (k a).1 l
chain-panics L panics f k = ((λ e. inl refl), λ h. refl)

parse_window_change-returns :
    (p : Bytes) → (size : Option (ℕ × ℕ)) × (parse_window_change p ≡ returns size)
unfolding parse_window_change
parse_window_change-returns p = elim (Bool-cases (ltb (length p) 8)) [
  | inl short ↦ (none, rw (parse_window_change, short) refl)
  | inr long ↦
      let (w, ew) = word_at_returns p 0 4 refl (ground arith) in
      let (h, eh) = word_at_returns p 4 8 refl (ground arith) in
      (some (w, h), rw (parse_window_change, long, ew, eh) refl)
]

later_requests-panics :
    (rs : List Request) (size : ℕ × ℕ) → (later_requests rs size ≡ panics) ↔ LaterIsBad rs
unfolding later_requests
later_requests-panics [] size = ((λ e. cc), λ never. absurd never)
later_requests-panics (r ∷ rs) size = elim (Bool-cases (text_eq r.kind (runes "pty-req"))) [
  | inl pty ↦
      let (to, from) =
        chain-panics (LaterIsBad rs) (parse_pty_request r.payload)
          (λ new. later_requests rs (resized size new))
          (λ new. later_requests-panics rs (resized size new)) in
      let law : later_requests (r ∷ rs) size
          ≡ (parse_pty_request r.payload >>= λ new. later_requests rs (resized size new)) =
        rw (later_requests, pty) refl in
      subst (λ m. (m ≡ panics) ↔ LaterIsBad (r ∷ rs)) (sym law)
        ((λ e. there pty (to e)), λ h. from (back h))
  | inr no_pty ↦ elim (Bool-cases (text_eq r.kind (runes "window-change"))) [
    | inl change ↦
        let (new, e) = parse_window_change-returns r.payload in
        let (to, from) = later_requests-panics rs (resized size new) in
        let law : later_requests (r ∷ rs) size ≡ later_requests rs (resized size new) =
          rw (later_requests, no_pty, change, e) refl in
        subst (λ m. (m ≡ panics) ↔ LaterIsBad (r ∷ rs)) (sym law)
          ((λ x. inr (to x)), λ h. from (passed no_pty h))
    | inr other ↦
        let (to, from) = later_requests-panics rs size in
        let law : later_requests (r ∷ rs) size ≡ later_requests rs size =
          rw (later_requests, no_pty, other) refl in
        subst (λ m. (m ≡ panics) ↔ LaterIsBad (r ∷ rs)) (sym law)
          ((λ x. inr (to x)), λ h. from (passed no_pty h))
  ]
]
  where
    there :
        text_eq r.kind (runes "pty-req") ≡ true
        → (parse_pty_request r.payload ≡ panics) ⊎ LaterIsBad rs
        → LaterIsBad (r ∷ rs)
    there pty (inl e) = inl (pty, e)
    there pty (inr l) = inr l

    back : LaterIsBad (r ∷ rs) → (parse_pty_request r.payload ≡ panics) ⊎ LaterIsBad rs
    back (inl (_, e)) = inl e
    back (inr l) = inr l

    passed : text_eq r.kind (runes "pty-req") ≡ false → LaterIsBad (r ∷ rs) → LaterIsBad rs
    passed no_pty (inl (pty, _)) = cc
    passed no_pty (inr l) = l

pub terminal_session-panics :
    (r : Request) (rs : List Request)
    → (terminal_session r rs ≡ panics) ↔ ((parse_pty_request r.payload ≡ panics) ⊎ LaterIsBad rs)
unfolding terminal_session
terminal_session-panics r rs =
    chain-panics (LaterIsBad rs) (parse_pty_request r.payload)
      (λ size. later_requests rs (size_of size)) (λ size. later_requests-panics rs (size_of size))
