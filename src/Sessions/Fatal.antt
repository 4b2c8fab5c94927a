-- ===== src/Sessions/Fatal.antt =====
-- The requests that take a server down.
use underground_node_network.Base.{
  ℕ, ◌<◌, ◌≡◌, ◌⊎◌, ◌↔◌, refl, sym, ◌∙◌, subst, [], ◌∷◌, List, Bool, true, false, ◌||◌, ◌&&◌,
  Outcome, returns, panics, ◌>>=◌, length, leb, slice, Bool-cases, inl, inr, arith,
}
use underground_node_network.Text.{Text, text_eq, text_eq_iff, runes}
use underground_node_network.Terminal.{parse_pty_request}
use underground_node_network.Sessions.{
  Request, RoomSession, subsystem_name, terminal_session, room_subsystem_of, room_session,
  entry_subsystem_of, entry_session, closed_session, interaction, person_session,
}
use underground_node_network.Sessions.Later.{LaterIsBad, terminal_session-panics}

-- With the requests behind it: a subsystem whose name is not there, a terminal whose parser panics, or
-- a terminal with another one behind it whose parser panics.
abbrev pub IsFatal : Request → List Request → Type 0
IsFatal r rs =
    ((text_eq r.kind (runes "subsystem") ≡ true) × (length r.payload < 4))
    ⊎ ((text_eq r.kind (runes "pty-req") ≡ true)
        × ((parse_pty_request r.payload ≡ panics) ⊎ LaterIsBad rs))

-- The first request of a kind that counts is fatal.
abbrev pub FirstIsFatal : (Text → Bool) → List Request → Type 0
FirstIsFatal counts [] = ⊥
FirstIsFatal counts (r ∷ rs) =
    ((counts r.kind ≡ true) × IsFatal r rs) ⊎ ((counts r.kind ≡ false) × FirstIsFatal counts rs)

abbrev pub counts_in_room : Text → Bool
counts_in_room kind =
    text_eq kind (runes "exec")
    || text_eq kind (runes "pty-req")
    || text_eq kind (runes "subsystem")

abbrev pub counts_at_entry : Text → Bool
counts_at_entry kind = text_eq kind (runes "subsystem") || text_eq kind (runes "pty-req")

bind-panics :
    {A B : Type 0} (m : Outcome A) (f : A → B)
    → ((m >>= λ a. returns (f a)) ≡ panics) ↔ (m ≡ panics)
bind-panics (returns a) f = ((λ e. cc), λ e. cc)
bind-panics panics f = ((λ e. refl), λ e. refl)

subsystem_name-panics : (r : Request) → (subsystem_name r ≡ panics) ↔ (length r.payload < 4)
unfolding subsystem_name slice
subsystem_name-panics r =
    elim (Bool-cases (leb 4 (length r.payload) && leb (length r.payload) (length r.payload))) [
      | inl fits ↦ rw (subsystem_name, slice, fits) ((λ e. cc), λ lt. ground arith)
      | inr short ↦ rw (subsystem_name, slice, short) ((λ e. ground arith), λ lt. refl)
    ]

both : (k a b : Text) → text_eq k a ≡ true → text_eq k b ≡ true → a ≡ b
both k a b ea eb = sym ((text_eq_iff k a).0 ea) ∙ (text_eq_iff k b).0 eb

exec_subsystem : runes "exec" ≡ runes "subsystem" → ⊥
exec_subsystem e = ground arith

exec_pty : runes "exec" ≡ runes "pty-req" → ⊥
exec_pty e = ground arith

pty_subsystem : runes "pty-req" ≡ runes "subsystem" → ⊥
pty_subsystem e = ground arith

module _ {A : Type 0} (counts : Text → Bool) (r : Request) (rs : List Request) (m : Outcome A) where
  -- A request that counts decides.
  decided :
      counts r.kind ≡ true
      → (m ≡ panics) ↔ IsFatal r rs
      → (m ≡ panics) ↔ FirstIsFatal counts (r ∷ rs)
  decided yes_it (there, back) = ((λ e. inl (yes_it, there e)), only)
    where
      only : FirstIsFatal counts (r ∷ rs) → m ≡ panics
      only (inl (_, fatal)) = back fatal
      only (inr (no_it, _)) = cc

  -- Any other leaves it to those behind it.
  passed_on :
      counts r.kind ≡ false
      → (m ≡ panics) ↔ FirstIsFatal counts rs
      → (m ≡ panics) ↔ FirstIsFatal counts (r ∷ rs)
  passed_on no_it (there, back) = ((λ e. inr (no_it, there e)), only)
    where
      only : FirstIsFatal counts (r ∷ rs) → m ≡ panics
      only (inl (yes_it, _)) = cc
      only (inr (_, later)) = back later

module _ {A : Type 0} (r : Request) (rs : List Request) where
  name-IsFatal :
      (f : Text → A)
      → text_eq r.kind (runes "subsystem") ≡ true
      → ((subsystem_name r >>= λ name. returns (f name)) ≡ panics) ↔ IsFatal r rs
  name-IsFatal f sub =
      let (to_name, from_name) = subsystem_name-panics r in
      let (to_bind, from_bind) = bind-panics (subsystem_name r) f in
      ((λ e. inl (sub, to_name (to_bind e))), λ h. from_bind (from_name (short h)))
    where
      short : IsFatal r rs → length r.payload < 4
      short (inl (_, lt)) = lt
      short (inr (pty, _)) = absurd (pty_subsystem (both r.kind _ _ pty sub))

  size-IsFatal :
      (f : ℕ × ℕ → A)
      → text_eq r.kind (runes "pty-req") ≡ true
      → ((terminal_session r rs >>= λ size. returns (f size)) ≡ panics) ↔ IsFatal r rs
  size-IsFatal f pty =
      let (to_bind, from_bind) = bind-panics (terminal_session r rs) f in
      let (to, from) = terminal_session-panics r rs in
      ((λ e. inr (pty, to (to_bind e))), λ h. from_bind (from (fails h)))
    where
      fails : IsFatal r rs → (parse_pty_request r.payload ≡ panics) ⊎ LaterIsBad rs
      fails (inl (sub, _)) = absurd (pty_subsystem (both r.kind _ _ pty sub))
      fails (inr (_, e)) = e

exec-IsFatal :
    (r : Request) (rs : List Request) (s : RoomSession)
    → text_eq r.kind (runes "exec") ≡ true
    → (returns s ≡ panics) ↔ IsFatal r rs
exec-IsFatal r rs s exec = ((λ e. cc), λ h. absurd (never h))
  where
    never : IsFatal r rs → ⊥
    never (inl (sub, _)) = exec_subsystem (both r.kind _ _ exec sub)
    never (inr (pty, _)) = exec_pty (both r.kind _ _ exec pty)

room_session-panics_iff :
    (rs : List Request) → (room_session rs ≡ panics) ↔ FirstIsFatal counts_in_room rs
unfolding room_session
room_session-panics_iff [] = ((λ e. cc), λ never. absurd never)
room_session-panics_iff (r ∷ rs) =
    let ih = room_session-panics_iff rs in
    let d = decided counts_in_room r rs in
    elim (Bool-cases (text_eq r.kind (runes "exec"))) [
      | inl exec ↦
          let law : room_session (r ∷ rs) ≡ returns closed_session = rw (room_session, exec) refl in
          subst (λ m. (m ≡ panics) ↔ FirstIsFatal counts_in_room (r ∷ rs)) (sym law)
            (d _ (rw exec refl) (exec-IsFatal r rs closed_session exec))
      | inr no_exec ↦ elim (Bool-cases (text_eq r.kind (runes "pty-req"))) [
        | inl pty ↦
            let law : room_session (r ∷ rs)
                ≡ (terminal_session r rs >>= λ size. returns (interaction size)) =
              rw (room_session, no_exec, pty) refl in
            subst (λ m. (m ≡ panics) ↔ FirstIsFatal counts_in_room (r ∷ rs)) (sym law)
              (d _ (rw (no_exec, pty) refl) (size-IsFatal r rs interaction pty))
        | inr no_pty ↦ elim (Bool-cases (text_eq r.kind (runes "subsystem"))) [
          | inl sub ↦
              let law : room_session (r ∷ rs)
                  ≡ (subsystem_name r >>= λ name. returns (room_subsystem_of name)) =
                rw (room_session, no_exec, no_pty, sub) refl in
              subst (λ m. (m ≡ panics) ↔ FirstIsFatal counts_in_room (r ∷ rs)) (sym law)
                (d _ (rw (no_exec, no_pty, sub) refl) (name-IsFatal r rs room_subsystem_of sub))
          | inr no_sub ↦
              let law : room_session (r ∷ rs) ≡ room_session rs =
                rw (room_session, no_exec, no_pty, no_sub) refl in
              subst (λ m. (m ≡ panics) ↔ FirstIsFatal counts_in_room (r ∷ rs)) (sym law)
                (passed_on counts_in_room r rs _ (rw (no_exec, no_pty, no_sub) refl) ih)
        ]
      ]
    ]

entry_session-panics_iff :
    (rs : List Request) → (entry_session rs ≡ panics) ↔ FirstIsFatal counts_at_entry rs
unfolding entry_session
entry_session-panics_iff [] = ((λ e. cc), λ never. absurd never)
entry_session-panics_iff (r ∷ rs) =
    let ih = entry_session-panics_iff rs in
    let d = decided counts_at_entry r rs in
    elim (Bool-cases (text_eq r.kind (runes "subsystem"))) [
      | inl sub ↦
          let law : entry_session (r ∷ rs)
              ≡ (subsystem_name r >>= λ name. returns (entry_subsystem_of name)) =
            rw (entry_session, sub) refl in
          subst (λ m. (m ≡ panics) ↔ FirstIsFatal counts_at_entry (r ∷ rs)) (sym law)
            (d _ (rw sub refl) (name-IsFatal r rs entry_subsystem_of sub))
      | inr no_sub ↦ elim (Bool-cases (text_eq r.kind (runes "pty-req"))) [
        | inl pty ↦
            let law : entry_session (r ∷ rs)
                ≡ (terminal_session r rs >>= λ size. returns (person_session size)) =
              rw (entry_session, no_sub, pty) refl in
            subst (λ m. (m ≡ panics) ↔ FirstIsFatal counts_at_entry (r ∷ rs)) (sym law)
              (d _ (rw (no_sub, pty) refl) (size-IsFatal r rs person_session pty))
        | inr no_pty ↦
            let law : entry_session (r ∷ rs) ≡ entry_session rs =
              rw (entry_session, no_sub, no_pty) refl in
            subst (λ m. (m ≡ panics) ↔ FirstIsFatal counts_at_entry (r ∷ rs)) (sym law)
              (passed_on counts_at_entry r rs _ (rw (no_sub, no_pty) refl) ih)
      ]
    ]

-- The requests of a session take the server down exactly if the first of them that counts is a
-- subsystem whose payload is shorter than four bytes, or asks for a terminal and its own payload, or
-- that of a later request for a terminal, makes the parser panic. What counts is exec, pty-req and
-- subsystem in a room, and subsystem and pty-req at the entry point.
pub sessions-panic_iff :
    (rs : List Request)
    → ((room_session rs ≡ panics) ↔ FirstIsFatal counts_in_room rs)
      × ((entry_session rs ≡ panics) ↔ FirstIsFatal counts_at_entry rs)
sessions-panic_iff rs = (room_session-panics_iff rs, entry_session-panics_iff rs)
