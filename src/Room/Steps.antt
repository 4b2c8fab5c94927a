-- ===== src/Room/Steps.antt =====
-- The small steps that the operations of a room are made of, and what an invariant has to do with
-- them: `Steps I C D Op` is the interface of an invariant `I` that the proofs about the commands use.
-- A call may crash only if `C` holds and hang only if `D` holds, and takes the steps that are the
-- operator's only if `Op` holds.
pub mod Talking
pub mod Moderating
pub mod Dispatch
use underground_node_network.Base.{
  ◌≡◌, ◌⊎◌, refl, sym, ap, ◌∙◌, List, Bool, true, Option, none, some, All, Option-cases, inl, inr,
}
use underground_node_network.Map.{Map, get, delete}
use underground_node_network.Text.{Text, text_key}
use underground_node_network.Room.{
  Message, ChatUi, Person, RoomServer, Handled, finished, crashed, deadlocked, ◌>>=◌, on_ui,
  on_ui_if, set_person, add_message_to_history,
}
use underground_node_network.Room.Commands.Moderate.{set_bans, set_lock}

-- Whatever a call that finishes returns has `P`.
abbrev pub Ends {ℓ} : Type 0 → Type 0 → {A : Type ℓ} → (A → Type 0) → Handled A → Type 0
Ends C D P (finished a) = P a
Ends C D P crashed = C
Ends C D P deadlocked = D

pub bind-Ends {ℓ κ} :
    (C D : Type 0) {A : Type ℓ} {B : Type κ} (P : A → Type 0) (Q : B → Type 0) (m : Handled A)
    (f : A → Handled B)
    → Ends C D P m
    → ((a : A) → P a → Ends C D Q (f a))
    → Ends C D Q (m >>= f)
bind-Ends C D P Q (finished a) f h k = k a h
bind-Ends C D P Q crashed f h k = h
bind-Ends C D P Q deadlocked f h k = h

pub weaken-Ends {ℓ} :
    (C D : Type 0) {A : Type ℓ} (P Q : A → Type 0) (m : Handled A)
    → Ends C D P m
    → ((a : A) → P a → Q a)
    → Ends C D Q m
weaken-Ends C D P Q (finished a) h k = k a h
weaken-Ends C D P Q crashed h k = h
weaken-Ends C D P Q deadlocked h k = h

-- `q` differs from `p` in what it sees and in its reason to quit at most.
abbrev pub SameStanding : Person → Person → Type 0
SameStanding p q =
    (q.username ≡ p.username)
    × (q.pub_key ≡ p.pub_key)
    × (q.bus ≡ p.bus)
    × (q.conn_closed ≡ p.conn_closed)
    × (q.chat_ui ≡ none → p.chat_ui ≡ none)

abbrev pub HasKey : Text × Person → Type 0
HasKey (id, p) = (key : Text) × (p.pub_key ≡ some key)

pub record Steps (I : RoomServer → Type 0) (C D Op : Type 0) : Type 0 where
  pub to_history :
      (k : Text) (m : Message) (s : RoomServer) → I s → I (add_message_to_history s k m)
  pub clear_history :
      (k : Text) (s : RoomServer) → I s → I (record s { histories = delete k s.histories })
  pub move :
      (id : Text) (p q : Person) (s : RoomServer)
      → get id s.people ≡ some p
      → SameStanding p q
      → I s
      → I (set_person id q s)
  pub no_screen :
      (id : Text) (p : Person) (s : RoomServer)
      → I s
      → get id s.people ≡ some p
      → p.chat_ui ≡ none
      → C
  pub keys : (s : RoomServer) → I s → C ⊎ All HasKey s.people
  pub no_bus :
      Op
      → (id : Text) (p : Person) (s : RoomServer) → I s
      → get id s.people ≡ some p
      → p.bus ≡ none
      → C
  pub send :
      Op
      → (id : Text) (p : Person) (sent : List (Map Text Text)) (s : RoomServer)
      → get id s.people ≡ some p
      → I s
      → I (set_person id (record p { bus = some sent }) s)
  pub shut :
      Op
      → (id : Text) (p : Person) (s : RoomServer) → get id s.people ≡ some p
      → I s
      → I (set_person id (record p { conn_closed = true }) s)
  pub ban : Op → (bans : Map Text Text) (s : RoomServer) → I s → I (set_bans bans s)
  pub change_lock : Op → (key : Text) (s : RoomServer) → I s → I (set_lock key s)

module _ {I : RoomServer → Type 0} {C D Op : Type 0} (steps : Steps I C D Op) where
  pub on_ui-Ends :
      (id : Text) (f : ChatUi → ChatUi) (s : RoomServer) → I s → Ends C D I (on_ui id f s)
  unfolding on_ui
  on_ui-Ends id f s h = elim (Option-cases (get id s.people)) [
    | inl gone ↦ rw (on_ui, gone) h
    | inr (p, known) ↦ elim (Option-cases p.chat_ui) [
      | inl blind ↦ rw (on_ui, known, blind) (steps.no_screen id p s h known blind)
      | inr (ui, seen) ↦
          let q : Person = record p { chat_ui = some (f ui) } in
          rw (on_ui, known, seen) (steps.move id p q s known (refl, refl, refl, refl, λ e. cc) h)
    ]
  ]

  pub on_ui_if-holds :
      (id : Text) (f : ChatUi → ChatUi) (s : RoomServer) → I s → I (on_ui_if id f s)
  unfolding on_ui_if
  on_ui_if-holds id f s h = elim (Option-cases (get id s.people)) [
    | inl gone ↦ rw (on_ui_if, gone) h
    | inr (p, known) ↦ elim (Option-cases p.chat_ui) [
      | inl blind ↦ rw (on_ui_if, known, blind) h
      | inr (ui, seen) ↦
          let q : Person = record p { chat_ui = some (f ui) } in
          rw (on_ui_if, known, seen) (steps.move id p q s known (refl, refl, refl, refl, λ e. cc) h)
    ]
  ]
