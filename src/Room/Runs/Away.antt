-- ===== src/Room/Runs/Away.antt =====
-- A room whose operator is away.
use underground_node_network.Base.{
  ◌≡◌, ◌≢◌, refl, sym, ◌∙◌, subst, List, true, false, Option, none, some, All, Bool-cases, inl, inr,
  some_injective,
}
use underground_node_network.Map.{Map, get}
use underground_node_network.Map.Entries.{All-get, All-put, All-delete}
use underground_node_network.Text.{Text, text_eq_iff, text_key}
use underground_node_network.Room.{
  Person, RoomServer, finished, add_message_to_history, add_command_to_history, is_last, history_of,
  set_person, same_key, is_operator,
}
use underground_node_network.Room.Connections.{elect, authorize_key, new_person}
use underground_node_network.Room.Steps.{Ends}
use underground_node_network.Room.Runs.{RoomEvent, run}
use underground_node_network.Room.Runs.Arrivals.{Invariant, HasKey, Comes}
use underground_node_network.Room.Runs.Kept.{run-Ends}

pub is_operator-key :
    (key op : Text) (s : RoomServer)
    → s.operator_pub_key ≡ some op
    → is_operator (some key) s ≡ true
    → key ≡ op
unfolding is_operator same_key
is_operator-key key op s e h =
    (text_eq_iff key op).0 (subst (λ o. same_key (some key) o ≡ true) e h)

is_operator-none : (s : RoomServer) → is_operator none s ≡ false
unfolding is_operator same_key
is_operator-none s = refl

-- Nobody there has the key.
abbrev pub Lacking : Text → Text × Person → Type 0
Lacking op (id, p) = p.pub_key ≢ some op

-- The operator is away, and the bans and the lock are as given.
abbrev pub IsAway : Text → Map Text Text → Text → RoomServer → Type 0
IsAway op bans lock s =
    (s.operator_pub_key ≡ some op)
    × (s.banned_hashes ≡ bans)
    × (s.room_lock_key ≡ lock)
    × All (Lacking op) s.people

elect-same :
    (key op : Text) (s : RoomServer) → s.operator_pub_key ≡ some op → elect (some key) s ≡ s
unfolding elect
elect-same key op s e = go s.operator_pub_key e
  where
    go :
        (o : Option Text)
        → o ≡ some op
        → (elim o as (λ _. RoomServer) [
          | some k ↦ s
          | none ↦ record s { operator_pub_key = some key }
        ])
          ≡ s
    go none no_one = cc
    go (some k) there = refl

typed-holds :
    (P : RoomServer → Type 0) (k cmd : Text) (s : RoomServer)
    → P s
    → ((h : Map Text (List Text)) → P (record s { cmd_histories = h }))
    → P (add_command_to_history s k cmd)
unfolding add_command_to_history
typed-holds P k cmd s old after = elim (Bool-cases (is_last cmd (history_of k s.cmd_histories))) [
  | inl eq ↦ rw (add_command_to_history, eq) old
  | inr ne ↦ rw (add_command_to_history, ne) (after _)
]

module _ (op : Text) (bans : Map Text Text) (lock : Text) where
  set_person-IsAway :
      (id : Text) (p q : Person) (s t : RoomServer)
      → get id s.people ≡ some p
      → q.pub_key ≡ p.pub_key
      → IsAway op bans lock s
      → IsAway op bans lock t
      → IsAway op bans lock (set_person id q t)
  unfolding set_person
  set_person-IsAway id p q s t known e (_, _, _, all) (o, b, l, all') =
      let absent = All-get (Lacking op) id s.people p all known in
      (o, b, l, All-put (Lacking op) id q t.people (λ is_op. absent (sym e ∙ is_op)) all')

  not_operator :
      (key : Option Text) (t : RoomServer)
      → HasKey (λ k. k ≢ op) key
      → IsAway op bans lock t
      → is_operator key t ≡ true
      → ⊥
  not_operator none t k h e = let never = is_operator-none t in cc
  not_operator (some key) t k (o, _, _, _) e = k (is_operator-key key op t o e)

  IsAway-Invariant : Invariant (IsAway op bans lock) ⊥ (λ key. key ≢ op)
  unfolding set_person add_message_to_history authorize_key
  IsAway-Invariant = record {
    steps = record {
      to_history = λ k m s h. h;
      clear_history = λ k s h. h;
      move = λ id p q s known same_one h. set_person-IsAway id p q s s known same_one.1 h h;
      no_screen = λ id p s h known e. tt;
      keys = λ s h. inl tt;
      no_bus = λ op id p s h known e. tt;
      send = λ never. absurd never;
      shut = λ never. absurd never;
      ban = λ never. absurd never;
      change_lock = λ never. absurd never;
    };
    op_of = not_operator;
    arrive = λ id name key s k (o, b, l, all). (
      o,
      b,
      l,
      All-put (Lacking op) id (new_person name key) s.people (λ e. k (some_injective e)) all,
    );
    elected = λ key s k h. subst (IsAway op bans lock) (sym (elect-same key op s h.0)) h;
    depart = λ id s (o, b, l, all). (o, b, l, All-delete (Lacking op) id s.people all);
    attach = set_person-IsAway;
    authorize = λ key name s h. h;
    typed = λ k cmd s h. typed-holds (IsAway op bans lock) k cmd s h (λ _. h);
  }

-- As long as the operator's key is shown by nobody who is there, nobody who comes and nobody whose
-- screen still hands in a line, whatever happens leaves the bans, the lock of the room and its operator
-- as they are.
pub run-IsAway :
    (digest : Text → Text) (op : Text) (es : List RoomEvent) (s t : RoomServer)
    → s.operator_pub_key ≡ some op
    → All (Lacking op) s.people
    → All (Comes (λ key. key ≢ op)) es
    → run digest es s ≡ finished t
    → (t.operator_pub_key ≡ some op)
      × (t.banned_hashes ≡ s.banned_hashes)
      × (t.room_lock_key ≡ s.room_lock_key)
      × All (Lacking op) t.people
run-IsAway digest op es s t o all comes e =
    subst (Ends Unit Unit (IsAway op s.banned_hashes s.room_lock_key)) e (
      run-Ends (IsAway-Invariant op s.banned_hashes s.room_lock_key) digest es s comes
        (o, refl, refl, all))
