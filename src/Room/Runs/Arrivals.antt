-- ===== src/Room/Runs/Arrivals.antt =====
-- The invariants of a room are kept by who comes and who leaves. `Invariant I Op Key` is what an
-- invariant of all runs fills, in which those who come have keys with `Key`, and only persons for whom
-- `Op` holds take the operator's steps.
use underground_node_network.Base.{
  ℕ, ◌≡◌, [], ◌∷◌, refl, List, true, Option, none, some, Option-cases, Bool-cases, inl, inr,
}
use underground_node_network.Map.{Map, get, delete}
use underground_node_network.Text.{Text, text_key, runes}
use underground_node_network.Room.{
  Person, RoomServer, msg_system, add_command_to_history, set_person, send_osc, same_key,
  is_operator, get_pub_key_hash,
}
use underground_node_network.Room.Connections.{
  authorize_key, ban_reason, update_people_list, update_people_lists, update_all_people, elect,
  mapped_name, warn_old, new_person, enter, handle_connection, leave,
}
use underground_node_network.Room.Runs.{RoomEvent, connects, sends, commands, state_behind}
use underground_node_network.Room.Steps.{Ends, bind-Ends, Steps, on_ui_if-holds}
use underground_node_network.Room.Steps.Talking.{broadcast_with_history-holds}

-- Whoever shows a key shows one with `Key`.
abbrev pub HasKey : (Text → Type 0) → Option Text → Type 0
HasKey Key none = Unit
HasKey Key (some key) = Key key

pub record Invariant (I : RoomServer → Type 0) (Op : Type 0) (Key : Text → Type 0) : Type 0 where
  pub steps : Steps I Unit Unit Op
  pub op_of :
      (key : Option Text) (t : RoomServer) → HasKey Key key → I t → is_operator key t ≡ true → Op
  pub arrive :
      (id name key : Text) (s : RoomServer)
      → Key key
      → I s
      → I (set_person id (new_person name key) s)
  pub elected : (key : Text) (s : RoomServer) → Key key → I s → I (elect (some key) s)
  pub depart : (id : Text) (s : RoomServer) → I s → I (record s { people = delete id s.people })
  pub attach :
      (id : Text) (p q : Person) (s t : RoomServer)
      → get id s.people ≡ some p
      → q.pub_key ≡ p.pub_key
      → I s
      → I t
      → I (set_person id q t)
  pub authorize : (key name : Text) (s : RoomServer) → I s → I (authorize_key key name s)
  pub typed : (k cmd : Text) (s : RoomServer) → I s → I (add_command_to_history s k cmd)

-- The keys of those who connect, and of those whose screens send a line, have `Key`.
abbrev pub Comes : (Text → Type 0) → RoomEvent → Type 0
Comes Key (sends p msg) = HasKey Key p.pub_key
Comes Key (commands id p cmd) = HasKey Key p.pub_key
Comes Key (connects user (some key) now) = Key key
Comes Key _ = Unit

module _ {I : RoomServer → Type 0} {Op : Type 0} {Key : Text → Type 0} (inv : Invariant I Op Key)
    (digest : Text → Text) where
  update_people_lists-holds :
      (people : List (Text × Person)) (s : RoomServer) → I s → I (update_people_lists people s)
  unfolding update_people_lists update_people_list
  update_people_lists-holds [] s h = h
  update_people_lists-holds ((id, p) ∷ people) s h =
      update_people_lists-holds people _ (on_ui_if-holds inv.steps id _ s h)

  update_all_people-holds : (s : RoomServer) → I s → I (update_all_people s)
  unfolding update_all_people
  update_all_people-holds s h = update_people_lists-holds s.people s h

  popup-Ends :
      (id action : Text) (params : Map Text Text) (s : RoomServer)
      → I s
      → Ends Unit Unit I (send_osc id action params s)
  unfolding send_osc
  popup-Ends id action params s h = elim (Option-cases (get id s.people)) [
    | inl gone ↦ rw (send_osc, gone) h
    | inr (p, known) ↦ elim (Option-cases p.bus) [
      | inl no_bus ↦ rw (send_osc, known, no_bus) tt
      | inr (sent, bus) ↦ rw (send_osc, known, bus) (inv.attach id p _ s s known refl h h)
    ]
  ]

  warn_old-Ends :
      (key : Text) (people : List (Text × Person)) (s : RoomServer)
      → I s
      → Ends Unit Unit I (warn_old key people s)
  unfolding warn_old
  warn_old-Ends key [] s h = h
  warn_old-Ends key ((id, old) ∷ people) s h = elim (Bool-cases (same_key old.pub_key (some key))) [
    | inl eq ↦
        rw (warn_old, eq)
          (bind-Ends Unit Unit I I (send_osc id (runes "popup") _ s) _
            (popup-Ends id (runes "popup") _ s h) (warn_old-Ends key people))
    | inr ne ↦ rw (warn_old, ne) (warn_old-Ends key people s h)
  ]

  enter-Ends :
      (user key : Text) (now : ℕ) (s : RoomServer)
      → Key key
      → I s
      → Ends Unit Unit (λ c. I (state_behind c)) (enter user (some key) now s)
  unfolding enter state_behind
  enter-Ends user key now s k h =
      let t = elect (some key) s in
      bind-Ends Unit Unit I (λ c. I (state_behind c)) (warn_old key t.people t) _
        (warn_old-Ends key t.people t (inv.elected key s k h))
        (λ u hu. update_all_people-holds _ (inv.arrive _ (mapped_name user key t) key u k hu))

  pub handle_connection-Ends :
      (user : Text) (key : Option Text) (now : ℕ) (s : RoomServer)
      → Comes Key (connects user key now)
      → I s
      → Ends Unit Unit (λ c. I (state_behind c)) (handle_connection digest user key now s)
  unfolding handle_connection state_behind enter
  handle_connection-Ends user key now s k h =
      elim (Option-cases (ban_reason (get_pub_key_hash digest key) s.banned_hashes)) [
        | inl fine ↦ rw (handle_connection, fine) (coming key k)
        | inr (reason, banned) ↦ rw (handle_connection, banned) h
      ]
    where
      coming :
          (o : Option Text)
          → Comes Key (connects user o now)
          → Ends Unit Unit (λ c. I (state_behind c)) (enter user o now s)
      coming none _ = tt
      coming (some k') hk = enter-Ends user k' now s hk h

  pub leave-holds : (id : Text) (s : RoomServer) → I s → I (leave digest id s)
  unfolding leave
  leave-holds id s h = elim (Option-cases (get id s.people)) [
    | inl gone ↦ rw (leave, gone) h
    | inr (p, known) ↦
        rw (leave, known)
          (update_all_people-holds _ (
            broadcast_with_history-holds inv.steps digest p.pub_key _ msg_system _
              (inv.depart id s h)))
  ]
