-- ===== src/Room/Authority.antt =====
-- What the commands of somebody who is not the operator leave as it is.
use underground_node_network.Base.{
  ◌≡◌, refl, ◌∙◌, subst, List, Bool, true, false, Option, none, some, Bool-cases, inl, inr, same,
}
use underground_node_network.Map.{Map, get, put, get-put}
use underground_node_network.Text.{Text, text_eq_iff, text_key}
use underground_node_network.Room.{
  Person, RoomServer, finished, set_person, is_operator, add_message_to_history,
}
use underground_node_network.Room.Commands.{handle_internal_command}
use underground_node_network.Room.Steps.{Ends, SameStanding, Steps}
use underground_node_network.Room.Steps.Dispatch.{handle_internal_command-Ends}

-- Name, key, bus and connection of a person, if the person is there.
abbrev pub standing :
    Option Person → Option (Text × Option Text × Option (List (Map Text Text)) × Bool)
standing none = none
standing (some p) = some (p.username, p.pub_key, p.bus, p.conn_closed)

-- `t` differs from `s` in screens, reasons to quit and histories at most.
abbrev pub Follows : RoomServer → RoomServer → Type 0
Follows s t =
    (t.operator_pub_key ≡ s.operator_pub_key)
    × (t.banned_hashes ≡ s.banned_hashes)
    × (t.room_lock_key ≡ s.room_lock_key)
    × (t.authorized_keys ≡ s.authorized_keys)
    × (t.door_manager ≡ s.door_manager)
    × ((j : Text) → standing (get j t.people) ≡ standing (get j s.people))

set_person-Follows :
    (s : RoomServer) (id : Text) (p q : Person) (t : RoomServer)
    → get id t.people ≡ some p
    → SameStanding p q
    → Follows s t
    → Follows s (set_person id q t)
unfolding set_person
set_person-Follows s id p q t known (name, key, bus, conn, _) (o, b, l, a, d, all) =
    (o, b, l, a, d, λ j. after j ∙ all j)
  where
    after : (j : Text) → standing (get j (put id q t.people)) ≡ standing (get j t.people)
    after j = elim (Bool-cases (same id j)) [
      | inl eq ↦
          let here : get j t.people ≡ some p =
            subst (λ i. get i t.people ≡ some p) ((text_eq_iff id j).0 eq) known in
          rw (get-put, eq, here, name, key, bus, conn) refl
      | inr ne ↦ rw (get-put, ne) refl
    ]

pub Follows-Steps : (s : RoomServer) → Steps (Follows s) Unit Unit ⊥
unfolding add_message_to_history
Follows-Steps s = record {
  to_history = λ k m t h. h;
  clear_history = λ k t h. h;
  move = set_person-Follows s;
  no_screen = λ id p t h known e. tt;
  keys = λ t h. inl tt;
  no_bus = λ never. absurd never;
  send = λ never. absurd never;
  shut = λ never. absurd never;
  ban = λ never. absurd never;
  change_lock = λ never. absurd never;
}

-- Whatever somebody types who is not the operator, if the command is done, then the operator, the bans,
-- the lock, the keys that are let in and the doors are as before, nobody has come or gone, and nobody's
-- name, key, connection or popups have changed.
pub handle_internal_command-Follows :
    (digest : Text → Text) (id : Text) (p : Person) (cmd : Text) (s t : RoomServer) (b : Bool)
    → is_operator p.pub_key s ≡ false
    → handle_internal_command digest id p cmd s ≡ finished (t, b)
    → Follows s t
unfolding is_operator
handle_internal_command-Follows digest id p cmd s t b other e =
    subst (Ends Unit Unit (λ r. Follows s r.0)) e (
      handle_internal_command-Ends (Follows-Steps s) digest id p not_operator cmd s (λ _. (tt, tt))
        (refl, refl, refl, refl, refl, λ j. refl))
  where
    not_operator : (u : RoomServer) → Follows s u → is_operator p.pub_key u ≡ true → ⊥
    not_operator u (o, _, _, _, _, _) is_op = let never = rw o at is_op in cc
