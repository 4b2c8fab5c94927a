-- ===== src/Tests/Entrypoint.antt =====
-- Runs of the theorems on the entry point.
use underground_node_network.Base.{
  ◌≡◌, ◌≢◌, refl, [], ◌∷◌, ◌++◌, List, true, Option, none, some, arith, returns, panics,
  if◌then◌else◌, Bool-cases, inl, inr, ap, sym, ◌∙◌, subst, some_injective,
}
use underground_node_network.Base.Int.{pos}
use underground_node_network.Map.{Map, get, put, get-put_self}
use underground_node_network.Text.{
  Text, runes, text_key, text_eq, is_space, rune_len, byte_len, NoSpace, Lacks,
}
use underground_node_network.Protocol.{RegisterPayload}
use underground_node_network.Entrypoint.Names.{is_name_char, all_name_chars, is_valid_username}
use underground_node_network.Entrypoint.State.{Server, Conn, Room}
use underground_node_network.Entrypoint.Store.{three, save_rooms, restart}
use underground_node_network.Entrypoint.Store.Rooms.{IsWord, restart-save_rooms}
use underground_node_network.Entrypoint.Operator.{
  register_msg, unregister_msg, Session, error_reply, handle_register, handle_operator,
}
use underground_node_network.Entrypoint.Operator.Refused.{
  handle_register-refused, handle_register-no_key,
}
use underground_node_network.Entrypoint.Operator.Keeps.{
  AllOwned, IsOwnedBy, owner_of, owner_of-three,
}
use underground_node_network.Entrypoint.Operator.Owner.{handle_operator-Keeps}
use underground_node_network.Entrypoint.Identity.{public_key_callback, api_user_register}
use underground_node_network.Entrypoint.Identity.Login.{
  api_user_register-crash, public_key_callback-known, api_user_register-holds,
}

-- A stand-in for the parser of keys: a key that starts with 'k' has the hash "f0".
abbrev key_hash : Text → Option Text
key_hash [] = none
key_hash (c ∷ s) = some (runes "f0")

abbrev day : Text
day = runes "2025-01-01"

abbrev conn : Conn
conn = record {
  number = 7;
  user = runes "eve";
  extensions = (runes "verified", runes "false") ∷ [];
  remote_addr = runes "10.0.0.1:1";
}

abbrev info : Text
info = three (runes "a1") (runes "bob") day

abbrev server : Server
server = record {
  rooms = [];
  punch_sessions = [];
  identities = (runes "e2", three (runes "bob") (runes "bob" ++ b'@' ∷ runes "github") day) ∷ [];
  usernames = (runes "bob", runes "bob@github") ∷ [];
  registered_rooms = (runes "cave", info) ∷ [];
  users_file = none;
  rooms_file = none;
}

abbrev session : Session
session = record { server = server; username = runes "eve"; room_name = []; replies = [] }

abbrev request : List Text → RegisterPayload
request keys = record {
  room_name = runes "cave";
  doors = [];
  candidates = runes "10.0.0.1:2" ∷ [];
  ssh_port = pos 22;
  public_keys = keys;
  people_count = pos 0;
}

known : get (runes "cave") session.server.registered_rooms ≡ some info
unfolding get text_eq
known = refl

stranger : get (runes "verified") conn.extensions ≢ some (runes "true")
unfolding get text_eq
stranger e = cc

a1_NoSpace : NoSpace (runes "a1")
unfolding is_space
a1_NoSpace = (refl, (refl, tt))

bob_NoSpace : NoSpace (runes "bob")
unfolding is_space
bob_NoSpace = (refl, (refl, (refl, tt)))

day-NoSpace : NoSpace day
unfolding is_space
day-NoSpace = (refl, (refl, (refl, (refl, (refl, (refl, (refl, (refl, (refl, (refl, tt))))))))))

handle_register-refused_example :
    handle_register key_hash day conn session (request (runes "key" ∷ []))
    ≡ returns record session {
      replies =
          error_reply
            (runes "Room name '" ++ (runes "cave" ++ runes "' is already taken by another user."))
          ∷ [];
    }
handle_register-refused_example =
    handle_register-refused key_hash day conn session (request (runes "key" ∷ [])) (runes "a1")
      (runes "bob") day (runes "key") (runes "f0") [] a1_NoSpace bob_NoSpace day-NoSpace known refl
      refl (λ e. ground arith) (λ e. ground arith) (λ e. ground arith) (inl stranger)

handle_register-no_key_example :
    (f : Session) × (room : Room) × (handle_register key_hash day conn session (request [])
      ≡ returns f)
    × (get (runes "cave") f.server.rooms ≡ some room)
    × (room.connection ≡ 7)
    × (room.info.candidates ≡ runes "10.0.0.1:2" ∷ [])
    × (room.info.owner ≡ runes "bob")
handle_register-no_key_example =
    handle_register-no_key key_hash day conn session (request []) (runes "a1") (runes "bob") day
      a1_NoSpace bob_NoSpace day-NoSpace known refl

all_owned : AllOwned session.server
unfolding get text_eq
all_owned name i e = elim (Bool-cases (text_eq (runes "cave") name)) [
  | inl here ↦ (runes "bob", ap owner_of (sym (some_injective (rw here at e))) ∙ info_owner)
  | inr other ↦ let gone = rw other at e in cc
]
  where
    info_owner : owner_of info ≡ some (runes "bob")
    info_owner =
        owner_of-three (runes "a1") (runes "bob") day ((λ e. omega arith), ((λ e. omega arith), tt))
          ((λ e. omega arith), ((λ e. omega arith), ((λ e. omega arith), tt)))

hex : (k h : Text) → key_hash k ≡ some h → Lacks b' ' h
hex [] h e = cc
hex (c ∷ s) h e =
    subst (Lacks b' ') (some_injective e) ((λ e. omega arith), ((λ e. omega arith), tt))

handle_operator-Keeps_example :
    (f : Session) × (handle_operator key_hash day conn session
        (register_msg none ∷ register_msg (some (request [])) ∷ unregister_msg ∷ [])
      ≡ returns f)
    × AllOwned f.server
    × ((name owner : Text) → IsOwnedBy session.server name owner → IsOwnedBy f.server name owner)
handle_operator-Keeps_example =
    handle_operator-Keeps key_hash hex day conn session
      (register_msg none ∷ register_msg (some (request [])) ∷ unregister_msg ∷ []) all_owned

cave_IsWord : IsWord (runes "cave")
unfolding is_space
cave_IsWord = ((λ e. ground arith), (refl, (refl, (refl, (refl, tt)))))

restart-save_rooms_example :
    get (runes "cave") (restart (save_rooms server)).registered_rooms
    ≡ get (runes "cave") server.registered_rooms
unfolding get
restart-save_rooms_example =
    restart-save_rooms server (runes "cave") (refl, tt)
      (
        (
          cave_IsWord,
          (
            runes "a1",
            runes "bob",
            day,
            ((λ e. ground arith), a1_NoSpace),
            ((λ e. ground arith), bob_NoSpace),
            ((λ e. ground arith), day-NoSpace),
            refl,
          ),
        ),
        tt,
      )

mallory_valid : is_valid_username (runes "mal") ≡ true
unfolding is_valid_username all_name_chars is_name_char byte_len rune_len
mallory_valid = refl

mallory_free : get (runes "mal") server.usernames ≡ none
unfolding get text_eq
mallory_free = refl

x_IsWord : IsWord (runes "x")
unfolding is_space
x_IsWord = ((λ e. ground arith), (refl, tt))

api_user_register-crash_example :
    public_key_callback day
      (api_user_register day server (runes "f0") (runes "mal") (runes "x")).0
      (runes "mal")
      (runes "key")
      (runes "f0")
    ≡ panics
api_user_register-crash_example =
    api_user_register-crash day day server (runes "f0") (runes "key") (runes "mal") (runes "mal")
      (runes "x") mallory_valid mallory_free x_IsWord ((λ e. omega arith), tt)

api_user_register-holds_example :
    get
      (runes "bob")
      (api_user_register day server (runes "f0") (runes "bob") (runes "x")).0.usernames
    ≡ some (runes "bob@github")
unfolding put
api_user_register-holds_example =
    api_user_register-holds day server (runes "f0") (runes "bob") (runes "x") (runes "bob")
      (runes "bob@github") held
  where
    held : get (runes "bob") ((runes "bob", runes "bob@github") ∷ []) ≡ some (runes "bob@github")
    held = get-put_self (runes "bob") (runes "bob@github") []

github_NoAt : Lacks b'@' (runes "github")
github_NoAt = ground arith

bob_NoAt : Lacks b'@' (runes "bob")
bob_NoAt = ground arith

bob_known :
    get (runes "e2") server.identities
    ≡ some (three (runes "bob") (runes "bob" ++ b'@' ∷ runes "github") day)
unfolding get text_eq
bob_known = refl

bob_at_IsWord : IsWord (runes "bob" ++ b'@' ∷ runes "github")
unfolding is_space
bob_at_IsWord =
    ((λ e. cc), (refl, (refl, (refl, (refl, (refl, (refl, (refl, (refl, (refl, (refl, tt)))))))))))

public_key_callback-known_example :
    (t : Server) × (extensions : Map Text Text) × (public_key_callback day server
        (runes "bob")
        (runes "key")
        (runes "e2")
      ≡ returns (t, extensions))
    × (get (runes "verified") extensions ≡ some (runes "true"))
    × (get (runes "username") extensions ≡ some (runes "bob"))
    × (get (runes "platform") extensions ≡ some (runes "github"))
    × (get (runes "taken") extensions ≡ (elim (get (runes "bob") server.usernames) [
      | none ↦ none
      | some owner ↦
          if text_eq owner (runes "bob" ++ b'@' ∷ runes "github") then none else some (runes "true")
    ]))
public_key_callback-known_example =
    public_key_callback-known day server (runes "e2") (runes "key") (runes "bob") (runes "bob")
      (runes "bob") (runes "github") day ((λ e. ground arith), bob_NoSpace) bob_at_IsWord bob_NoAt
      github_NoAt bob_known
