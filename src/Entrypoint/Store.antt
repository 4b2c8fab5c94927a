-- ===== src/Entrypoint/Store.antt =====
-- internal/entrypoint/identity.go: the files of users and rooms. Both are written where the directory
-- can be made and written to.
pub mod Rooms
use underground_node_network.Base.{
  ℕ, ◌≡◌, [], ◌∷◌, ◌++◌, List, Bool, true, false, Option, none, some, length, if◌then◌else◌, leb,
  ◌==◌,
}
use underground_node_network.Map.{Map, put}
use underground_node_network.Text.{Text, text_key, runes, trim_space}
use underground_node_network.Text.Split.{split, split_n}
use underground_node_network.Text.Words.{fields}
use underground_node_network.Entrypoint.State.{Server, fresh_server}

-- fmt.Sprintf("%s %s %s", a, b, c)
abbrev pub three : Text → Text → Text → Text
three a b c = a ++ b' ' ∷ (b ++ b' ' ∷ c)

-- A line of the users file.
unfoldable pub user_line : Text → Text → Text
user_line hash info = elim (fields info) [
  | [] ↦ []
  | name ∷ rest ↦ elim rest [
    | [] ↦ []
    | platform ∷ more ↦ elim more [
      | [] ↦ hash ++ b' ' ∷ (three name platform [] ++ b'\n' ∷ [])
      | seen ∷ _ ↦ hash ++ b' ' ∷ (three name platform seen ++ b'\n' ∷ [])
    ]
  ]
]

unfoldable pub print_users : Map Text Text → Text
print_users [] = []
print_users ((hash, info) ∷ m) = user_line hash info ++ print_users m

unfoldable pub save_users : Server → Server
save_users s = record s { users_file = some (print_users s.identities) }

-- A line of the users file, of which the parts are given.
unfoldable pub load_user : Server → List Text → Server
load_user s (hash ∷ name ∷ platform ∷ []) = record s {
  identities = put hash (three name platform []) s.identities;
  usernames = put name platform s.usernames;
}
load_user s (hash ∷ name ∷ platform ∷ seen ∷ []) = record s {
  identities = put hash (three name platform seen) s.identities;
  usernames = put name platform s.usernames;
}
load_user s _ = s

unfoldable pub load_user_line : Server → Text → Server
load_user_line s line = elim (trim_space line) [
  | [] ↦ s
  | c ∷ t ↦ load_user s (split_n 4 (c ∷ t) b' ')
]

unfoldable pub load_user_lines : Server → List Text → Server
load_user_lines s [] = s
load_user_lines s (line ∷ lines) = load_user_lines (load_user_line s line) lines

unfoldable pub load_users : Server → Server
load_users s = elim s.users_file [ none ↦ s | some text ↦ load_user_lines s (split text b'\n') ]

-- A line of the rooms file, for an entry that has three parts.
unfoldable pub room_line : Text → List Text → Text
room_line name (host_hash ∷ owner ∷ date ∷ []) =
    host_hash ++ b' ' ∷ (three name owner date ++ b'\n' ∷ [])
room_line name _ = []

unfoldable pub print_rooms : Map Text Text → Text
print_rooms [] = []
print_rooms ((name, info) ∷ m) = room_line name (split info b' ') ++ print_rooms m

unfoldable pub save_rooms : Server → Server
save_rooms s = record s { rooms_file = some (print_rooms s.registered_rooms) }

unfoldable pub load_room : Server → List Text → Server
load_room s (host_hash ∷ name ∷ owner ∷ date ∷ []) = record s {
  registered_rooms = put name (three host_hash owner date) s.registered_rooms;
}
load_room s _ = s

unfoldable pub load_room_line : Server → Text → Server
load_room_line s line = elim (trim_space line) [ [] ↦ s | c ∷ t ↦ load_room s (split (c ∷ t) b' ') ]

unfoldable pub load_room_lines : Server → List Text → Server
load_room_lines s [] = s
load_room_lines s (line ∷ lines) = load_room_lines (load_room_line s line) lines

unfoldable pub load_rooms : Server → Server
load_rooms s = elim s.rooms_file [ none ↦ s | some text ↦ load_room_lines s (split text b'\n') ]

-- NewServer: what a server knows after a restart.
unfoldable pub restart : Server → Server
unfolding fresh_server
restart s = load_rooms (load_users (fresh_server s.users_file s.rooms_file))
