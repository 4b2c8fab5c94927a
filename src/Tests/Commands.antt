-- ===== src/Tests/Commands.antt =====
-- Runs of the theorems on a room's commands, and the people of these rooms.
use underground_node_network.Base.{
  ◌⊎◌, ◌≡◌, ◌≢◌, refl, [], ◌∷◌, Bool, true, false, Option, none, some, arith,
}
use underground_node_network.Map.{Map, get}
use underground_node_network.Text.{
  Text, runes, text_key, has_prefix, trim_space, trim_left, trim_right, keep_unless, is_space,
  trim_prefix, drop_prefix, text_eq,
}
use underground_node_network.Text.Split.{split_n, onto_first}
use underground_node_network.Doors.{new_manager}
use underground_node_network.Room.{
  ChatUi, Person, RoomServer, finished, crashed, deadlocked, is_operator, same_key,
  get_pub_key_hash,
}
use underground_node_network.Room.Commands.Talk.{two_words, head_and_rest, find_named, find_person}
use underground_node_network.Room.Commands.Moderate.{reason_of, find_target}
use underground_node_network.Room.Commands.{
  command_of, find_command, command_parts, cmd_banlist, cmd_kickban, cmd_whisper,
  handle_internal_command,
}
use underground_node_network.Room.Connections.{refused, handle_connection}
use underground_node_network.Room.Authority.{Follows, handle_internal_command-Follows}
use underground_node_network.Room.Ready.{
  IsReady, handle_internal_command-finishes, handle_internal_command-banlist,
}
use underground_node_network.Room.Bystanders.{handle_internal_command-bystander}
use underground_node_network.Room.Refused.{handle_internal_command-kickban}

abbrev pub digest : Text → Text
digest k = k

abbrev pub new_ui : ChatUi
new_ui = record {
  messages = [];
  people = [];
  doors = [];
  cmd_history = [];
  is_closed = false;
  success = false;
}

abbrev pub person : Text → Text → Option ChatUi → Person
person name key ui = record {
  username = name;
  pub_key = some key;
  chat_ui = ui;
  bus = some [];
  conn_closed = false;
  quit_reason = [];
}

abbrev pub ann : Person
ann = person (runes "ann") (runes "ka") (some new_ui)

abbrev pub bob : Person
bob = person (runes "bob") (runes "kb") (some new_ui)

-- `eve` has connected, and her screen has not started.
abbrev pub eve : Person
eve = person (runes "eve") (runes "ke") none

abbrev pub room_with : Map Text Person → Map Text Text → RoomServer
room_with people bans = record {
  door_manager = new_manager (runes "doors");
  room_name = runes "den";
  people = people;
  authorized_keys = [];
  headless = false;
  histories = [];
  cmd_histories = [];
  banned_hashes = bans;
  room_lock_key = [];
  operator_pub_key = some (runes "ka");
}

abbrev room : RoomServer
room = room_with ((runes "s1", ann) ∷ (runes "s2", bob) ∷ []) []

room-IsReady : IsReady room
room-IsReady = (
  ((new_ui, refl), ([], refl), (runes "ka", refl)),
  (((new_ui, refl), ([], refl), (runes "kb", refl)), tt),
)

is_help : command_of (command_parts (runes "/help")).0 ≢ cmd_banlist
unfolding command_of find_command command_parts head_and_rest split_n onto_first trim_prefix
    drop_prefix text_eq
is_help = λ e. cc

handle_internal_command-finishes_example :
    (r : RoomServer × Bool) × (handle_internal_command digest (runes "s2") bob (runes "/help") room
      ≡ finished r)
    × IsReady r.0
handle_internal_command-finishes_example =
    handle_internal_command-finishes digest (runes "s2") bob (runes "/help") room room-IsReady
      is_help

-- The room after bob's /help.
abbrev helped :
    (r : RoomServer × Bool) × (handle_internal_command digest (runes "s2") bob (runes "/help") room
      ≡ finished r)
    × IsReady r.0
helped =
    handle_internal_command-finishes digest (runes "s2") bob (runes "/help") room room-IsReady
      is_help

bob_no_operator : is_operator bob.pub_key room ≡ false
unfolding is_operator same_key text_eq
bob_no_operator = refl

handle_internal_command-Follows_example : Follows room helped.0.0
handle_internal_command-Follows_example =
    handle_internal_command-Follows digest (runes "s2") bob (runes "/help") room helped.0.0
      helped.0.1 bob_no_operator helped.1

abbrev banning : RoomServer
banning = room_with ((runes "s1", ann) ∷ []) ((runes "kb", runes "spam") ∷ [])

banning-IsReady : IsReady banning
banning-IsReady = (((new_ui, refl), ([], refl), (runes "ka", refl)), tt)

ann_operator : is_operator ann.pub_key banning ≡ true
unfolding is_operator same_key text_eq
ann_operator = refl

banlist_slash : has_prefix (runes "/banlist") (runes "/") ≡ true
unfolding has_prefix
banlist_slash = refl

is_banlist : command_of (command_parts (runes "/banlist")).0 ≡ cmd_banlist
unfolding command_of find_command command_parts head_and_rest split_n onto_first trim_prefix
    drop_prefix text_eq
is_banlist = refl

handle_internal_command-banlist_example :
    ((banning.banned_hashes ≡ [])
      × ((t : RoomServer) × (handle_internal_command digest
              (runes "s1")
              ann
              (runes "/banlist")
              banning
            ≡ finished (t, true))))
    ⊎ ((banning.banned_hashes ≢ [])
        × ((handle_internal_command digest (runes "s1") ann (runes "/banlist") banning ≡ crashed)
            ⊎ (handle_internal_command digest (runes "s1") ann (runes "/banlist") banning
                ≡ deadlocked)))
handle_internal_command-banlist_example =
    handle_internal_command-banlist digest (runes "s1") ann (runes "/banlist") banning
      banning-IsReady ann_operator banlist_slash is_banlist

-- ann bans bob.
abbrev ban_bob : Text
ban_bob = runes "/kickban bob spam"

ann_operator_here : is_operator ann.pub_key room ≡ true
unfolding is_operator same_key text_eq
ann_operator_here = refl

ban_bob_slash : has_prefix ban_bob (runes "/") ≡ true
unfolding has_prefix
ban_bob_slash = refl

is_kickban : command_of (command_parts ban_bob).0 ≡ cmd_kickban
unfolding command_of find_command command_parts head_and_rest split_n onto_first trim_prefix
    drop_prefix text_eq
is_kickban = refl

ban_bob_arg : (command_parts ban_bob).1 ≡ some (runes "bob spam")
unfolding command_parts head_and_rest split_n onto_first trim_prefix drop_prefix
ban_bob_arg = refl

finds_bob :
    find_target digest (trim_space (two_words (runes "bob spam")).0) room.people
    ≡ some (runes "s2", bob)
unfolding find_target find_person two_words head_and_rest split_n onto_first trim_space trim_left
    trim_right keep_unless is_space text_eq has_prefix get_pub_key_hash
finds_bob = refl

is_no_list : command_of (command_parts ban_bob).0 ≢ cmd_banlist
unfolding command_of find_command command_parts head_and_rest split_n onto_first trim_prefix
    drop_prefix text_eq
is_no_list = λ e. cc

-- The room after the ban.
abbrev banned :
    (r : RoomServer × Bool) × (handle_internal_command digest (runes "s1") ann ban_bob room
      ≡ finished r)
    × IsReady r.0
banned =
    handle_internal_command-finishes digest (runes "s1") ann ban_bob room room-IsReady is_no_list

handle_internal_command-kickban_example :
    handle_connection digest (runes "bobby") bob.pub_key 7 banned.0.0
    ≡ finished (refused (reason_of (two_words (runes "bob spam")).1) banned.0.0)
handle_internal_command-kickban_example =
    handle_internal_command-kickban digest (runes "s1") ann ban_bob (runes "bob spam")
      (runes "s2", bob) room banned.0 ann_operator_here ban_bob_slash is_kickban ban_bob_arg
      finds_bob banned.1 (runes "bobby") bob.pub_key 7 refl

-- bob whispers to ann, and eve is there.
abbrev with_eve : RoomServer
with_eve = room_with ((runes "s1", ann) ∷ (runes "s2", bob) ∷ (runes "s3", eve) ∷ []) []

abbrev psst : Text
psst = runes "/whisper ann hi"

psst_slash : has_prefix psst (runes "/") ≡ true
unfolding has_prefix
psst_slash = refl

is_whisper : command_of (command_parts psst).0 ≡ cmd_whisper
unfolding command_of find_command command_parts head_and_rest split_n onto_first trim_prefix
    drop_prefix text_eq
is_whisper = refl

psst_arg : (command_parts psst).1 ≡ some (runes "ann hi")
unfolding command_parts head_and_rest split_n onto_first trim_prefix drop_prefix
psst_arg = refl

psst_text : (two_words (runes "ann hi")).1 ≡ some (runes "hi")
unfolding two_words head_and_rest split_n onto_first
psst_text = refl

finds_ann :
    find_named (trim_space (two_words (runes "ann hi")).0) with_eve.people ≡ some (runes "s1", ann)
unfolding find_named find_person two_words head_and_rest split_n onto_first trim_space trim_left
    trim_right keep_unless is_space text_eq
finds_ann = refl

eve_there : get (runes "s3") with_eve.people ≡ some eve
unfolding get text_eq
eve_there = refl

not_ann : eve.username ≢ trim_space (two_words (runes "ann hi")).0
unfolding two_words head_and_rest split_n onto_first trim_space trim_left trim_right keep_unless
    is_space
not_ann = λ e. ground arith

handle_internal_command-bystander_example :
    handle_internal_command digest (runes "s2") bob psst with_eve ≡ crashed
handle_internal_command-bystander_example =
    handle_internal_command-bystander digest (runes "s2") bob psst (runes "ann hi") (runes "hi")
      (runes "s3") eve (runes "s1", ann) with_eve psst_slash is_whisper psst_arg psst_text finds_ann
      eve_there refl (λ e. ground arith) not_ann
