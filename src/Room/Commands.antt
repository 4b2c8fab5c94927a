-- ===== src/Room/Commands.antt =====
-- internal/sshserver/commands.go: handleInternalCommand, the commands of a room. `p` is the Person
-- that `id` is the session of. The hash of a key is hexadecimal, so that its bytes are its characters.
pub mod Talk
pub mod Moderate
use underground_node_network.Base.{
  [], ◌∷◌, ◌++◌, List, Bool, true, false, Option, none, some, if◌then◌else◌,
}
use underground_node_network.Text.{Text, text_eq, runes, has_prefix, trim_prefix, trim_space}
use underground_node_network.Text.Split.{split_n}
use underground_node_network.Doors.{is_door}
use underground_node_network.Room.{
  Person, RoomServer, Handled, finished, ◌>>=◌, msg_command, msg_server,
}
use underground_node_network.Room.Commands.Talk.{
  head_and_rest, say, help, list_people, me, whisper, clear, list_doors, quit,
}
use underground_node_network.Room.Commands.Moderate.{
  kick, kickban, unban, banlist, lock, unlock, kickall,
}

pub data Command : Type 0 where
  cmd_help : Command
  cmd_people : Command
  cmd_me : Command
  cmd_whisper : Command
  cmd_kick : Command
  cmd_kickban : Command
  cmd_unban : Command
  cmd_banlist : Command
  cmd_lock : Command
  cmd_unlock : Command
  cmd_kickall : Command
  cmd_clear : Command
  cmd_doors : Command
  cmd_open : Command
  cmd_quit : Command
  cmd_other : Command

-- The cases of the switch, in their order.
abbrev command_names : List (Text × Command)
command_names =
    (runes "help", cmd_help)
    ∷ (runes "people", cmd_people)
    ∷ (runes "me", cmd_me)
    ∷ (runes "whisper", cmd_whisper)
    ∷ (runes "kick", cmd_kick)
    ∷ (runes "kickban", cmd_kickban)
    ∷ (runes "unban", cmd_unban)
    ∷ (runes "banlist", cmd_banlist)
    ∷ (runes "lock", cmd_lock)
    ∷ (runes "unlock", cmd_unlock)
    ∷ (runes "kickall", cmd_kickall)
    ∷ (runes "clear", cmd_clear)
    ∷ (runes "doors", cmd_doors)
    ∷ (runes "open", cmd_open)
    ∷ (runes "quit", cmd_quit)
    ∷ (runes "exit", cmd_quit)
    ∷ []

unfoldable pub find_command : List (Text × Command) → Text → Command
find_command [] word = cmd_other
find_command ((name, c) ∷ rest) word =
    let later = find_command rest word in if text_eq word name then c else later

unfoldable pub command_of : Text → Command
unfolding find_command
command_of word = find_command command_names word

-- The command line without its slash, at its first space.
unfoldable pub command_parts : Text → Text × Option Text
command_parts cmd = head_and_rest (split_n 2 (trim_prefix cmd (runes "/")) b' ')

-- A command that is handled, so that the screen stays.
unfoldable pub handled : Handled RoomServer → Handled (RoomServer × Bool)
handled m = m >>= λ s. finished (s, true)

module _ (digest : Text → Text) where
  -- case "open"
  unfoldable pub open_door : Text → Person → Option Text → RoomServer → Handled (RoomServer × Bool)
  open_door id p none s = handled (say digest id p (runes "Usage: /open <door>") msg_server s)
  open_door id p (some rest) s =
      let door_name = trim_space rest in
      if is_door door_name s.door_manager
      then finished (s, false)
      else handled (say digest id p (runes "Door not found: " ++ door_name) msg_server s)

  -- The default case: the name of a door, or an unknown command.
  unfoldable pub other : Text → Person → Text → RoomServer → Handled (RoomServer × Bool)
  other id p word s =
      if is_door word s.door_manager
      then finished (s, false)
      else handled (say digest id p (runes "Unknown command: " ++ word) msg_server s)

  -- The switch; the result says whether the command is handled.
  unfoldable pub run_command :
      Command → Text → Person → Text → Option Text → RoomServer → Handled (RoomServer × Bool)
  run_command cmd_help id p word arg s = handled (help digest id p s)
  run_command cmd_people id p word arg s = handled (list_people digest id p s)
  run_command cmd_me id p word arg s = handled (me digest id p arg s)
  run_command cmd_whisper id p word arg s = handled (whisper digest id p arg s)
  run_command cmd_kick id p word arg s = handled (kick digest id p arg s)
  run_command cmd_kickban id p word arg s = handled (kickban digest id p arg s)
  run_command cmd_unban id p word arg s = handled (unban digest id p arg s)
  run_command cmd_banlist id p word arg s = handled (banlist digest id p s)
  run_command cmd_lock id p word arg s = handled (lock digest id p arg s)
  run_command cmd_unlock id p word arg s = handled (unlock digest id p s)
  run_command cmd_kickall id p word arg s = handled (kickall digest id p arg s)
  run_command cmd_clear id p word arg s = handled (clear digest id p s)
  run_command cmd_doors id p word arg s = handled (list_doors digest id p s)
  run_command cmd_open id p word arg s = open_door id p arg s
  run_command cmd_quit id p word arg s = handled (quit id p arg s)
  run_command cmd_other id p word arg s = other id p word s

  unfoldable pub handle_internal_command :
      Text → Person → Text → RoomServer → Handled (RoomServer × Bool)
  handle_internal_command id p cmd s =
      let (word, arg) = command_parts cmd in
      if has_prefix cmd (runes "/")
      then (say digest id p cmd msg_command s >>= λ t.
          run_command (command_of word) id p word arg t)
      else finished (s, false)
