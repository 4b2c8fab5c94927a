-- ===== src/Room/Steps/Dispatch.antt =====
-- The invariants of a room are kept by every command but the list of bans, which needs both `C` and `D`.
use underground_node_network.Base.{◌≡◌, [], refl, true, Option, none, some, Bool-cases, inl, inr}
use underground_node_network.Text.{Text, text_key, runes, has_prefix, trim_space}
use underground_node_network.Doors.{is_door}
use underground_node_network.Room.{
  Person, RoomServer, Handled, msg_server, msg_command, is_operator,
}
use underground_node_network.Room.Commands.Talk.{say}
use underground_node_network.Room.Commands.Moderate.{
  kick, kickban, unban, banlist, lock, unlock, kickall,
}
use underground_node_network.Room.Commands.{
  Command, cmd_help, cmd_people, cmd_me, cmd_whisper, cmd_kick, cmd_kickban, cmd_unban, cmd_banlist,
  cmd_lock, cmd_unlock, cmd_kickall, cmd_clear, cmd_doors, cmd_open, cmd_quit, cmd_other,
  command_of, command_parts, handled, open_door, other, run_command, handle_internal_command,
}
use underground_node_network.Room.Steps.{Ends, bind-Ends, Steps}
use underground_node_network.Room.Steps.Talking.{
  broadcast-holds, say-Ends, help-Ends, list_people-Ends, me-Ends, whisper-Ends, clear-Ends,
  list_doors-Ends, quit-Ends,
}
use underground_node_network.Room.Steps.Moderating.{
  guarded-Ends, kick_with-Ends, ban_with-Ends, unban_with-Ends, list_bans-Ends, lock_with-Ends,
  close_others-holds,
}

module _ {I : RoomServer → Type 0} {C D Op : Type 0} (steps : Steps I C D Op) (digest : Text → Text)
    (id : Text) (p : Person)
    (op_of : (s : RoomServer) → I s → is_operator p.pub_key s ≡ true → Op) where
  handled-Ends : (m : Handled RoomServer) → Ends C D I m → Ends C D (λ r. I r.0) (handled m)
  unfolding handled
  handled-Ends m h = bind-Ends C D I (λ r. I r.0) m _ h (λ t ht. ht)

  open_door-Ends :
      (arg : Option Text) (s : RoomServer)
      → I s
      → Ends C D (λ r. I r.0) (open_door digest id p arg s)
  unfolding open_door
  open_door-Ends none s h = handled-Ends _ (say-Ends steps digest id p _ msg_server s h)
  open_door-Ends (some rest) s h = elim (Bool-cases (is_door (trim_space rest) s.door_manager)) [
    | inl there ↦ rw (open_door, there) h
    | inr missing ↦
        rw (open_door, missing) (handled-Ends _ (say-Ends steps digest id p _ msg_server s h))
  ]

  other-Ends :
      (word : Text) (s : RoomServer) → I s → Ends C D (λ r. I r.0) (other digest id p word s)
  unfolding other
  other-Ends word s h = elim (Bool-cases (is_door word s.door_manager)) [
    | inl there ↦ rw (other, there) h
    | inr missing ↦
        rw (other, missing) (handled-Ends _ (say-Ends steps digest id p _ msg_server s h))
  ]

  run_command-Ends :
      (c : Command) (word : Text) (arg : Option Text) (s : RoomServer)
      → (c ≡ cmd_banlist → C × D)
      → I s
      → Ends C D (λ r. I r.0) (run_command digest c id p word arg s)
  unfolding run_command kick kickban unban banlist lock unlock kickall
  run_command-Ends cmd_help word arg s b h = handled-Ends _ (help-Ends steps digest id p s h)
  run_command-Ends cmd_people word arg s b h =
      handled-Ends _ (list_people-Ends steps digest id p s h)
  run_command-Ends cmd_me word arg s b h = handled-Ends _ (me-Ends steps digest id p arg s h)
  run_command-Ends cmd_whisper word arg s b h =
      handled-Ends _ (whisper-Ends steps digest id p arg s h)
  run_command-Ends cmd_kick word arg s b h = handled-Ends _ (
      guarded-Ends steps digest id p op_of _ s h
        (λ op. kick_with-Ends steps digest id p op_of op arg s h))
  run_command-Ends cmd_kickban word arg s b h = handled-Ends _ (
      guarded-Ends steps digest id p op_of _ s h
        (λ op. ban_with-Ends steps digest id p op_of op arg s h))
  run_command-Ends cmd_unban word arg s b h = handled-Ends _ (
      guarded-Ends steps digest id p op_of _ s h
        (λ op. unban_with-Ends steps digest id p op_of op arg s h))
  run_command-Ends cmd_banlist word arg s b h = handled-Ends _ (
      guarded-Ends steps digest id p op_of _ s h (λ op.
        bind-Ends C D I I (say digest id p (runes "--- Banned Users ---") msg_server s) _
          (say-Ends steps digest id p _ msg_server s h)
          (λ t ht. list_bans-Ends steps digest id p op_of (b refl) 1 t.banned_hashes t ht)))
  run_command-Ends cmd_lock word arg s b h = handled-Ends _ (
      guarded-Ends steps digest id p op_of _ s h
        (λ op. lock_with-Ends steps digest id p op_of op arg s h))
  run_command-Ends cmd_unlock word arg s b h = handled-Ends _ (
      guarded-Ends steps digest id p op_of _ s h
        (λ op. broadcast-holds steps digest (runes "Server") _ _ (steps.change_lock op [] s h)))
  run_command-Ends cmd_kickall word arg s b h = handled-Ends _ (
      guarded-Ends steps digest id p op_of _ s h (λ op.
        close_others-holds steps digest op _ _
          (broadcast-holds steps digest (runes "Server") _ s h)))
  run_command-Ends cmd_clear word arg s b h = handled-Ends _ (clear-Ends steps digest id p s h)
  run_command-Ends cmd_doors word arg s b h = handled-Ends _ (list_doors-Ends steps digest id p s h)
  run_command-Ends cmd_open word arg s b h = open_door-Ends arg s h
  run_command-Ends cmd_quit word arg s b h = handled-Ends _ (quit-Ends steps digest id p arg s h)
  run_command-Ends cmd_other word arg s b h = other-Ends word s h

  -- A command keeps the invariant, if the list of bans may crash and hang.
  pub handle_internal_command-Ends :
      (cmd : Text) (s : RoomServer)
      → (command_of (command_parts cmd).0 ≡ cmd_banlist → C × D)
      → I s
      → Ends C D (λ r. I r.0) (handle_internal_command digest id p cmd s)
  unfolding handle_internal_command
  handle_internal_command-Ends cmd s b h = elim (Bool-cases (has_prefix cmd (runes "/"))) [
    | inl slash ↦
        rw (handle_internal_command, slash)
          (bind-Ends C D I (λ r. I r.0) (say digest id p cmd msg_command s) _
            (say-Ends steps digest id p cmd msg_command s h)
            (λ t.
              run_command-Ends (command_of (command_parts cmd).0) (command_parts cmd).0
                (command_parts cmd).1 t b))
    | inr plain ↦ rw (handle_internal_command, plain) h
  ]
