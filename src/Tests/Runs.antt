-- ===== src/Tests/Runs.antt =====
-- Runs of the theorems on what happens to a room.
use underground_node_network.Base.{◌≡◌, refl, [], ◌∷◌, List, some, arith, All}
use underground_node_network.Map.{get, put, delete}
use underground_node_network.Text.{
  runes, text_key, has_prefix, trim_space, trim_left, trim_right, keep_unless, is_space, text_eq,
}
use underground_node_network.Text.Decimal.{decimal}
use underground_node_network.Doors.{list, names}
use underground_node_network.Room.{
  RoomServer, Handled, finished, history_of, is_operator, same_key, add_command_to_history,
  append_capped, is_last, broadcast, broadcast_to, reach, on_ui_if, add_message,
  add_message_to_history, set_person, send_osc, get_pub_key_hash, set_lists, broadcast_with_history,
  with_history_to, is_chat,
}
use underground_node_network.Room.Connections.{
  handle_connection, authorize_key, is_authorized, ban_reason, prefix_ban, enter, elect,
  mapped_name, warn_old, old_sessions, update_all_people, update_people_lists, update_people_list,
  display_names, leave,
}
use underground_node_network.Room.Runs.{
  RoomEvent, authorizes, connects, leaves, sends, run, step, at_session, step_of, on_send,
  state_behind, passes_handshake,
}
use underground_node_network.Room.Runs.Bounded.{Bounded, run-Bounded}
use underground_node_network.Room.Runs.Away.{Lacking, run-IsAway}
use underground_node_network.Tests.Commands.{digest, bob, room_with}

-- What happens to the room, while the operator is not there; the last line comes from who has left.
abbrev quiet_room : RoomServer
quiet_room = room_with ((runes "s2", bob) ∷ []) []

abbrev happenings : List RoomEvent
happenings =
    authorizes (runes "ke") (runes "eve")
    ∷ connects (runes "e") (some (runes "ke")) 7
    ∷ leaves (runes "s2")
    ∷ sends bob (runes "hi")
    ∷ []

-- What comes of a run that finishes.
abbrev state_of : Handled RoomServer → RoomServer
state_of (finished s) = s
state_of _ = quiet_room

happens : run digest happenings quiet_room ≡ finished (state_of (run digest happenings quiet_room))
unfolding run step passes_handshake is_authorized at_session step_of on_send add_command_to_history
    append_capped history_of is_last broadcast broadcast_to reach on_ui_if add_message
    add_message_to_history set_person get put delete authorize_key handle_connection ban_reason
    prefix_ban enter elect mapped_name warn_old old_sessions send_osc same_key is_operator
    get_pub_key_hash update_all_people update_people_lists update_people_list set_lists
    display_names list names leave broadcast_with_history with_history_to is_chat state_behind
    trim_space trim_left trim_right keep_unless is_space text_eq has_prefix decimal
happens = refl

run-IsAway_example :
    ((state_of (run digest happenings quiet_room)).operator_pub_key ≡ some (runes "ka"))
    × ((state_of (run digest happenings quiet_room)).banned_hashes ≡ quiet_room.banned_hashes)
    × ((state_of (run digest happenings quiet_room)).room_lock_key ≡ quiet_room.room_lock_key)
    × All (Lacking (runes "ka")) (state_of (run digest happenings quiet_room)).people
run-IsAway_example =
    run-IsAway digest (runes "ka") happenings quiet_room
      (state_of (run digest happenings quiet_room)) refl ((λ e. ground arith), tt)
      (tt, ((λ e. ground arith), (tt, ((λ e. ground arith), tt)))) happens

quiet_room-Bounded : Bounded quiet_room
unfolding history_of get
quiet_room-Bounded = ((λ k. omega arith), λ k. (omega arith, tt))

run-Bounded_example : Bounded (state_of (run digest happenings quiet_room))
run-Bounded_example =
    run-Bounded digest happenings quiet_room (state_of (run digest happenings quiet_room))
      quiet_room-Bounded happens
