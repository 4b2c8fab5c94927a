-- ===== src/Entrypoint/Lobby/Joined.antt =====
-- The way into a room: what the room's operator answers reaches the person who waits.
use underground_node_network.Base.{
  ℕ, ◌≡◌, ◌≢◌, refl, ap, ◌∙◌, [], ◌∷◌, ◌++◌, List, true, false, Option, none, some, returns, All,
}
use underground_node_network.Map.{get, put, get-put_self, get-delete, same_self}
use underground_node_network.Text.{Text, text_key, runes}
use underground_node_network.Text.Decimal.{decimal}
use underground_node_network.Protocol.{PunchAnswerPayload, PunchStartPayload}
use underground_node_network.Room.{Message, msg_server, msg_system}
use underground_node_network.Entrypoint.State.{Server, Room, Conn}
use underground_node_network.Entrypoint.Operator.{Session}
use underground_node_network.Entrypoint.Lobby.{
  EntryUi, Visitor, Lobby, close_entry, on_entry, keep_message, with_message, show_message, joining,
  join_offer, begin_join, start_message, forget_join, end_join,
}
use underground_node_network.Entrypoint.Lobby.Answered.{
  waiting, start_of, answer_all, answers_others, answer_all-first,
}

-- A person whose screen is open.
abbrev pub on_screen : Visitor → EntryUi → Visitor
on_screen p ui =
    let open_ui : EntryUi = record ui { is_closed = false } in record p { ui = some open_ui }

-- The id of a join, and the lobby while it waits.
abbrev pub join_id : Visitor → ℕ → Text
join_id p now = p.username ++ b'-' ∷ decimal now

abbrev pub while_waiting : Lobby → Text → Text → Lobby
while_waiting s id room_name =
    let server : Server = record s.server {
      punch_sessions = put id (waiting room_name []) s.server.punch_sessions;
    } in
    record s { server = server }

-- The person is done with the entry point, and goes on to the room.
abbrev pub IsTeleported : PunchStartPayload → Visitor → Type 0
IsTeleported start q =
    (q.teleport_data ≡ some start)
    × ((ui : EntryUi) × (q.ui ≡ some ui) × (ui.is_closed ≡ true) × (ui.success ≡ true))

forgotten : (id : Text) (s : Lobby) → get id (forget_join id s).server.punch_sessions ≡ none
unfolding forget_join
forgotten id s = rw (get-delete, same_self id) refl

begin_join-joining :
    (s : Lobby) (p : Visitor) (conn : Conn) (now : ℕ) (room_name : Text) (room : Room)
    → get room_name s.server.rooms ≡ some room
    → begin_join s p conn now room_name
      ≡ joining
          (while_waiting s (join_id p now) room_name)
          p
          (join_id p now)
          room.connection
          (join_offer p conn (join_id p now))
unfolding begin_join
begin_join-joining s p conn now room_name room e = rw (begin_join, e) refl

end_join-teleports :
    (s : Lobby) (p : Visitor) (ui : EntryUi) (id : Text) (start : PunchStartPayload)
    → start_message s.server id ≡ some start
    → (t : Lobby) × (q : Visitor) × (end_join s (on_screen p ui) id ≡ returns (t, q))
      × IsTeleported start q
      × (get id t.server.punch_sessions ≡ none)
unfolding end_join show_message with_message on_entry close_entry
end_join-teleports s p ui id start e =
    let m : Message = record { text = runes "Room joined! Teleporting..."; kind = msg_system } in
    let kept = keep_message s p.pub_key_hash m in
    let closed : EntryUi = record ui {
      messages = ui.messages ++ m ∷ [];
      is_closed = true;
      success = true;
    } in
    let q : Visitor = record p {
      ui = some closed;
      teleport_data = some start;
      bus = p.bus ++ (runes "teleport", start) ∷ [];
    } in
    (
      forget_join id kept,
      q,
      rw (end_join, e) refl,
      (refl, (closed, refl, refl, refl)),
      forgotten id kept,
    )

end_join-times_out :
    (s : Lobby) (p : Visitor) (id : Text)
    → start_message s.server id ≡ none
    → (t : Lobby) × (q : Visitor) × (end_join s p id ≡ returns (t, q))
      × (q.teleport_data ≡ p.teleport_data)
      × (get id t.server.punch_sessions ≡ none)
unfolding end_join show_message with_message
end_join-times_out s p id e =
    let m : Message = record {
      text = runes "Timeout waiting for room operator.";
      kind = msg_server;
    } in
    let kept = keep_message s p.pub_key_hash m in
    (
      forget_join id kept,
      with_message m p,
      rw (end_join, e) refl,
      same_data p.ui,
      forgotten id kept,
    )
  where
    same_data :
        (o : Option EntryUi)
        → (elim o as (λ _. Visitor) [
          | none ↦ p
          | some ui ↦ record p {
            ui = some (record ui {
              messages =
                  ui.messages
                  ++ record { text = runes "Timeout waiting for room operator."; kind = msg_server }
                    ∷ [];
            });
          }
        ]).teleport_data
          ≡ p.teleport_data
    same_data none = refl
    same_data (some ui) = refl

waiting-start :
    (s : Server) (id room_name : Text) (queue : List PunchStartPayload)
    → get id s.punch_sessions ≡ some (waiting room_name queue)
    → start_message s id ≡ (elim queue [ [] ↦ none | start ∷ _ ↦ some start ])
unfolding start_message
waiting-start s id room_name [] e = rw (start_message, e) refl
waiting-start s id room_name (start ∷ queue) e = rw (start_message, e) refl

-- A person with an open screen joins a room that is online: the room's connection is sent an offer, and
-- of what operators answer meanwhile the first answer with the person's id counts: the person gets its
-- addresses and the screen closes with success. Where no answer has the id, the person stays. In both
-- cases the session of the join is gone behind it.
pub begin_join-end_join :
    (key_hash : Text → Option Text) (today : Text) (operator conn : Conn) (s : Lobby) (p : Visitor)
    (ui : EntryUi) (now : ℕ) (room_name : Text) (room : Room) (e : Session)
    (before : List PunchAnswerPayload)
    → let id = join_id p now in
      let v = on_screen p ui in
      let s1 = while_waiting s id room_name in
      let after : List PunchAnswerPayload → Lobby = λ answers. record s1 {
        server = (answer_all key_hash today operator id room_name e answers).server;
      } in
      get room_name s.server.rooms ≡ some room
      → e.server ≡ s1.server
      → All (λ b. b.person_id ≢ id) before
      → (begin_join s v conn now room_name ≡ joining s1 v id room.connection (join_offer v conn id))
        × ((a : PunchAnswerPayload) (later : List PunchAnswerPayload)
            → a.person_id ≡ id
            → (t : Lobby) × (q : Visitor) × (end_join (after (before ++ a ∷ later)) v id
                ≡ returns (t, q))
              × IsTeleported (start_of room_name a) q
              × (get id t.server.punch_sessions ≡ none))
        × ((t : Lobby) × (q : Visitor) × (end_join (after before) v id ≡ returns (t, q))
            × (q.teleport_data ≡ p.teleport_data)
            × (get id t.server.punch_sessions ≡ none))
begin_join-end_join key_hash today operator conn s p ui now room_name room e before online
      same_server others =
    let id = join_id p now in
    let v = on_screen p ui in
    let waits : get id e.server.punch_sessions ≡ some (waiting room_name []) =
      ap (λ x. get id x.punch_sessions) same_server
      ∙ get-put_self id (waiting room_name []) s.server.punch_sessions in
    (
      begin_join-joining s v conn now room_name room online,
      λ a later mine. end_join-teleports _ p ui id (start_of room_name a) (
          waiting-start _ id room_name (start_of room_name a ∷ []) (
            answer_all-first key_hash today operator id room_name e before a later others mine
              waits)),
      end_join-times_out _ v id (
          waiting-start _ id room_name []
            (answers_others key_hash today operator id room_name e before others waits)),
    )
