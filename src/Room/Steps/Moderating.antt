-- ===== src/Room/Steps/Moderating.antt =====
-- The invariants of a room are kept by the operator's commands.
use underground_node_network.Base.{
  ℕ, ◌≡◌, [], ◌∷◌, ◌++◌, List, true, Option, none, some, Option-cases, Bool-cases, inl, inr, leb,
  ltb,
}
use underground_node_network.Map.{Map, get, put, delete}
use underground_node_network.Text.{Text, text_key, runes, byte_len, trim_space}
use underground_node_network.Room.{
  Person, RoomServer, Handled, msg_server, send_osc, osc_payload, close_conn, is_operator,
}
use underground_node_network.Room.Commands.Talk.{two_words, say_holding}
use underground_node_network.Room.Commands.Moderate.{
  find_ban, find_target, guarded, throw_out, kick_with, ban_hash, ban_with, unban_with, list_bans,
  lock_with, close_others,
}
use underground_node_network.Room.Steps.{Ends, bind-Ends, Steps}
use underground_node_network.Room.Steps.Talking.{broadcast-holds, say-Ends, say_holding-Ends}

module _ {I : RoomServer → Type 0} {C D Op : Type 0} (steps : Steps I C D Op)
    (digest : Text → Text) where
  send_osc-Ends :
      Op
      → (id action : Text) (params : Map Text Text) (s : RoomServer) → I s
      → Ends C D I (send_osc id action params s)
  unfolding send_osc
  send_osc-Ends op id action params s h = elim (Option-cases (get id s.people)) [
    | inl gone ↦ rw (send_osc, gone) h
    | inr (p, known) ↦ elim (Option-cases p.bus) [
      | inl no_bus ↦ rw (send_osc, known, no_bus) (steps.no_bus op id p s h known no_bus)
      | inr (sent, bus) ↦
          rw (send_osc, known, bus)
            (steps.send op id p (sent ++ osc_payload action params ∷ []) s known h)
    ]
  ]

  close_conn-holds : Op → (id : Text) (s : RoomServer) → I s → I (close_conn id s)
  unfolding close_conn
  close_conn-holds op id s h = elim (Option-cases (get id s.people)) [
    | inl gone ↦ rw (close_conn, gone) h
    | inr (p, known) ↦ rw (close_conn, known) (steps.shut op id p s known h)
  ]

  pub close_others-holds :
      Op → (people : List (Text × Person)) (s : RoomServer) → I s → I (close_others digest people s)
  unfolding close_others
  close_others-holds op [] s h = h
  close_others-holds op ((id, p) ∷ people) s h = elim (Bool-cases (is_operator p.pub_key s)) [
    | inl eq ↦ rw (close_others, eq) (close_others-holds op people s h)
    | inr ne ↦
        rw (close_others, ne)
          (close_others-holds op people (close_conn id s) (close_conn-holds op id s h))
  ]

  throw_out-Ends :
      Op
      → (target_id : Text) (target : Person) (by verb title text reason : Text) (s : RoomServer)
      → I s
      → Ends C D I (throw_out digest target_id target by verb title text reason s)
  unfolding throw_out
  throw_out-Ends op target_id target by verb title text reason s h =
      bind-Ends C D I I (send_osc target_id (runes "popup") _ _) _
        (send_osc-Ends op target_id (runes "popup") _ _
          (broadcast-holds steps digest (runes "Server") _ s h))
        (close_conn-holds op target_id)

  -- What follows is about a person who takes the operator's steps only if `Op` holds.
  module _ (id : Text) (p : Person)
      (op_of : (s : RoomServer) → I s → is_operator p.pub_key s ≡ true → Op) where
    pub guarded-Ends :
        (go : Handled RoomServer) (s : RoomServer)
        → I s
        → (Op → Ends C D I go)
        → Ends C D I (guarded digest id p go s)
    unfolding guarded
    guarded-Ends go s h k = elim (Bool-cases (is_operator p.pub_key s)) [
      | inl eq ↦ rw (guarded, eq) (k (op_of s h eq))
      | inr ne ↦ rw (guarded, ne) (say-Ends steps digest id p _ msg_server s h)
    ]

    pub kick_with-Ends :
        Op → (arg : Option Text) (s : RoomServer) → I s → Ends C D I (kick_with digest id p arg s)
    unfolding kick_with
    kick_with-Ends op none s h = say-Ends steps digest id p _ msg_server s h
    kick_with-Ends op (some rest) s h =
        elim (Option-cases (find_target digest (trim_space (two_words rest).0) s.people)) [
          | inl nobody ↦ rw (kick_with, nobody) (say-Ends steps digest id p _ msg_server s h)
          | inr ((target_id, target), found) ↦
              rw (kick_with, found) (throw_out-Ends op target_id target p.username _ _ _ _ s h)
        ]

    ban_hash-Ends :
        Op
        → (target reason : Text) (s : RoomServer) → I s
        → Ends C D I (ban_hash digest id p target reason s)
    unfolding ban_hash
    ban_hash-Ends op target reason s h = elim (Bool-cases (leb 8 (byte_len target))) [
      | inl long ↦
          rw (ban_hash, long)
            (say-Ends steps digest id p _ msg_server _
              (steps.ban op (put target reason s.banned_hashes) s h))
      | inr short ↦ rw (ban_hash, short) (say-Ends steps digest id p _ msg_server s h)
    ]

    pub ban_with-Ends :
        Op → (arg : Option Text) (s : RoomServer) → I s → Ends C D I (ban_with digest id p arg s)
    unfolding ban_with
    ban_with-Ends op none s h = say-Ends steps digest id p _ msg_server s h
    ban_with-Ends op (some rest) s h =
        elim (Option-cases (find_target digest (trim_space (two_words rest).0) s.people)) [
          | inl nobody ↦ rw (ban_with, nobody) (ban_hash-Ends op _ _ s h)
          | inr ((target_id, target), found) ↦
              rw (ban_with, found)
                (throw_out-Ends op target_id target p.username _ _ _ _ _ (steps.ban op _ s h))
        ]

    pub unban_with-Ends :
        Op → (arg : Option Text) (s : RoomServer) → I s → Ends C D I (unban_with digest id p arg s)
    unfolding unban_with
    unban_with-Ends op none s h = say-Ends steps digest id p _ msg_server s h
    unban_with-Ends op (some rest) s h =
        elim (Option-cases (find_ban (trim_space rest) s.banned_hashes)) [
          | inl no_ban ↦ rw (unban_with, no_ban) (say-Ends steps digest id p _ msg_server s h)
          | inr (hash, found) ↦
              rw (unban_with, found)
                (say-Ends steps digest id p _ msg_server _
                  (steps.ban op (delete hash s.banned_hashes) s h))
        ]

    pub list_bans-Ends :
        C × D
        → (readers : ℕ) (bans : Map Text Text) (s : RoomServer) → I s
        → Ends C D I (list_bans digest readers id p bans s)
    unfolding list_bans
    list_bans-Ends (c, d) readers [] s h = h
    list_bans-Ends (c, d) readers ((hash, reason) ∷ bans) s h =
        elim (Bool-cases (ltb (byte_len hash) 12)) [
          | inl short ↦ rw (list_bans, short) c
          | inr long ↦
              rw (list_bans, long)
                (bind-Ends C D I I (say_holding digest readers id p _ msg_server s) _
                  (say_holding-Ends steps digest d readers id p _ msg_server s h)
                  (list_bans-Ends (c, d) readers bans))
        ]

    pub lock_with-Ends :
        Op → (arg : Option Text) (s : RoomServer) → I s → Ends C D I (lock_with digest id p arg s)
    unfolding lock_with
    lock_with-Ends op none s h = say-Ends steps digest id p _ msg_server s h
    lock_with-Ends op (some rest) s h =
        broadcast-holds steps digest (runes "Server") _ _
          (steps.change_lock op (trim_space rest) s h)
