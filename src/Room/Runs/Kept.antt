-- ===== src/Room/Runs/Kept.antt =====
-- The invariants of a room are kept by whatever happens to it.
use underground_node_network.Base.{
  ◌≡◌, [], ◌∷◌, refl, List, Bool, true, false, Option, none, some, Outcome, returns, panics, All,
  Option-cases, Bool-cases, inl, inr, if◌then◌else◌,
}
use underground_node_network.Map.{get}
use underground_node_network.Text.{Text, text_eq, text_key, runes, has_prefix, trim_space}
use underground_node_network.Text.Split.{split}
use underground_node_network.Doors.{is_door}
use underground_node_network.Ui.Password.{Event, passes_lock}
use underground_node_network.Room.{
  Message, ChatUi, Person, RoomServer, finished, crashed, msg_system, close_conn, is_operator,
  get_pub_key_hash,
}
use underground_node_network.Room.Connections.{
  update_people_list, handle_connection, show_banner, welcome, show_history, open_screen,
}
use underground_node_network.Room.Runs.{
  passes_handshake, RoomEvent, authorizes, connects, leaves, gets_pty, starts, sends, commands,
  runs, closes, state_behind, door_name, start_door, run_words, handle_command, on_send, on_cmd,
  start, step_of, at_session, step, run,
}
use underground_node_network.Room.Steps.{Ends, bind-Ends, on_ui_if-holds}
use underground_node_network.Room.Steps.Talking.{broadcast-holds, broadcast_with_history-holds}
use underground_node_network.Room.Steps.Dispatch.{handle_internal_command-Ends}
use underground_node_network.Room.Runs.Arrivals.{
  Invariant, HasKey, Comes, handle_connection-Ends, leave-holds,
}

module _ {I : RoomServer → Type 0} {Op : Type 0} {Key : Text → Type 0} (inv : Invariant I Op Key)
    (digest : Text → Text) where
  show_banner-holds :
      (hash : Text) (lines : List Text) (ui : ChatUi) (s : RoomServer)
      → I s
      → I (show_banner hash lines ui s).1
  unfolding show_banner
  show_banner-holds hash [] ui s h = h
  show_banner-holds hash (line ∷ lines) ui s h =
      show_banner-holds hash lines _ _ (inv.steps.to_history hash _ s h)

  show_history-holds :
      (hash username : Text) (banner : Option Text) (ms : List Message) (ui : ChatUi)
      (s : RoomServer)
      → I s
      → I (show_history hash username banner ms ui s).1
  unfolding show_history welcome
  show_history-holds hash username none [] ui s h = h
  show_history-holds hash username (some banner) [] ui s h =
      show_banner-holds hash (split banner 10) ui s h
  show_history-holds hash username banner (m ∷ ms) ui s h = h

  open_screen-holds :
      (id : Text) (p : Person) (banner : Option Text) (s : RoomServer)
      → get id s.people ≡ some p
      → I s
      → I (open_screen digest id p banner s)
  unfolding open_screen update_people_list
  open_screen-holds id p banner s known h = on_ui_if-holds inv.steps id _ _ (
      inv.attach id p _ s _ known refl h
        (show_history-holds (get_pub_key_hash digest p.pub_key) p.username banner _ _ s h))

  close_conn_holds : (id : Text) (s : RoomServer) → I s → I (close_conn id s)
  unfolding close_conn
  close_conn_holds id s h = elim (Option-cases (get id s.people)) [
    | inl gone ↦ rw (close_conn, gone) h
    | inr (p, known) ↦ rw (close_conn, known) (inv.attach id p _ s s known refl h h)
  ]

  start-Ends :
      (id : Text) (p : Person) (screen_ok : Bool) (keys : List Event) (banner : Option Text)
      (s : RoomServer)
      → get id s.people ≡ some p
      → I s
      → Ends Unit Unit I (start digest id p screen_ok keys banner s)
  unfolding start
  start-Ends id p screen_ok keys banner s known h =
      go (passes_lock s.room_lock_key (is_operator p.pub_key s) s.headless screen_ok keys)
    where
      decided :
          (b : Bool)
          → Ends Unit Unit I (
              if b then finished (open_screen digest id p banner s) else finished (close_conn id s))
      decided true = open_screen-holds id p banner s known h
      decided false = close_conn_holds id s h

      go :
          (o : Outcome (Option Bool))
          → Ends Unit Unit I (elim o [
            | panics ↦ crashed
            | returns answer ↦ elim answer [
              | none ↦ finished s
              | some passed ↦
                  if passed
                  then finished (open_screen digest id p banner s)
                  else finished (close_conn id s)
            ]
          ])
      go panics = tt
      go (returns none) = h
      go (returns (some b)) = decided b

  start_door-holds :
      (p : Person) (name : Text) (s : RoomServer) → I s → I (start_door digest p name s).0
  unfolding start_door
  start_door-holds p name s h = elim (Bool-cases (is_door name s.door_manager)) [
    | inl there ↦
        rw (start_door, there)
          (broadcast_with_history-holds inv.steps digest p.pub_key _ msg_system s h)
    | inr missing ↦ rw (start_door, missing) h
  ]

  run_words-holds :
      (p : Person) (ws : List Text) (s : RoomServer) → I s → I (run_words digest p ws s).0
  unfolding run_words
  run_words-holds p [] s h = h
  run_words-holds p (word ∷ rest) s h =
      elim (Bool-cases (text_eq (door_name word rest s.door_manager) [])) [
        | inl no_door ↦ rw (run_words, no_door) h
        | inr door ↦
            rw (run_words, door) (start_door-holds p (door_name word rest s.door_manager) s h)
      ]

  handle_command-holds :
      (id input : Text) (s : RoomServer) → I s → I (handle_command digest id input s).0
  unfolding handle_command
  handle_command-holds id input s h = elim (Option-cases (get id s.people)) [
    | inl gone ↦ rw (handle_command, gone) h
    | inr (p, known) ↦ elim (Bool-cases (text_eq (trim_space input) [])) [
      | inl blank ↦ rw (handle_command, known, blank) h
      | inr line ↦ elim (Bool-cases (has_prefix (trim_space input) (runes "/"))) [
        | inl slash ↦ rw (handle_command, known, line, slash) (run_words-holds p _ s h)
        | inr plain ↦
            rw (handle_command, known, line, plain)
              (broadcast-holds inv.steps digest p.username (trim_space input) s h)
      ]
    ]
  ]

  on_send-holds : (p : Person) (msg : Text) (s : RoomServer) → I s → I (on_send digest p msg s)
  unfolding on_send
  on_send-holds p msg s h = elim (Bool-cases (text_eq (trim_space msg) [])) [
    | inl blank ↦ rw (on_send, blank) h
    | inr line ↦
        rw (on_send, line)
          (broadcast-holds inv.steps digest p.username msg _
            (inv.typed (get_pub_key_hash digest p.pub_key) msg s h))
  ]

  on_cmd-Ends :
      (id : Text) (p : Person) (cmd : Text) (s : RoomServer)
      → HasKey Key p.pub_key
      → I s
      → Ends Unit Unit (λ r. I r.0) (on_cmd digest id p cmd s)
  unfolding on_cmd
  on_cmd-Ends id p cmd s k h =
      handle_internal_command-Ends inv.steps digest id p (λ t. inv.op_of p.pub_key t k) cmd _
        (λ _. (tt, tt)) (inv.typed (get_pub_key_hash digest p.pub_key) cmd s h)

  step_of-Ends :
      (e : RoomEvent) (id : Text) (p : Person) (s : RoomServer)
      → get id s.people ≡ some p
      → I s
      → Ends Unit Unit I (step_of digest e id p s)
  unfolding step_of
  step_of-Ends (gets_pty _) id p s known h = inv.attach id p _ s s known refl h h
  step_of-Ends (starts _ ok keys banner) id p s known h = start-Ends id p ok keys banner s known h
  step_of-Ends (sends _ _) id p s known h = h
  step_of-Ends (commands _ _ _) id p s known h = h
  step_of-Ends (authorizes _ _) id p s known h = h
  step_of-Ends (connects _ _ _) id p s known h = h
  step_of-Ends (leaves _) id p s known h = h
  step_of-Ends (runs _ _) id p s known h = h
  step_of-Ends (closes _) id p s known h = h

  at_session-Ends :
      (e : RoomEvent) (id : Text) (s : RoomServer)
      → I s
      → Ends Unit Unit I (at_session digest e id s)
  unfolding at_session
  at_session-Ends e id s h = elim (Option-cases (get id s.people)) [
    | inl gone ↦ rw (at_session, gone) h
    | inr (p, known) ↦ rw (at_session, known) (step_of-Ends e id p s known h)
  ]

  pub step-Ends :
      (e : RoomEvent) (s : RoomServer) → Comes Key e → I s → Ends Unit Unit I (step digest e s)
  unfolding step
  step-Ends (authorizes key name) s k h = inv.authorize key name s h
  step-Ends (connects user key now) s k h = elim (Bool-cases (passes_handshake key s)) [
    | inr unknown ↦ rw (step, unknown) h
    | inl known ↦
        rw (step, known)
          (bind-Ends Unit Unit (λ c. I (state_behind c)) I (handle_connection digest user key now s)
            _ (handle_connection-Ends inv digest user key now s k h) (λ c hc. hc))
  ]
  step-Ends (leaves id) s k h = leave-holds inv digest id s h
  step-Ends (gets_pty id) s k h = at_session-Ends (gets_pty id) id s h
  step-Ends (starts id ok keys banner) s k h = at_session-Ends (starts id ok keys banner) id s h
  step-Ends (sends p msg) s k h = on_send-holds p msg s h
  step-Ends (commands id p cmd) s k h =
      bind-Ends Unit Unit (λ r. I r.0) I (on_cmd digest id p cmd s) _ (on_cmd-Ends id p cmd s k h)
        (λ r hr. hr)
  step-Ends (runs id input) s k h = handle_command-holds id input s h
  step-Ends (closes id) s k h = close_conn_holds id s h

  pub run-Ends :
      (es : List RoomEvent) (s : RoomServer)
      → All (Comes Key) es
      → I s
      → Ends Unit Unit I (run digest es s)
  unfolding run
  run-Ends [] s k h = h
  run-Ends (e ∷ es) s (ke, kes) h =
      bind-Ends Unit Unit I I (step digest e s) _ (step-Ends e s ke h) (λ t. run-Ends es t kes)

-- Nothing is asked of the keys.
pub All-Comes : (es : List RoomEvent) → All (Comes (λ _. Unit)) es
All-Comes [] = tt
All-Comes (e ∷ es) = (comes e, All-Comes es)
  where
    shows : (key : Option Text) → HasKey (λ _. Unit) key
    shows none = tt
    shows (some key) = tt

    comes : (e : RoomEvent) → Comes (λ _. Unit) e
    comes (connects user (some key) now) = tt
    comes (sends p msg) = shows p.pub_key
    comes (commands id p cmd) = shows p.pub_key
    comes _ = tt
