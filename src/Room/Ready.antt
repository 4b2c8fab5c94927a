-- ===== src/Room/Ready.antt =====
-- Commands that come to an end.
use underground_node_network.Base.{
  ◌⊎◌, ℕ, suc, ◌≡◌, ◌≢◌, refl, sym, ap, ◌∙◌, [], ◌∷◌, List, Bool, true, Option, none, some, All,
  Bool-cases, inl, inr, ltb,
}
use underground_node_network.Map.{Map}
use underground_node_network.Map.Entries.{All-get, All-put}
use underground_node_network.Text.{Text, text_key, runes, byte_len, has_prefix}
use underground_node_network.Room.{
  ChatUi, Person, RoomServer, Handled, finished, crashed, deadlocked, ◌>>=◌, on_ui, add_message,
  with_lock, set_person, is_operator, get_pub_key_hash, add_message_to_history, msg_command,
  msg_server,
}
use underground_node_network.Room.Commands.Talk.{message, say_holding, say}
use underground_node_network.Room.Commands.Moderate.{
  set_bans, set_lock, guarded, list_bans, banlist,
}
use underground_node_network.Room.Commands.{
  command_of, command_parts, cmd_banlist, handled, run_command, handle_internal_command,
}
use underground_node_network.Room.Steps.{Ends, SameStanding, HasKey, Steps}
use underground_node_network.Room.Steps.Talking.{say-Ends}
use underground_node_network.Room.Steps.Dispatch.{handle_internal_command-Ends}

-- Somebody with a screen, a bus and a key.
abbrev pub Equipped : Text × Person → Type 0
Equipped (id, p) =
    ((ui : ChatUi) × (p.chat_ui ≡ some ui))
    × ((sent : List (Map Text Text)) × (p.bus ≡ some sent))
    × ((key : Text) × (p.pub_key ≡ some key))

abbrev pub IsReady : RoomServer → Type 0
IsReady s = All Equipped s.people

moved : (p q : Person) → SameStanding p q → (id : Text) → Equipped (id, p) → Equipped (id, q)
moved p q (_, key, bus, _, ui) id ((u, has_ui), (sent, has_bus), (k, has_key)) =
    (screen q.chat_ui refl, (sent, bus ∙ has_bus), (k, key ∙ has_key))
  where
    screen : (o : Option ChatUi) → q.chat_ui ≡ o → (w : ChatUi) × (q.chat_ui ≡ some w)
    screen none e = let blind = ui e in cc
    screen (some w) e = (w, e)

all_keys : (people : List (Text × Person)) → All Equipped people → All HasKey people
all_keys [] h = tt
all_keys ((id, p) ∷ people) ((_, _, key), h) = (key, all_keys people h)

IsReady-Steps : Steps IsReady ⊥ ⊥ Unit
unfolding set_person add_message_to_history set_bans set_lock
IsReady-Steps = record {
  to_history = λ k m s h. h;
  clear_history = λ k s h. h;
  move = λ id p q s known same_one h.
      All-put Equipped id q s.people
        (moved p q same_one id (All-get Equipped id s.people p h known)) h;
  no_screen =
      λ id p s h known blind. let (u, has_ui) = (All-get Equipped id s.people p h known).0 in cc;
  keys = λ s h. inr (all_keys s.people h);
  no_bus = λ op id p s h known gone.
      let (sent, has_bus) = (All-get Equipped id s.people p h known).1 in cc;
  send = λ op id p sent s known h.
      let (ui, _, key) = All-get Equipped id s.people p h known in
      All-put Equipped id (record p { bus = some sent }) s.people (ui, (sent, refl), key) h;
  shut = λ op id p s known h.
      let e = All-get Equipped id s.people p h known in
      All-put Equipped id (record p { conn_closed = true }) s.people e h;
  ban = λ op bans s h. h;
  change_lock = λ op key s h. h;
}

finishes {ℓ} :
    {A : Type ℓ} (P : A → Type 0) (m : Handled A) → Ends ⊥ ⊥ P m → (a : A) × (m ≡ finished a) × P a
finishes P (finished a) h = (a, refl, h)
finishes P crashed h = absurd h
finishes P deadlocked h = absurd h

-- Where everybody has a screen, a bus and a key, every command line but a list of bans is done, and
-- everybody still has them.
pub handle_internal_command-finishes :
    (digest : Text → Text) (id : Text) (p : Person) (cmd : Text) (s : RoomServer)
    → IsReady s
    → command_of (command_parts cmd).0 ≢ cmd_banlist
    → (r : RoomServer × Bool) × (handle_internal_command digest id p cmd s ≡ finished r)
      × IsReady r.0
handle_internal_command-finishes digest id p cmd s ready other =
    finishes (λ r. IsReady r.0) (handle_internal_command digest id p cmd s)
      (handle_internal_command-Ends IsReady-Steps digest id p (λ t ht e. tt) cmd s
        (λ e. absurd (other e)) ready)

-- The bans and the operator stay.
abbrev Listing : RoomServer → RoomServer → Type 0
Listing s t =
    IsReady t × (t.banned_hashes ≡ s.banned_hashes) × (t.operator_pub_key ≡ s.operator_pub_key)

Listing-Steps : (s : RoomServer) → Steps (Listing s) ⊥ ⊥ ⊥
unfolding set_person add_message_to_history
Listing-Steps s = record {
  to_history = λ k m t h. h;
  clear_history = λ k t h. h;
  move = λ id p q t known same_one (h, b, o). (IsReady-Steps.move id p q t known same_one h, b, o);
  no_screen = λ id p t (h, _, _) known blind. IsReady-Steps.no_screen id p t h known blind;
  keys = λ t (h, _, _). IsReady-Steps.keys t h;
  no_bus = λ never. absurd never;
  send = λ never. absurd never;
  shut = λ never. absurd never;
  ban = λ never. absurd never;
  change_lock = λ never. absurd never;
}

-- A message from who holds the lock is never done.
say_holding-stuck :
    (digest : Text → Text) (n : ℕ) (id : Text) (p : Person) (text : Text) (s : RoomServer)
    (rest : RoomServer → Handled RoomServer)
    → ((say_holding digest (suc n) id p text msg_server s >>= rest) ≡ crashed)
      ⊎ ((say_holding digest (suc n) id p text msg_server s >>= rest) ≡ deadlocked)
unfolding say_holding with_lock
say_holding-stuck digest n id p text s rest =
    go (on_ui id (add_message (message text msg_server)) s)
  where
    over : Handled RoomServer → Handled RoomServer
    over m =
        m
        >>= (λ u.
            with_lock (suc n)
              (λ v.
                add_message_to_history v (get_pub_key_hash digest p.pub_key)
                  (message text msg_server))
              u)
        >>= rest

    go : (m : Handled RoomServer) → (over m ≡ crashed) ⊎ (over m ≡ deadlocked)
    go (finished u) = inr refl
    go crashed = inl refl
    go deadlocked = inr refl

list_bans_ends :
    (digest : Text → Text) (n : ℕ) (id : Text) (p : Person) (bans : Map Text Text) (s : RoomServer)
    → ((bans ≡ []) × (list_bans digest (suc n) id p bans s ≡ finished s))
      ⊎ ((bans ≢ [])
          × ((list_bans digest (suc n) id p bans s ≡ crashed)
              ⊎ (list_bans digest (suc n) id p bans s ≡ deadlocked)))
unfolding list_bans
list_bans_ends digest n id p [] s = inl (refl, refl)
list_bans_ends digest n id p ((h, reason) ∷ bans) s = inr (
  (λ e. cc),
  elim (Bool-cases (ltb (byte_len h) 12)) [
    | inl short ↦ inl (rw (list_bans, short) refl)
    | inr long ↦
        rw (list_bans, long)
          (say_holding-stuck digest n id p _ s (list_bans digest (suc n) id p bans))
  ],
)

-- Where everybody has a screen, a bus and a key, the operator's list of bans is done exactly if there
-- are no bans: with one, the server crashes or waits for ever.
pub handle_internal_command-banlist :
    (digest : Text → Text) (id : Text) (p : Person) (cmd : Text) (s : RoomServer)
    → IsReady s
    → is_operator p.pub_key s ≡ true
    → has_prefix cmd (runes "/") ≡ true
    → command_of (command_parts cmd).0 ≡ cmd_banlist
    → ((s.banned_hashes ≡ [])
        × ((t : RoomServer) × (handle_internal_command digest id p cmd s ≡ finished (t, true))))
      ⊎ ((s.banned_hashes ≢ [])
          × ((handle_internal_command digest id p cmd s ≡ crashed)
              ⊎ (handle_internal_command digest id p cmd s ≡ deadlocked)))
unfolding handle_internal_command run_command banlist guarded handled is_operator
handle_internal_command-banlist digest id p cmd s ready is_op slash is_list =
    let title = runes "--- Banned Users ---" in
    let (t, said, (ready_t, bans_t, op_t)) =
      finishes (Listing s) (say digest id p cmd msg_command s)
        (say-Ends (Listing-Steps s) digest id p cmd msg_command s (ready, refl, refl)) in
    let (u, titled, (_, bans_u, _)) =
      finishes (Listing s) (say digest id p title msg_server t)
        (say-Ends (Listing-Steps s) digest id p title msg_server t (ready_t, bans_t, op_t)) in
    let op_in_t : is_operator p.pub_key t ≡ true = rw op_t is_op in
    let law : handle_internal_command digest id p cmd s
        ≡ handled (list_bans digest 1 id p u.banned_hashes u) =
      rw
        (
          handle_internal_command, slash, said, is_list, run_command, banlist, guarded, op_in_t,
          titled,
        )
        refl in
    elim (list_bans_ends digest 0 id p u.banned_hashes u) [
      | inl (none_left, done) ↦ inl (sym bans_u ∙ none_left, (u, law ∙ ap handled done))
      | inr (some_left, inl crash) ↦
          inr ((λ e. some_left (bans_u ∙ e)), inl (law ∙ ap handled crash))
      | inr (some_left, inr wait) ↦ inr ((λ e. some_left (bans_u ∙ e)), inr (law ∙ ap handled wait))
    ]
