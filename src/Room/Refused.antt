-- ===== src/Room/Refused.antt =====
-- Somebody who was banned does not come back.
use underground_node_network.Base.{
  ◌≡◌, refl, sym, ap, ◌∙◌, subst, ℕ, Bool, true, Option, some, Option-cases, inl, inr,
}
use underground_node_network.Map.{Map, get, put, get-put_self}
use underground_node_network.Text.{Text, text_key, runes, has_prefix, trim_space}
use underground_node_network.Room.{
  Person, RoomServer, Handled, finished, crashed, deadlocked, ◌>>=◌, set_person, send_osc,
  close_conn, is_operator, get_pub_key_hash, broadcast, msg_command,
}
use underground_node_network.Room.Commands.Talk.{say, two_words}
use underground_node_network.Room.Commands.Moderate.{
  announcement, set_bans, reason_of, is_target, find_target, guarded, throw_out, ban_with, kickban,
}
use underground_node_network.Room.Commands.{
  command_of, command_parts, cmd_kickban, handled, run_command, handle_internal_command,
}
use underground_node_network.Room.Connections.{ban_reason, refused, handle_connection}
use underground_node_network.Room.Steps.{Ends}
use underground_node_network.Room.Steps.Talking.{say-Ends, broadcast-holds}
use underground_node_network.Room.Authority.{Follows, Follows-Steps}
use underground_node_network.Room.Finding.{Found, Found-Steps}

bind-finished {ℓ κ} :
    {A : Type ℓ} {B : Type κ} (m : Handled A) (f : A → Handled B) (r : B)
    → (m >>= f) ≡ finished r
    → (t : A) × (m ≡ finished t) × (f t ≡ finished r)
bind-finished (finished a) f r e = (a, refl, e)
bind-finished crashed f r e = cc
bind-finished deadlocked f r e = cc

finished_injective {ℓ} : {A : Type ℓ} {a b : A} → finished a ≡ finished b → a ≡ b
finished_injective e = cc

-- The calls that leave the bans.
abbrev SameBans : RoomServer → RoomServer → Type 0
SameBans s t = t.banned_hashes ≡ s.banned_hashes

send_osc-SameBans :
    (id action : Text) (params : Map Text Text) (s : RoomServer)
    → Ends Unit Unit (SameBans s) (send_osc id action params s)
unfolding send_osc set_person
send_osc-SameBans id action params s = elim (Option-cases (get id s.people)) [
  | inl gone ↦ rw (send_osc, gone) refl
  | inr (p, known) ↦ elim (Option-cases p.bus) [
    | inl no_bus ↦ rw (send_osc, known, no_bus) tt
    | inr (sent, bus) ↦ rw (send_osc, known, bus) refl
  ]
]

close_conn-SameBans : (id : Text) (s : RoomServer) → SameBans s (close_conn id s)
unfolding close_conn set_person
close_conn-SameBans id s = elim (Option-cases (get id s.people)) [
  | inl gone ↦ rw (close_conn, gone) refl
  | inr (p, known) ↦ rw (close_conn, known) refl
]

throw_out-SameBans :
    (digest : Text → Text) (target_id : Text) (target : Person) (by verb title text reason : Text)
    (s t : RoomServer)
    → throw_out digest target_id target by verb title text reason s ≡ finished t
    → SameBans s t
unfolding throw_out
throw_out-SameBans digest target_id target by verb title text reason s t e =
    let (u, sent, closed) = bind-finished (send_osc target_id (runes "popup") _ _) _ t e in
    let is_t : close_conn target_id u ≡ t = finished_injective closed in
    let said = announcement target.username verb by reason in
    let shown =
      broadcast-holds (Follows-Steps s) digest (runes "Server") said s
        (refl, refl, refl, refl, refl, λ j. refl) in
    ap (λ v. v.banned_hashes) (sym is_t)
    ∙ close_conn-SameBans target_id u
    ∙ subst (Ends Unit Unit (SameBans (broadcast digest s (runes "Server") said))) sent
        (send_osc-SameBans target_id (runes "popup") _ _)
    ∙ shown.1

handled-finished_eq :
    (m : Handled RoomServer) (r : RoomServer × Bool) → handled m ≡ finished r → m ≡ finished r.0
unfolding handled
handled-finished_eq m r e =
    let (t, done, eq) = bind-finished m (λ s. finished (s, true)) r e in
    done ∙ ap (λ x. finished x.0) (finished_injective eq)

banned-refused :
    (digest : Text → Text) (hash reason : Text) (bans : Map Text Text) (t : RoomServer)
    (user : Text) (key : Option Text) (now : ℕ)
    → t.banned_hashes ≡ put hash reason bans
    → get_pub_key_hash digest key ≡ hash
    → handle_connection digest user key now t ≡ finished (refused reason t)
unfolding handle_connection ban_reason
banned-refused digest hash reason bans t user key now e h =
    let found : ban_reason (get_pub_key_hash digest key) t.banned_hashes ≡ some reason =
      rw (e, h, ban_reason, get-put_self hash reason bans) refl in
    rw (handle_connection, found) refl

-- When the operator's /kickban of somebody who is there is done, whoever connects with a key of the
-- same hash is refused, for the reason that was given, and the room stays as it is.
pub handle_internal_command-kickban :
    (digest : Text → Text) (id : Text) (p : Person) (cmd rest : Text) (target : Text × Person)
    (s : RoomServer) (r : RoomServer × Bool)
    → is_operator p.pub_key s ≡ true
    → has_prefix cmd (runes "/") ≡ true
    → command_of (command_parts cmd).0 ≡ cmd_kickban
    → (command_parts cmd).1 ≡ some rest
    → find_target digest (trim_space (two_words rest).0) s.people ≡ some target
    → handle_internal_command digest id p cmd s ≡ finished r
    → (user : Text) (key : Option Text) (now : ℕ)
    → get_pub_key_hash digest key ≡ get_pub_key_hash digest target.1.pub_key
    → handle_connection digest user key now r.0
      ≡ finished (refused (reason_of (two_words rest).1) r.0)
unfolding handle_internal_command run_command kickban ban_with guarded find_target is_operator
    set_bans
handle_internal_command-kickban digest id p cmd rest target s r is_op slash is_kickban has_arg found
      e user key now same_hash =
    let name = trim_space (two_words rest).0 in
    let reason = reason_of (two_words rest).1 in
    let test = is_target digest name in
    let (t, said, runs) =
      bind-finished (say digest id p cmd msg_command s) _ r
        (rw (handle_internal_command, slash) at e) in
    let (o, b, _, _, _, _) = subst (Ends Unit Unit (Follows s)) said (
      say-Ends (Follows-Steps s) digest id p cmd msg_command s
        (refl, refl, refl, refl, refl, λ j. refl)) in
    let (target_id, q, found_t, has_key) =
      subst (Ends Unit Unit (Found test target.1.pub_key)) said (
        say-Ends
          (Found-Steps test target.1.pub_key (λ x y same_one. rw (same_one.0, same_one.1) refl))
          digest id p cmd msg_command s (target.0, target.1, found, refl)) in
    let op_in_t : is_operator p.pub_key t ≡ true = rw o is_op in
    let hash = get_pub_key_hash digest q.pub_key in
    let done = handled-finished_eq _ r (
      rw (is_kickban, has_arg, run_command, kickban, guarded, op_in_t, ban_with, found_t) at
        runs) in
    let bans = throw_out-SameBans digest target_id q p.username _ _ _ reason _ r.0 done in
    banned-refused digest hash reason t.banned_hashes r.0 user key now bans
      (same_hash ∙ ap (get_pub_key_hash digest) (sym has_key))
