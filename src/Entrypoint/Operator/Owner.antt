-- ===== src/Entrypoint/Operator/Owner.antt =====
-- The operators' messages never crash the server, and a registered name keeps its owner.
use underground_node_network.Base.{
  ◌≡◌, ◌⊎◌, refl, sym, ap, ◌∙◌, subst, [], ◌∷◌, List, Bool, true, false, not, ◌&&◌, Option, none,
  some, Outcome, returns, if◌then◌else◌, Bool-cases, inl, inr, All, Option-cases, some_injective,
}
use underground_node_network.Map.{get, put, delete}
use underground_node_network.Text.{Text, text_eq, text_key, Lacks}
use underground_node_network.Text.Split.{split, split-All-Lacks}
use underground_node_network.Protocol.{RegisterPayload, PunchAnswerPayload}
use underground_node_network.Entrypoint.Names.{is_valid_room_name}
use underground_node_network.Entrypoint.State.{Server, Conn, PunchSession, PersonChan}
use underground_node_network.Entrypoint.Store.{three}
use underground_node_network.Entrypoint.Operator.{
  OperatorMessage, register_msg, unregister_msg, punch_answer_msg, other_msg, Session, send_error,
  write_registry, payload_host_hash, is_owner, register_again, register_new, host_key_hash,
  register_parts, handle_register, go_online, send_room_list, handle_unregister,
  handle_punch_answer, offer, punch_start, operator_step, handle_operator,
}
use underground_node_network.Entrypoint.Operator.Keeps.{
  owner_of, IsOwnedBy, AllOwned, Keeps, owner_of-three, owner_of-some, write_registry-Keeps,
  split_parts, Keeps-refl, Keeps-same,
}

module _ (key_hash : Text → Option Text) (hex : (k h : Text) → key_hash k ≡ some h → Lacks b' ' h)
    (today : Text) (conn : Conn) where
  -- The step returns, and what it leaves follows the server before it.
  Follows : Server → Outcome Session → Type 0
  Follows s o = (f : Session) × (o ≡ returns f) × Keeps s f.server

  payload_host_hash-Lacks :
      (p : RegisterPayload) → Lacks b' ' (payload_host_hash key_hash today conn p)
  unfolding payload_host_hash
  payload_host_hash-Lacks p = go p.public_keys
    where
      try :
          (key : Text) (o : Option Text)
          → key_hash key ≡ o
          → Lacks b' ' (elim o as (λ _. Text) [ none ↦ [] | some hash ↦ hash ])
      try key none e = tt
      try key (some hash) e = hex key hash e

      go :
          (keys : List Text)
          → Lacks b' ' (elim keys as (λ _. Text) [
            | [] ↦ []
            | key ∷ _ ↦ elim (key_hash key) [ none ↦ [] | some hash ↦ hash ]
          ])
      go [] = tt
      go (key ∷ keys) = try key (key_hash key) refl

  -- The registry after a name is registered again.
  again-Keeps :
      (s : Server) (name info host owner hash : Text) (rest : List Text)
      → AllOwned s
      → get name s.registered_rooms ≡ some info
      → split info b' ' ≡ host ∷ owner ∷ rest
      → Lacks b' ' hash
      → Keeps s (write_registry s name (three hash owner today))
  again-Keeps s name info host owner hash rest all known parts clean =
      let (_, (clean_owner, _)) = subst (All (Lacks b' ')) parts (split-All-Lacks info b' ') in
      let now = owner_of-three hash owner today clean clean_owner in
      let before : owner_of info ≡ some owner = rw (owner_of, parts) refl in
      write_registry-Keeps s name (three hash owner today) all (owner, now)
        (λ old (i, k, of). now ∙ sym before ∙ ap owner_of (some_injective (sym known ∙ k)) ∙ of)

  go_online-Keeps :
      (s : Server) (e : Session) (p : RegisterPayload)
      → Keeps s e.server
      → Keeps s (go_online key_hash today conn e p).server
  unfolding go_online send_room_list
  go_online-Keeps s e p k = k

  -- The registration is rejected, or it is made and the owner stays.
  Decided : Server → Option Session → Type 0
  Decided s o = (o ≡ none) ⊎ ((next : Session) × (o ≡ some next) × Keeps s next.server)

  -- The registration made.
  abbrev recorded : Session → RegisterPayload → Text → Text → Text → Session
  recorded e p hash owner username = record e {
    username = username;
    server = write_registry e.server p.room_name (three hash owner today);
  }

  register_again-Decided :
      (e : Session) (p : RegisterPayload) (info host owner : Text) (rest : List Text)
      → AllOwned e.server
      → get p.room_name e.server.registered_rooms ≡ some info
      → split info b' ' ≡ host ∷ owner ∷ rest
      → Decided e.server (register_again key_hash today conn e p host owner)
  unfolding register_again Decided
  register_again-Decided e p info host owner rest all known parts =
      let hash = payload_host_hash key_hash today conn p in
      let (clean_host, _) = subst (All (Lacks b' ')) parts (split-All-Lacks info b' ') in
      let kept =
        again-Keeps e.server p.room_name info host owner host rest all known parts clean_host in
      let rotated =
        again-Keeps e.server p.room_name info host owner hash rest all known parts
          (payload_host_hash-Lacks p) in
      elim (Bool-cases (not (text_eq hash []) && not (text_eq hash host))) [
        | inr matching ↦
            inr (recorded e p host owner owner, rw (register_again, matching) refl, kept)
        | inl other ↦ elim (Bool-cases (is_owner key_hash today conn owner)) [
          | inl mine ↦
              inr (recorded e p hash owner owner, rw (register_again, other, mine) refl, rotated)
          | inr stranger ↦ inl (rw (register_again, other, stranger) refl)
        ]
      ]

  register_new-Decided :
      (e : Session) (p : RegisterPayload)
      → AllOwned e.server
      → get p.room_name e.server.registered_rooms ≡ none
      → Decided e.server (register_new key_hash today conn e p)
  unfolding register_new Decided
  register_new-Decided e p all unknown =
      let info = three (host_key_hash key_hash today conn p) e.username today in
      elim (Bool-cases (is_valid_room_name p.room_name)) [
        | inl valid ↦ inr (
          recorded e p (host_key_hash key_hash today conn p) e.username e.username,
          rw (register_new, valid) refl,
          write_registry-Keeps e.server p.room_name info all
              (owner_of-some (host_key_hash key_hash today conn p) e.username today)
              (λ old (i, k, of). let gone = sym unknown ∙ k in cc),
        )
        | inr invalid ↦ inl (rw (register_new, invalid) refl)
      ]

  -- What the rest of the handler does with the decision.
  finish :
      (e : Session) (p : RegisterPayload) (o : Option Session) (message : Text)
      → AllOwned e.server
      → Decided e.server o
      → Follows e.server (
          returns (elim o [
            | none ↦ send_error e message
            | some next ↦ go_online key_hash today conn next p
          ]))
  unfolding Decided Follows send_error
  finish e p o message all (inl rejected) = rw rejected (_, refl, Keeps-refl e.server all)
  finish e p o message all (inr (next, made, keeps)) =
      rw made (_, refl, go_online-Keeps e.server next p keeps)

  handle_register-Follows :
      (e : Session) (p : RegisterPayload)
      → AllOwned e.server
      → Follows e.server (handle_register key_hash today conn e p)
  unfolding handle_register register_parts
  handle_register-Follows e p all =
      elim (Option-cases (get p.room_name e.server.registered_rooms)) [
        | inl unknown ↦
            rw (handle_register, unknown)
              (finish e p (register_new key_hash today conn e p) _ all
                (register_new-Decided e p all unknown))
        | inr (info, known) ↦
            let (owner, owned) = all p.room_name info known in
            let (host, rest, parts) = split_parts info owner owned in
            rw (handle_register, known, parts)
              (finish e p (register_again key_hash today conn e p host owner) _ all
                (register_again-Decided e p info host owner rest all known parts))
      ]

  unregister-same :
      (e : Session)
      → (handle_unregister key_hash today conn e).server.registered_rooms
        ≡ e.server.registered_rooms
  unfolding handle_unregister
  unregister-same e = go (text_eq e.room_name [])
    where
      offline : Session
      offline = record e {
        server = record e.server { rooms = delete e.room_name e.server.rooms };
        room_name = [];
      }

      go :
          (b : Bool)
          → (if not b then offline else e).server.registered_rooms ≡ e.server.registered_rooms
      go true = refl
      go false = refl

  punch_answer-same :
      (e : Session) (p : PunchAnswerPayload)
      → (handle_punch_answer key_hash today conn e p).server.registered_rooms
        ≡ e.server.registered_rooms
  unfolding handle_punch_answer
  punch_answer-same e p = go (get p.person_id e.server.punch_sessions)
    where
      sent : PunchSession → PersonChan → Session
      sent session c = record e {
        server = record e.server {
          punch_sessions =
              put p.person_id
                record session {
                  person_chan =
                      some
                        (offer key_hash today conn c (punch_start key_hash today conn session p));
                }
                e.server.punch_sessions;
        };
      }

      there :
          (session : PunchSession) (o : Option PersonChan)
          → (elim o as (λ _. Session) [
            | none ↦ e
            | some c ↦ sent session c
          ]).server.registered_rooms
            ≡ e.server.registered_rooms
      there session none = refl
      there session (some c) = refl

      go :
          (o : Option PunchSession)
          → (elim o as (λ _. Session) [
            | none ↦ e
            | some session ↦ elim session.person_chan [ none ↦ e | some c ↦ sent session c ]
          ]).server.registered_rooms
            ≡ e.server.registered_rooms
      go none = refl
      go (some session) = there session session.person_chan

  operator_step-Follows :
      (e : Session) (m : OperatorMessage)
      → AllOwned e.server
      → Follows e.server (operator_step key_hash today conn e m)
  unfolding operator_step send_error Follows
  operator_step-Follows e (register_msg none) all = (_, refl, Keeps-refl e.server all)
  operator_step-Follows e (register_msg (some p)) all = handle_register-Follows e p all
  operator_step-Follows e unregister_msg all = (
    handle_unregister key_hash today conn e,
    refl,
    Keeps-same e.server (handle_unregister key_hash today conn e).server all (unregister-same e),
  )
  operator_step-Follows e (punch_answer_msg none) all = (_, refl, Keeps-refl e.server all)
  operator_step-Follows e (punch_answer_msg (some p)) all = (
    handle_punch_answer key_hash today conn e p,
    refl,
    Keeps-same e.server (handle_punch_answer key_hash today conn e p).server all
        (punch_answer-same e p),
  )
  operator_step-Follows e other_msg all = (_, refl, Keeps-refl e.server all)

  -- Where key hashes have no spaces and every registered entry has an owner: whatever messages an
  -- operator sends, the server does not crash, every entry has an owner afterwards, and each name that
  -- was registered still has the owner that it had.
  pub handle_operator-Keeps :
      (e : Session) (ms : List OperatorMessage)
      → AllOwned e.server
      → (f : Session) × (handle_operator key_hash today conn e ms ≡ returns f)
        × AllOwned f.server
        × ((name owner : Text) → IsOwnedBy e.server name owner → IsOwnedBy f.server name owner)
  unfolding handle_operator Follows
  handle_operator-Keeps e [] all = (e, refl, all, λ n o h. h)
  handle_operator-Keeps e (m ∷ ms) all =
      let (f, run, (all', stays)) = operator_step-Follows e m all in
      let (g, run', all2, stays') = handle_operator-Keeps f ms all' in
      (g, rw run run', all2, λ n o h. stays' n o (stays n o h))
