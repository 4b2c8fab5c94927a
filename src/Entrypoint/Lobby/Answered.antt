-- ===== src/Entrypoint/Lobby/Answered.antt =====
-- What operators answer while somebody waits: the first answer with the id fills the channel.
use underground_node_network.Base.{
  ◌≡◌, ◌≢◌, refl, ap, ◌∙◌, [], ◌∷◌, ◌++◌, List, false, Option, some, All, Bool-cases, Option-cases,
  inl, inr, same, arith,
}
use underground_node_network.Map.{get, get-put, same_self}
use underground_node_network.Text.{Text, text_eq_iff, text_key}
use underground_node_network.Protocol.{PunchAnswerPayload, PunchStartPayload}
use underground_node_network.Entrypoint.State.{Conn, PunchSession}
use underground_node_network.Entrypoint.Operator.{Session, offer, punch_start, handle_punch_answer}

-- The session of a join, with what is in its channel.
abbrev pub waiting : Text → List PunchStartPayload → PunchSession
waiting room_name queue = record {
  room_name = room_name;
  person_chan = some (record { capacity = 1; queue = queue });
}

-- What an answer tells the person.
abbrev pub start_of : Text → PunchAnswerPayload → PunchStartPayload
start_of room_name a = record {
  room_name = room_name;
  candidates = a.candidates;
  ssh_port = a.ssh_port;
  public_keys = [];
}

module _ (key_hash : Text → Option Text) (today : Text) (conn : Conn) (id room_name : Text) where
  -- Answers that operators send, one after the other.
  abbrev pub answer_all : Session → List PunchAnswerPayload → Session
  answer_all e [] = e
  answer_all e (a ∷ answers) = answer_all (handle_punch_answer key_hash today conn e a) answers

  abbrev pub Waits : List PunchStartPayload → Session → Type 0
  Waits queue e = get id e.server.punch_sessions ≡ some (waiting room_name queue)

  answer_other :
      (queue : List PunchStartPayload) (e : Session) (a : PunchAnswerPayload)
      → a.person_id ≢ id
      → Waits queue e
      → Waits queue (handle_punch_answer key_hash today conn e a)
  unfolding handle_punch_answer
  answer_other queue e a ne h = elim (Option-cases (get a.person_id e.server.punch_sessions)) [
    | inl nobody ↦ rw (handle_punch_answer, nobody) h
    | inr (session, there) ↦ elim (Option-cases session.person_chan) [
      | inl closed ↦ rw (handle_punch_answer, there, closed) h
      | inr (c, open_one) ↦
          let apart : same a.person_id id ≡ false = ground (arith, text_eq_iff a.person_id id) in
          rw (handle_punch_answer, there, open_one, get-put, apart) h
    ]
  ]

  answer_mine :
      (e : Session) (a : PunchAnswerPayload)
      → a.person_id ≡ id
      → Waits [] e
      → Waits (start_of room_name a ∷ []) (handle_punch_answer key_hash today conn e a)
  unfolding handle_punch_answer offer punch_start
  answer_mine e a eq h =
      let there : get a.person_id e.server.punch_sessions ≡ some (waiting room_name []) =
        ap (λ k. get k e.server.punch_sessions) eq ∙ h in
      rw (handle_punch_answer, there, get-put, eq, same_self id) refl

  answer_full :
      (start : PunchStartPayload) (e : Session) (a : PunchAnswerPayload)
      → Waits (start ∷ []) e
      → Waits (start ∷ []) (handle_punch_answer key_hash today conn e a)
  unfolding handle_punch_answer offer
  answer_full start e a h = elim (Bool-cases (same a.person_id id)) [
    | inr ne ↦ answer_other (start ∷ []) e a (λ eq. ground (arith, text_eq_iff a.person_id id)) h
    | inl eq ↦
        let is_id : a.person_id ≡ id = (text_eq_iff a.person_id id).0 eq in
        let there : get a.person_id e.server.punch_sessions
            ≡ some (waiting room_name (start ∷ [])) =
          ap (λ k. get k e.server.punch_sessions) is_id ∙ h in
        rw (handle_punch_answer, there, get-put, is_id, same_self id) refl
  ]

  answers_full :
      (start : PunchStartPayload) (e : Session) (answers : List PunchAnswerPayload)
      → Waits (start ∷ []) e
      → Waits (start ∷ []) (answer_all e answers)
  answers_full start e [] h = h
  answers_full start e (a ∷ answers) h =
      answers_full start (handle_punch_answer key_hash today conn e a) answers
        (answer_full start e a h)

  pub answers_others :
      (e : Session) (answers : List PunchAnswerPayload)
      → All (λ a. a.person_id ≢ id) answers
      → Waits [] e
      → Waits [] (answer_all e answers)
  answers_others e [] _ h = h
  answers_others e (a ∷ answers) (ne, rest) h =
      answers_others (handle_punch_answer key_hash today conn e a) answers rest
        (answer_other [] e a ne h)

  pub answer_all-first :
      (e : Session) (before : List PunchAnswerPayload) (a : PunchAnswerPayload)
      (later : List PunchAnswerPayload)
      → All (λ b. b.person_id ≢ id) before
      → a.person_id ≡ id
      → Waits [] e
      → Waits (start_of room_name a ∷ []) (answer_all e (before ++ a ∷ later))
  answer_all-first e [] a later _ mine h =
      answers_full (start_of room_name a) (handle_punch_answer key_hash today conn e a) later
        (answer_mine e a mine h)
  answer_all-first e (b ∷ before) a later (ne, rest) mine h =
      answer_all-first (handle_punch_answer key_hash today conn e b) before a later rest mine
        (answer_other [] e b ne h)
