-- ===== src/Entrypoint/Api/Answers.antt =====
-- api_ssh.go of internal/entrypoint: the answers to the messages of the API.
use underground_node_network.Base.{
  ℕ, ◌+◌, ◌≡◌, [], ◌∷◌, List, Bool, Option, none, some, length, length-append, arith, Bool-cases,
  Option-cases, inl, inr,
}
use underground_node_network.Map.{get}
use underground_node_network.Text.{Text, text_key}
use underground_node_network.Protocol.{PunchOfferPayload}
use underground_node_network.Entrypoint.State.{Conn}
use underground_node_network.Entrypoint.Identity.Login.{api_user_register-holds}
use underground_node_network.Entrypoint.Api.{
  ApiMessage, room_list_msg, user_status_msg, user_register_msg, prepare_punch_msg, unknown_msg,
  ApiAnswer, ApiSession, answer, punch_offer, send_punch_prepare, key_hash_of, handle_user_register,
  api_step, handle_api,
}

module _ (split_host_port : Text → Option (Text × Text)) (is_ipv4 : Text → Bool)
    (encodes : ℕ → PunchOfferPayload → Bool) (today : Text) (conn : Conn) where
  -- One answer more, and the names held by the same accounts.
  abbrev Answered : ApiSession → ApiSession → Type 0
  Answered e f =
      (length f.answers ≡ length e.answers + 1)
      × ((name owner : Text)
          → get name e.server.usernames ≡ some owner
          → get name f.server.usernames ≡ some owner)

  answer-Answered : (e : ApiSession) (a : ApiAnswer) → Answered e (answer e a)
  unfolding answer
  answer-Answered e a = (length-append e.answers (a ∷ []), λ n o h. h)

  send_punch_prepare-Answered :
      (e : ApiSession) (room peer : Text) (cs : List Text)
      → Answered e (send_punch_prepare split_host_port is_ipv4 encodes today conn e room peer cs)
  unfolding send_punch_prepare answer
  send_punch_prepare-Answered e room peer cs = elim (Option-cases (get room e.server.rooms)) [
    | inl unknown ↦ simp (send_punch_prepare, unknown) (answer-Answered e _)
    | inr (r, known) ↦
        elim (Bool-cases
          (encodes r.connection (punch_offer split_host_port is_ipv4 encodes today conn peer cs))) [
            | inl good ↦
                simp (send_punch_prepare, known, good)
                  (length-append e.answers (_ ∷ []), λ n o h. h)
            | inr bad ↦ simp (send_punch_prepare, known, bad) (answer-Answered e _)
          ]
  ]

  api_step-Answered :
      (e : ApiSession) (m : ApiMessage)
      → Answered e (api_step split_host_port is_ipv4 encodes today conn e m)
  unfolding api_step handle_user_register answer
  api_step-Answered e room_list_msg = answer-Answered e _
  api_step-Answered e (user_status_msg none) = answer-Answered e _
  api_step-Answered e (user_status_msg (some name)) = answer-Answered e _
  api_step-Answered e (user_register_msg none) = answer-Answered e _
  api_step-Answered e (user_register_msg (some (name, info))) = (
    length-append e.answers (_ ∷ []),
    λ n o h.
        api_user_register-holds today e.server
          (key_hash_of split_host_port is_ipv4 encodes today conn) name info n o h,
  )
  api_step-Answered e (prepare_punch_msg none) = answer-Answered e _
  api_step-Answered e (prepare_punch_msg (some (room, (peer, cs)))) =
      send_punch_prepare-Answered e room peer cs
  api_step-Answered e (unknown_msg t) = answer-Answered e _

  -- Every message of the API gets one answer, whatever it is, and no messages take a name away from the
  -- account that holds it.
  pub handle_api-answers :
      (e : ApiSession) (ms : List ApiMessage)
      → let f = handle_api split_host_port is_ipv4 encodes today conn e ms in
        (length f.answers ≡ length e.answers + length ms)
        × ((name owner : Text)
            → get name e.server.usernames ≡ some owner
            → get name f.server.usernames ≡ some owner)
  unfolding handle_api
  handle_api-answers e [] = (omega arith, λ n o h. h)
  handle_api-answers e (m ∷ ms) =
      let (one, holds) = api_step-Answered e m in
      let (all, held) =
        handle_api-answers (api_step split_host_port is_ipv4 encodes today conn e m) ms in
      (omega (arith, one, all), λ n o h. held n o (holds n o h))
