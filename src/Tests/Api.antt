-- ===== src/Tests/Api.antt =====
-- Runs of the theorems on the API of the entry point.
use underground_node_network.Base.{
  All, ◌≢◌, refl, arith, ℕ, ◌+◌, ◌≡◌, ◌⊎◌, [], ◌∷◌, List, Bool, true, Option, none, some, length,
}
use underground_node_network.Map.{get}
use underground_node_network.Text.{Text, runes, text_key}
use underground_node_network.Protocol.{PunchOfferPayload}
use underground_node_network.Entrypoint.State.{Conn, fresh_server}
use underground_node_network.Entrypoint.Api.{
  ApiMessage, room_list_msg, user_register_msg, unknown_msg, ApiSession, reflexive, handle_api,
}
use underground_node_network.Entrypoint.Api.Answers.{handle_api-answers}
use underground_node_network.Entrypoint.Api.Reflexive.{StandsIn, reflexive_address}

-- Stand-ins for the functions of package net: every address has the same parts.
abbrev split_host_port : Text → Option (Text × Text)
split_host_port a = some (runes "1.2.3.4", runes "99")

abbrev is_ipv4 : Text → Bool
is_ipv4 host = true

abbrev encodes : ℕ → PunchOfferPayload → Bool
encodes n p = true

abbrev caller : Conn
caller = record { number = 1; user = runes "ann"; extensions = []; remote_addr = runes "1.2.3.4:5" }

abbrev start : ApiSession
start = record { server = fresh_server none none; answers = []; offers = [] }

abbrev messages : List ApiMessage
messages =
    room_list_msg ∷ user_register_msg (some (runes "ann", runes "ann@github")) ∷ unknown_msg [] ∷ []

handle_api-answers_example :
    (length
        (handle_api split_host_port is_ipv4 encodes
          (runes "2025-01-01")
          caller
          start
          messages).answers
      ≡ 0 + 3)
    × ((name owner : Text)
        → get name start.server.usernames ≡ some owner
        → get name
            (handle_api split_host_port is_ipv4 encodes
              (runes "2025-01-01")
              caller
              start
              messages).server.usernames
          ≡ some owner)
handle_api-answers_example =
    handle_api-answers split_host_port is_ipv4 encodes (runes "2025-01-01") caller start messages

reflexive_address_example :
    (All (λ d. d ≢ runes "1.2.3.4:99") (runes "10.0.0.1:99" ∷ [])
      × (reflexive split_host_port is_ipv4 encodes
            (runes "2025-01-01")
            caller
            (runes "10.0.0.1:99" ∷ [])
          ≡ runes "1.2.3.4:99" ∷ runes "10.0.0.1:99" ∷ []))
    ⊎ (StandsIn (runes "1.2.3.4:99") (runes "10.0.0.1:99" ∷ [])
        × (reflexive split_host_port is_ipv4 encodes
              (runes "2025-01-01")
              caller
              (runes "10.0.0.1:99" ∷ [])
            ≡ runes "10.0.0.1:99" ∷ []))
reflexive_address_example =
    reflexive_address split_host_port is_ipv4 encodes (runes "2025-01-01") caller [] []
      (runes "10.0.0.1:99") (runes "1.2.3.4") (runes "99") (runes "1.2.3.4") (runes "99") refl refl
      tt refl (λ e. ground arith) (λ e. ground arith)
