-- ===== src/Entrypoint/Api.antt =====
-- internal/entrypoint/api_ssh.go and punch_coord.go: the messages of the unn-api subsystem and the
-- offer that a room gets before a client connects. `split_host_port` stands for net.SplitHostPort,
-- `is_ipv4` for the test with net.ParseIP and To4, `encodes` for the answer of a room's encoder; every
-- online room has one.
pub mod Answers
pub mod Reflexive
use underground_node_network.Base.{
  ℕ, [], ◌∷◌, ◌++◌, List, Bool, true, false, not, ◌&&◌, Option, none, some, if◌then◌else◌,
}
use underground_node_network.Map.{get}
use underground_node_network.Text.{Text, text_eq, text_key, runes}
use underground_node_network.Protocol.{RoomInfo, PunchOfferPayload}
use underground_node_network.Entrypoint.State.{Server, Room, Conn}
use underground_node_network.Entrypoint.Operator.{room_infos}
use underground_node_network.Entrypoint.Identity.{
  UserStatus, api_user_status, ApiReply, api_user_register,
}

-- for _, c := range candidates { if c == publicCandidate … }
unfoldable pub has_candidate : Text → List Text → Bool
has_candidate public [] = false
has_candidate public (c ∷ cs) = if text_eq c public then true else has_candidate public cs

-- msg, decoded; `none` is a payload that does not parse.
pub data ApiMessage : Type 0 where
  room_list_msg : ApiMessage
  user_status_msg : Option Text → ApiMessage
  user_register_msg : Option (Text × Text) → ApiMessage
  prepare_punch_msg : Option (Text × (Text × List Text)) → ApiMessage
  unknown_msg : Text → ApiMessage

pub data ApiAnswer : Type 0 where
  rooms_answer : List RoomInfo → ApiAnswer
  status_answer : UserStatus → ApiAnswer
  register_answer : ApiReply → ApiAnswer
  punch_coordinated : ApiAnswer
  error_answer : Text → ApiAnswer

-- The server, what has been answered, and what has been sent to the connections of rooms.
pub record ApiSession : Type 0 where
  pub server : Server
  pub answers : List ApiAnswer
  pub offers : List (ℕ × PunchOfferPayload)

unfoldable pub answer : ApiSession → ApiAnswer → ApiSession
answer e a = record e { answers = e.answers ++ a ∷ [] }

module _ (split_host_port : Text → Option (Text × Text)) (is_ipv4 : Text → Bool)
    (encodes : ℕ → PunchOfferPayload → Bool) (today : Text) (conn : Conn) where
  -- clientPort: the first port that is given and not 0, or "".
  unfoldable pub client_port : List Text → Text
  client_port [] = []
  client_port (c ∷ cs) = elim (split_host_port c) [
    | none ↦ client_port cs
    | some (host, port) ↦
        if not (text_eq port []) && not (text_eq port (runes "0")) then port else client_port cs
  ]

  unfoldable pub with_public : Text → List Text → List Text
  with_public public cs = if not (has_candidate public cs) then public ∷ cs else cs

  -- The candidates with the client's address as the server sees it.
  unfoldable pub reflexive : List Text → List Text
  reflexive [] = []
  reflexive (c ∷ cs) = elim (split_host_port conn.remote_addr) [
    | none ↦ c ∷ cs
    | some (host, _) ↦
        if is_ipv4 host && not (text_eq (client_port (c ∷ cs)) [])
        then with_public (host ++ b':' ∷ client_port (c ∷ cs)) (c ∷ cs)
        else c ∷ cs
  ]

  unfoldable pub person_key : Text
  person_key = elim (get (runes "pubkey") conn.extensions) [ none ↦ [] | some key ↦ key ]

  unfoldable pub punch_offer : Text → List Text → PunchOfferPayload
  punch_offer peer cs = record {
    person_id = peer;
    candidates = reflexive cs;
    person_key = person_key;
    display_name = conn.user;
    username = conn.user;
  }

  -- SendPunchPrepare and the answer to its error, without the text that an encoder adds to it.
  unfoldable pub send_punch_prepare : ApiSession → Text → Text → List Text → ApiSession
  send_punch_prepare e room peer cs = elim (get room e.server.rooms) [
    | none ↦ answer e (error_answer (runes "room " ++ (room ++ runes " not found")))
    | some r ↦
        if encodes r.connection (punch_offer peer cs)
        then answer record e { offers = e.offers ++ (r.connection, punch_offer peer cs) ∷ [] }
            punch_coordinated
        else answer e (error_answer (runes "failed to send punch offer to room"))
  ]

  -- conn.Permissions.Extensions["pubkeyhash"]
  unfoldable pub key_hash_of : Text
  key_hash_of = elim (get (runes "pubkeyhash") conn.extensions) [ none ↦ [] | some hash ↦ hash ]

  unfoldable pub handle_user_register : ApiSession → Text → Text → ApiSession
  handle_user_register e name info =
      let r = api_user_register today e.server key_hash_of name info in
      answer record e { server = r.0 } (register_answer r.1)

  -- One round of the loop of handleAPI.
  unfoldable pub api_step : ApiSession → ApiMessage → ApiSession
  api_step e room_list_msg = answer e (rooms_answer (room_infos e.server.rooms))
  api_step e (user_status_msg none) = answer e (error_answer (runes "invalid user_status payload"))
  api_step e (user_status_msg (some name)) =
      answer e (status_answer (api_user_status e.server key_hash_of name))
  api_step e (user_register_msg none) =
      answer e (error_answer (runes "invalid user_register payload"))
  api_step e (user_register_msg (some (name, info))) = handle_user_register e name info
  api_step e (prepare_punch_msg none) =
      answer e (error_answer (runes "invalid prepare_punch payload"))
  api_step e (prepare_punch_msg (some (room, (peer, cs)))) = send_punch_prepare e room peer cs
  api_step e (unknown_msg t) = answer e (error_answer (runes "unknown message type: " ++ t))

  unfoldable pub handle_api : ApiSession → List ApiMessage → ApiSession
  handle_api e [] = e
  handle_api e (m ∷ ms) = handle_api (api_step e m) ms
