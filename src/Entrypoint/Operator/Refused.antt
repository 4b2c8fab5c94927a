-- ===== src/Entrypoint/Operator/Refused.antt =====
-- Who may register a room name that is taken.
use underground_node_network.Base.{
  ◌≡◌, ◌≢◌, ◌⊎◌, refl, sym, ap, ◌∙◌, [], ◌∷◌, ◌++◌, List, false, Option, some, returns, arith, inl,
  inr, Option-cases,
}
use underground_node_network.Map.{get, get-put_self}
use underground_node_network.Text.{Text, text_eq, text_ne, text_key, runes, NoSpace}
use underground_node_network.Protocol.{RegisterPayload}
use underground_node_network.Entrypoint.State.{Room, Conn}
use underground_node_network.Entrypoint.Store.{three}
use underground_node_network.Entrypoint.Store.Rooms.{split-three}
use underground_node_network.Entrypoint.Operator.{
  Session, error_reply, extension, send_error, write_registry, payload_host_hash, is_owner,
  register_again, taken_text, register_parts, handle_register, room_of, go_online, send_room_list,
}

-- An extension that is missing reads as "".
extension-other :
    (key_hash : Text → Option Text) (today : Text) (conn : Conn) (name value : Text)
    → value ≢ []
    → get name conn.extensions ≢ some value
    → text_eq (extension key_hash today conn name) value ≡ false
unfolding extension
extension-other key_hash today conn name value given other =
    elim (Option-cases (get name conn.extensions)) [
      | inl missing ↦ rw (extension, missing) (text_ne [] value (λ e. given (sym e)))
      | inr (v, there) ↦
          rw (extension, there) (text_ne v value (λ e. other (there ∙ ap (λ t. some t) e)))
    ]

-- Who is not verified, or is verified as somebody else, is not the owner.
is_owner-stranger :
    (key_hash : Text → Option Text) (today : Text) (conn : Conn) (owner : Text)
    → owner ≢ []
    → (get (runes "verified") conn.extensions ≢ some (runes "true"))
      ⊎ (get (runes "username") conn.extensions ≢ some owner)
    → is_owner key_hash today conn owner ≡ false
unfolding is_owner
is_owner-stranger key_hash today conn owner named (inl other) =
    let e =
      extension-other key_hash today conn (runes "verified") (runes "true") (λ e. ground arith)
        other in
    rw (is_owner, e) refl
is_owner-stranger key_hash today conn owner named (inr other) =
    let e = extension-other key_hash today conn (runes "username") owner named other in
    rw (is_owner, e) (ground arith)

-- A taken name, registered with the hash `host` and the owner `owner`: whoever shows another host key
-- and has no "verified" or another user name in his connection is told that the name is taken, and
-- nothing else changes.
pub handle_register-refused :
    (key_hash : Text → Option Text) (today : Text) (conn : Conn) (e : Session) (p : RegisterPayload)
    (host owner date key hash : Text) (keys : List Text)
    → NoSpace host
    → NoSpace owner
    → NoSpace date
    → get p.room_name e.server.registered_rooms ≡ some (three host owner date)
    → p.public_keys ≡ key ∷ keys
    → key_hash key ≡ some hash
    → hash ≢ []
    → hash ≢ host
    → owner ≢ []
    → (get (runes "verified") conn.extensions ≢ some (runes "true"))
      ⊎ (get (runes "username") conn.extensions ≢ some owner)
    → handle_register key_hash today conn e p
      ≡ returns record e {
        replies =
            e.replies
            ++ error_reply (
                runes "Room name '" ++ (p.room_name ++ runes "' is already taken by another user."))
              ∷ [];
      }
unfolding handle_register register_parts register_again payload_host_hash send_error taken_text
handle_register-refused key_hash today conn e p host owner date key hash keys hh ho hd known sent
      parsed some_hash other named wrong =
    let parts = split-three host owner date hh ho hd in
    let shown : payload_host_hash key_hash today conn p ≡ hash =
      rw (payload_host_hash, sent, parsed) refl in
    let e1 = text_ne hash [] some_hash in
    let e2 = text_ne hash host other in
    let stranger = is_owner-stranger key_hash today conn owner named wrong in
    rw (handle_register, known, parts, register_again, shown, e1, e2, stranger) refl

-- A register message that shows no key is not checked: anybody puts his own connection and addresses up
-- under the name.
pub handle_register-no_key :
    (key_hash : Text → Option Text) (today : Text) (conn : Conn) (e : Session) (p : RegisterPayload)
    (host owner date : Text)
    → NoSpace host
    → NoSpace owner
    → NoSpace date
    → get p.room_name e.server.registered_rooms ≡ some (three host owner date)
    → p.public_keys ≡ []
    → (f : Session) × (room : Room) × (handle_register key_hash today conn e p ≡ returns f)
      × (get p.room_name f.server.rooms ≡ some room)
      × (room.connection ≡ conn.number)
      × (room.info.candidates ≡ p.candidates)
      × (room.info.owner ≡ owner)
unfolding handle_register register_parts register_again payload_host_hash go_online send_room_list
    room_of text_eq
handle_register-no_key key_hash today conn e p host owner date hh ho hd known none_sent =
    let parts = split-three host owner date hh ho hd in
    let shown : payload_host_hash key_hash today conn p ≡ [] =
      rw (payload_host_hash, none_sent) refl in
    let next : Session = record e {
      username = owner;
      server = write_registry e.server p.room_name (three host owner today);
    } in
    (
      go_online key_hash today conn next p,
      room_of key_hash today conn next p,
      rw (handle_register, known, parts, register_again, shown) refl,
      get-put_self p.room_name _ next.server.rooms,
      refl,
      refl,
      refl,
    )
