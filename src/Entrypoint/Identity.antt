-- ===== src/Entrypoint/Identity.antt =====
-- internal/entrypoint/server.go and api_ssh.go: who a key belongs to. `today` is the date.
pub mod Login
use underground_node_network.Base.{
  ℕ, [], ◌∷◌, ◌++◌, List, Bool, true, false, not, ◌&&◌, Option, none, some, Outcome, returns,
  panics, ◌>>=◌, if◌then◌else◌,
}
use underground_node_network.Map.{Map, get, put}
use underground_node_network.Text.{Text, text_eq, text_key, runes}
use underground_node_network.Text.Split.{split}
use underground_node_network.Text.Words.{fields}
use underground_node_network.Entrypoint.Names.{is_valid_username}
use underground_node_network.Entrypoint.State.{Server}
use underground_node_network.Entrypoint.Store.{three, save_users}

-- s.identities[hash] = identity, s.saveUsers()
unfoldable pub write_identity : Server → Text → Text → Server
write_identity s hash identity = save_users record s { identities = put hash identity s.identities }

-- pParts[1]
unfoldable pub second_part : List Text → Outcome Text
second_part (a ∷ b ∷ _) = returns b
second_part _ = panics

-- fields[0] and fields[1]
unfoldable pub first_two : List Text → Outcome (Text × Text)
first_two (a ∷ b ∷ _) = returns (a, b)
first_two _ = panics

-- The mark of a user name that belongs to another platform account.
unfoldable pub mark_taken : Map Text Text → Option Text → Option Text → Map Text Text
mark_taken extensions none platform = extensions
mark_taken extensions (some owner) none = put (runes "taken") (runes "true") extensions
mark_taken extensions (some owner) (some platform) =
    if text_eq owner platform then extensions else put (runes "taken") (runes "true") extensions

-- PublicKeyCallback of a key that is known, with the fields of its identity.
unfoldable pub known_key :
    Text → Server → Text → Map Text Text → Text → Text → Outcome (Server × Map Text Text)
known_key today s hash extensions name info = second_part (split info b'@') >>= λ platform.
    returns (
      write_identity s hash (three name info today),
      put (runes "platform") platform
          (put (runes "username") name (put (runes "verified") (runes "true") extensions)),
    )

-- The server and the permissions' extensions of a connection with the key `pubkey`.
unfoldable pub public_key_callback :
    Text → Server → Text → Text → Text → Outcome (Server × Map Text Text)
public_key_callback today s user pubkey hash =
    let extensions = (runes "pubkey", pubkey) ∷ (runes "pubkeyhash", hash) ∷ [] in
    let owner = get user s.usernames in
    elim (get hash s.identities) [
      | none ↦
          returns (s, mark_taken (put (runes "verified") (runes "false") extensions) owner none)
      | some identity ↦ first_two (fields identity) >>= λ two.
          known_key today s hash extensions two.0 two.1 >>= λ r.
          returns (r.0, mark_taken r.1 owner (some two.1))
    ]

pub record UserStatus : Type 0 where
  pub verified : Bool
  pub username : Text
  pub platform : Text
  pub is_taken : Bool
  pub taken_by_platform : Text

-- response.Platform
unfoldable pub platform_of : List Text → Text
platform_of (a ∷ b ∷ []) = b
platform_of _ = []

-- response.Username and response.Platform
unfoldable pub identity_parts : List Text → Text × Text
identity_parts (name ∷ info ∷ _) = (name, platform_of (split info b'@'))
identity_parts _ = ([], [])

-- handleAPIUserStatus, for a connection with the key hash `hash`.
unfoldable pub api_user_status : Server → Text → Text → UserStatus
api_user_status s hash username =
    let (name, platform) = elim (get hash s.identities) as (λ _. Text × Text) [
      | none ↦ ([], [])
      | some identity ↦ identity_parts (fields identity)
    ] in
    record {
      verified = elim (get hash s.identities) [ none ↦ false | some _ ↦ true ];
      username = name;
      platform = platform;
      is_taken = elim (get username s.usernames) [ none ↦ false | some _ ↦ true ];
      taken_by_platform = elim (get username s.usernames) [ none ↦ [] | some owner ↦ owner ];
    }

pub data ApiReply : Type 0 where
  api_error : Text → ApiReply
  registered : Text → ApiReply

-- The end of handleAPIUserRegister.
unfoldable pub store_user : Text → Server → Text → Text → Text → Server
store_user today s hash name info = save_users record s {
  identities = put hash (three name info today) s.identities;
  usernames = put name info s.usernames;
}

-- handleAPIUserRegister, for a connection with the key hash `hash`.
unfoldable pub api_user_register : Text → Server → Text → Text → Text → Server × ApiReply
api_user_register today s hash name info =
    let stored : Server × ApiReply = (store_user today s hash name info, registered name) in
    if not (is_valid_username name)
    then (s, api_error (runes "invalid username format"))
    else elim (get name s.usernames) [
      | none ↦ stored
      | some owner ↦
          if not (text_eq owner info)
          then (s, api_error (runes "username already taken by " ++ owner))
          else stored
    ]
