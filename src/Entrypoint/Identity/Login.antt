-- ===== src/Entrypoint/Identity/Login.antt =====
-- Logging in with a key that has been registered, and the names that accounts hold.
use underground_node_network.Base.{
  ◌≡◌, ◌⊎◌, refl, ap, ◌∙◌, [], ◌∷◌, ◌++◌, true, Option, none, some, returns, panics, if◌then◌else◌,
  Bool-cases, Option-cases, inl, inr, same,
}
use underground_node_network.Map.{Map, get, put, get-put, get-put_self}
use underground_node_network.Text.{
  Text, text_eq, text_eq_iff, text_key, runes, Lacks, is_space, byte_len,
}
use underground_node_network.Text.Split.{split-Lacks, split-append}
use underground_node_network.Text.Words.{fields, fields-append}
use underground_node_network.Entrypoint.Names.{is_valid_username, is_valid_username-NoSpace}
use underground_node_network.Entrypoint.State.{Server}
use underground_node_network.Entrypoint.Store.{three, save_users}
use underground_node_network.Entrypoint.Store.Rooms.{IsWord}
use underground_node_network.Entrypoint.Identity.{
  write_identity, second_part, first_two, mark_taken, known_key, public_key_callback, registered,
  store_user, api_user_register,
}

valid_name-IsWord : (name : Text) → is_valid_username name ≡ true → IsWord name
unfolding is_valid_username byte_len
valid_name-IsWord [] h = cc
valid_name-IsWord (c ∷ name) h = ((λ e. cc), is_valid_username-NoSpace (c ∷ name) h)

fields-three :
    (name info date : Text)
    → IsWord name
    → IsWord info
    → fields (three name info date) ≡ name ∷ info ∷ fields date
unfolding is_space
fields-three name info date (nn, hn) (ni, hi) =
    fields-append name b' ' (info ++ b' ' ∷ date) nn hn refl
    ∙ ap (λ l. name ∷ l) (fields-append info b' ' date ni hi refl)

register-stores :
    (today : Text) (s : Server) (hash name info : Text)
    → is_valid_username name ≡ true
    → get name s.usernames ≡ none
    → api_user_register today s hash name info
      ≡ (store_user today s hash name info, registered name)
unfolding api_user_register
register-stores today s hash name info valid free = rw (api_user_register, valid, free) refl

-- Any key may register a free name with any platform text. If that is a word without an '@', the next
-- connection with the key crashes the entry point, in the callback that checks the key.
pub api_user_register-crash :
    (today later : Text) (s : Server) (hash pubkey user name info : Text)
    → is_valid_username name ≡ true
    → get name s.usernames ≡ none
    → IsWord info
    → Lacks b'@' info
    → public_key_callback later (api_user_register today s hash name info).0 user pubkey hash
      ≡ panics
unfolding public_key_callback known_key store_user save_users first_two second_part
api_user_register-crash today later s hash pubkey user name info valid free word no_at =
    let stored = register-stores today s hash name info valid free in
    let parts = fields-three name info today (valid_name-IsWord name valid) word in
    let one = split-Lacks info b'@' no_at in
    rw
      (
        public_key_callback,
        stored,
        get-put_self hash (three name info today) s.identities,
        parts,
        one,
      )
      refl

-- The extensions of a known key, before the mark of a taken name.
known_extensions : Text → Text → Text → Text → Map Text Text
known_extensions pubkey hash name platform = put (runes "platform") platform (
    put (runes "username") name (
      put (runes "verified") (runes "true")
        ((runes "pubkey", pubkey) ∷ (runes "pubkeyhash", hash) ∷ [])))

marks :
    (pubkey hash name platform info : Text) (o : Option Text)
    → let x = mark_taken (known_extensions pubkey hash name platform) o (some info) in
      (get (runes "verified") x ≡ some (runes "true"))
      × (get (runes "username") x ≡ some name)
      × (get (runes "platform") x ≡ some platform)
      × (get (runes "taken") x ≡ (elim o [
        | none ↦ none
        | some owner ↦ if text_eq owner info then none else some (runes "true")
      ]))
unfolding known_extensions mark_taken put get text_eq
marks pubkey hash name platform info none = (refl, refl, refl, refl)
marks pubkey hash name platform info (some owner) = elim (Bool-cases (text_eq owner info)) [
  | inl same_owner ↦ rw same_owner (refl, refl, refl, refl)
  | inr other ↦ rw other (refl, refl, refl, refl)
]

-- A key whose identity has a platform in it is let in as that user; its connection is marked as having
-- a taken name exactly if the name that it asks for belongs to another platform account.
pub public_key_callback-known :
    (today : Text) (s : Server) (hash pubkey user name account platform date : Text)
    → IsWord name
    → IsWord (account ++ b'@' ∷ platform)
    → Lacks b'@' account
    → Lacks b'@' platform
    → get hash s.identities ≡ some (three name (account ++ b'@' ∷ platform) date)
    → (t : Server) × (extensions : Map Text Text) × (public_key_callback today s user pubkey hash
        ≡ returns (t, extensions))
      × (get (runes "verified") extensions ≡ some (runes "true"))
      × (get (runes "username") extensions ≡ some name)
      × (get (runes "platform") extensions ≡ some platform)
      × (get (runes "taken") extensions ≡ (elim (get user s.usernames) [
        | none ↦ none
        | some owner ↦
            if text_eq owner (account ++ b'@' ∷ platform) then none else some (runes "true")
      ]))
unfolding public_key_callback known_key first_two second_part known_extensions
public_key_callback-known today s hash pubkey user name account platform date hn hi ha hp known =
    let parts = fields-three name (account ++ b'@' ∷ platform) date hn hi in
    let two = split-append account platform b'@' ha in
    let one = split-Lacks platform b'@' hp in
    let info = account ++ b'@' ∷ platform in
    let (verified, username, on, taken) =
      marks pubkey hash name platform info (get user s.usernames) in
    (
      write_identity s hash (three name info today),
      mark_taken (known_extensions pubkey hash name platform) (get user s.usernames) (some info),
      rw (public_key_callback, known, parts, two, one) refl,
      verified,
      username,
      on,
      taken,
    )

pub put-holds_name :
    (m : Map Text Text) (name info other owner : Text)
    → get other m ≡ some owner
    → (get name m ≡ none) ⊎ (get name m ≡ some info)
    → get other (put name info m) ≡ some owner
put-holds_name m name info other owner held before = elim (Bool-cases (same name other)) [
  | inr ne ↦ get-put name other info m ∙ rw ne held
  | inl eq ↦
      let is_other : name ≡ other = (text_eq_iff name other).0 eq in
      let at : get name m ≡ some owner = ap (λ n. get n m) is_other ∙ held in
      let new : get other (put name info m) ≡ some info = get-put name other info m ∙ rw eq refl in
      elim before [ inl none_before ↦ cc | inr mine ↦ cc ]
]

-- No registration takes a name away from the account that holds it.
pub api_user_register-holds :
    (today : Text) (s : Server) (hash name info other owner : Text)
    → get other s.usernames ≡ some owner
    → get other (api_user_register today s hash name info).0.usernames ≡ some owner
unfolding api_user_register store_user save_users
api_user_register-holds today s hash name info other owner held =
    elim (Bool-cases (is_valid_username name)) [
      | inr invalid ↦ rw (api_user_register, invalid) held
      | inl valid ↦ elim (Option-cases (get name s.usernames)) [
        | inl free ↦
            rw (api_user_register, valid, free)
              (put-holds_name s.usernames name info other owner held (inl free))
        | inr (holder, taken) ↦ elim (Bool-cases (text_eq holder info)) [
          | inr differs ↦ rw (api_user_register, valid, taken, differs) held
          | inl agrees ↦
              let mine : get name s.usernames ≡ some info =
                taken ∙ ap some ((text_eq_iff holder info).0 agrees) in
              rw (api_user_register, valid, taken, agrees)
                (put-holds_name s.usernames name info other owner held (inr mine))
        ]
      ]
    ]
