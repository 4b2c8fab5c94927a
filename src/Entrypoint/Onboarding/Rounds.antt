-- ===== src/Entrypoint/Onboarding/Rounds.antt =====
-- What a round of the form takes to accept an account.
use underground_node_network.Base.{
  ◌≡◌, ◌⊎◌, refl, ap, ◌∙◌, [], ◌∷◌, ◌++◌, List, true, false, ◌||◌, Option, none, some, Outcome,
  returns, panics, ◌>>=◌, returns_injective, ltb, Bool-cases, Option-cases, inl, inr,
}
use underground_node_network.Map.{get}
use underground_node_network.Text.{
  Text, text_eq, text_eq_iff, text_key, runes, has_prefix, trim_space, byte_len,
}
use underground_node_network.Text.Split.{split}
use underground_node_network.Ui.Common.{is_alphanumeric}
use underground_node_network.Entrypoint.State.{Server}
use underground_node_network.Entrypoint.Onboarding.{
  Fetched, no_answer, answered, has_body, no_body, Verdict, verify_error, matched, keys_url,
  contains_text, Fields, is_platform, accepted, refusal, verify_failed, find_key, read_answer,
  verify_identity, decide, round,
}

pub bind-returned {ℓ κ} :
    {A : Type ℓ} {B : Type κ} (m : Outcome A) (f : A → Outcome B) (b : B)
    → (m >>= f) ≡ returns b
    → (a : A) × (m ≡ returns a) × (f a ≡ returns b)
bind-returned (returns a) f b e = (a, refl, e)
bind-returned panics f b e = cc

-- The platform, the account and the name that were accepted, in the server `s`.
abbrev pub Checked : Server → Text → Text → Text → Type 0
Checked s platform user name =
    (is_platform platform ≡ true)
    × (ltb (byte_len name) 4 ≡ false)
    × (is_alphanumeric name ≡ true)
    × ((get name s.usernames ≡ none) ⊎ (get name s.usernames ≡ some (user ++ b'@' ∷ platform)))

refusal-none :
    (platform user name : Text) (f : Fields)
    → refusal platform user name f ≡ none
    → (is_platform platform ≡ true)
      × (ltb (byte_len name) 4 ≡ false)
      × (is_alphanumeric name ≡ true)
unfolding refusal
refusal-none platform user name f e = elim (Bool-cases (is_platform platform)) [
  | inr no_platform ↦ let never = rw no_platform at e in cc
  | inl known ↦ elim (Bool-cases (text_eq user [])) [
    | inl blank ↦ let never = rw (known, blank) at e in cc
    | inr someone ↦ elim (Bool-cases (ltb (byte_len name) 4)) [
      | inl short ↦ let never = rw (known, someone, short) at e in cc
      | inr long ↦ elim (Bool-cases (is_alphanumeric name)) [
        | inr odd ↦ let never = rw (known, someone, long, odd) at e in cc
        | inl plain ↦ (known, long, plain)
      ]
    ]
  ]
]

verify_failed-again :
    (err : Text) (f : Fields) (name current : Text)
    → verify_failed err f ≡ accepted name current
    → ⊥
unfolding verify_failed
verify_failed-again err f name current e =
    elim (Bool-cases (contains_text err (runes "status 404"))) [
      | inl missing ↦ let never = rw missing at e in cc
      | inr other ↦ let never = rw other at e in cc
    ]

module _ (fetch : Text → Fetched) (parse_key : Text → Option Text) where
  -- A line of the page is the key.
  abbrev pub IsListed : Text → List Text → Type 0
  IsListed key [] = ⊥
  IsListed key (line ∷ lines) = (parse_key (trim_space line) ≡ some key) ⊎ IsListed key lines

  find_key-IsListed :
      (key : Text) (lines : List Text)
      → find_key fetch parse_key (some key) lines ≡ returns true
      → IsListed key lines
  unfolding find_key
  find_key-IsListed key [] e = let never = returns_injective e in cc
  find_key-IsListed key (line ∷ lines) e =
      let text = trim_space line in
      elim (Bool-cases (text_eq text [] || has_prefix text (runes "#"))) [
        | inl skipped ↦ inr (find_key-IsListed key lines (rw skipped at e))
        | inr read ↦ elim (Option-cases (parse_key text)) [
          | inl no_key ↦ inr (find_key-IsListed key lines (rw (read, no_key) at e))
          | inr (found, parsed) ↦ elim (Bool-cases (text_eq found key)) [
            | inl eq ↦ inl (parsed ∙ ap some ((text_eq_iff found key).0 eq))
            | inr ne ↦ inr (find_key-IsListed key lines (rw (read, parsed, ne) at e))
          ]
        ]
      ]

  -- The page of the account was read, and it lists the key.
  abbrev pub IsProven : Text → Text → Text → Type 0
  IsProven platform user key =
      (url : Text) × (body : Text) × (keys_url platform user ≡ some url)
      × (fetch url ≡ has_body body)
      × IsListed key (split body 10)

  read_answer-IsListed :
      (key : Text) (a : Fetched)
      → read_answer fetch parse_key (some key) a ≡ returns (matched true)
      → (body : Text) × (a ≡ has_body body) × IsListed key (split body 10)
  unfolding read_answer
  read_answer-IsListed key (no_answer e) h = let never = returns_injective h in cc
  read_answer-IsListed key (answered n) h = let never = returns_injective h in cc
  read_answer-IsListed key (no_body e) h = let never = returns_injective h in cc
  read_answer-IsListed key (has_body body) h =
      let (found, read, eq) =
        bind-returned (find_key fetch parse_key (some key) (split body 10)) _ (matched true) h in
      let is_true : found ≡ true = let same_one = returns_injective eq in cc in
      (body, refl, find_key-IsListed key (split body 10) (read ∙ ap returns is_true))

  verify_identity-IsProven :
      (platform user key : Text)
      → verify_identity fetch parse_key platform user (some key) ≡ returns (matched true)
      → IsProven platform user key
  unfolding verify_identity
  verify_identity-IsProven platform user key e = elim (Option-cases (keys_url platform user)) [
    | inl unknown ↦ let never = returns_injective (rw (verify_identity, unknown) at e) in cc
    | inr (url, known) ↦
        let (body, got, listed) =
          read_answer-IsListed key (fetch url) (rw (verify_identity, known) at e) in
        (url, body, known, got, listed)
  ]

  decide-accepted :
      (s : Server) (platform user name : Text) (f : Fields) (v : Verdict) (name' current : Text)
      → decide fetch parse_key s platform user name f v ≡ accepted name' current
      → (v ≡ matched true)
        × (name ≡ name')
        × (user ++ b'@' ∷ platform ≡ current)
        × ((get name s.usernames ≡ none) ⊎ (get name s.usernames ≡ some (user ++ b'@' ∷ platform)))
  unfolding decide
  decide-accepted s platform user name f (verify_error err) name' current e =
      absurd (verify_failed-again err f name' current e)
  decide-accepted s platform user name f (matched false) name' current e = cc
  decide-accepted s platform user name f (matched true) name' current e =
      let mine = user ++ b'@' ∷ platform in
      elim (Option-cases (get name s.usernames)) [
        | inl free ↦ let eq = rw (decide, free) at e in (refl, cc, cc, inl free)
        | inr (owner, taken) ↦ elim (Bool-cases (text_eq owner mine)) [
          | inl same_one ↦
              let eq = rw (decide, taken, same_one) at e in
              (refl, cc, cc, inr (taken ∙ ap some ((text_eq_iff owner mine).0 same_one)))
          | inr other ↦ let never = rw (decide, taken, other) at e in cc
        ]
      ]

  pub round-accepted :
      (key : Text) (s : Server) (platform user name : Text) (f : Fields) (name' current : Text)
      → round fetch parse_key (some key) s platform user name f ≡ returns (accepted name' current)
      → Checked s platform user name
        × IsProven platform user key
        × (name ≡ name')
        × (user ++ b'@' ∷ platform ≡ current)
  unfolding round
  round-accepted key s platform user name f name' current e =
      elim (Option-cases (refusal platform user name f)) [
        | inr (g, refused) ↦ let never = returns_injective (rw (round, refused) at e) in cc
        | inl fine ↦
            let (v, verdict, decided) =
              bind-returned (verify_identity fetch parse_key platform user (some key)) _
                (accepted name' current) (rw (round, fine) at e) in
            let (is_match, is_name, is_current, free) =
              decide-accepted s platform user name f v name' current (returns_injective decided) in
            let (known, long, plain) = refusal-none platform user name f fine in
            (
              (known, long, plain, free),
              verify_identity-IsProven platform user key (verdict ∙ ap returns is_match),
              is_name,
              is_current,
            )
      ]
