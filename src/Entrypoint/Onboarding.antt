-- ===== src/Entrypoint/Onboarding.antt =====
-- internal/entrypoint/identity.go: VerifyIdentity and handleOnboardingForm, which ask a person for an
-- account of a platform and look for the person's key among the keys that the platform lists. `fetch`
-- is what an HTTP GET answers, `parse_key` is ssh.ParseAuthorizedKey with Marshal, `key_hash` the hash
-- of a marshalled key and `to_lower` strings.ToLower.
pub mod Rounds
pub mod Proven
use underground_node_network.Base.{
  ℕ, [], ◌∷◌, ◌++◌, List, Bool, true, false, not, ◌&&◌, ◌||◌, Option, none, some, Outcome, returns,
  panics, ◌>>=◌, if◌then◌else◌, ltb, ◌==◌,
}
use underground_node_network.Map.{Map, get, put}
use underground_node_network.Text.{Text, text_eq, text_key, runes, has_prefix, trim_space, byte_len}
use underground_node_network.Text.Split.{split}
use underground_node_network.Text.Decimal.{decimal}
use underground_node_network.Ui.Common.{is_alphanumeric}
use underground_node_network.Ui.Form.{FormField}
use underground_node_network.Entrypoint.State.{Server}
use underground_node_network.Entrypoint.Identity.{store_user}

-- httpClient.Get with io.ReadAll: an error, a status that is not 200, a body, an error of the body.
pub data Fetched : Type 0 where
  no_answer : Text → Fetched
  answered : ℕ → Fetched
  has_body : Text → Fetched
  no_body : Text → Fetched

-- The results of VerifyIdentity.
pub data Verdict : Type 0 where
  verify_error : Text → Verdict
  matched : Bool → Verdict

-- The page with the keys of a user.
unfoldable pub keys_url : Text → Text → Option Text
keys_url platform user =
    if text_eq platform (runes "github")
    then some (runes "https://github.com/" ++ (user ++ runes ".keys"))
    else if text_eq platform (runes "gitlab")
    then some (runes "https://gitlab.com/" ++ (user ++ runes ".keys"))
    else if text_eq platform (runes "sourcehut")
    then some (runes "https://meta.sr.ht/~" ++ (user ++ runes ".keys"))
    else if text_eq platform (runes "codeberg")
    then some (runes "https://codeberg.org/" ++ (user ++ runes ".keys"))
    else none

-- strings.Contains
unfoldable pub contains_text : Text → Text → Bool
contains_text [] part = has_prefix [] part
contains_text (c ∷ s) part = has_prefix (c ∷ s) part || contains_text s part

-- The values and the errors of the three fields.
pub record Fields : Type 0 where
  pub platform : FormField
  pub platform_user : FormField
  pub unn_username : FormField

abbrev pub new_fields : Text → Fields
new_fields ssh_user = record {
  platform = record {
    label = runes "Platform (github, gitlab, sourcehut, codeberg)";
    value = runes "github";
    error = [];
    max_length = 0;
    alphanumeric = false;
  };
  platform_user = record {
    label = runes "Platform Username";
    value = [];
    error = [];
    max_length = 0;
    alphanumeric = false;
  };
  unn_username = record {
    label = runes "UNN Username";
    value = ssh_user;
    error = [];
    max_length = 20;
    alphanumeric = true;
  };
}

-- fields[i].Value with the errors cleared.
unfoldable pub filled : Fields → Text → Text → Text → Fields
filled f platform user name = record {
  platform = record f.platform { value = platform; error = [] };
  platform_user = record f.platform_user { value = user; error = [] };
  unn_username = record f.unn_username { value = name; error = [] };
}

abbrev pub error_0 : Text → Fields → Fields
error_0 e f = record f { platform = record f.platform { error = e } }

abbrev pub error_1 : Text → Fields → Fields
error_1 e f = record f { platform_user = record f.platform_user { error = e } }

abbrev pub error_2 : Text → Fields → Fields
error_2 e f = record f { unn_username = record f.unn_username { error = e } }

unfoldable pub is_platform : Text → Bool
is_platform platform =
    text_eq platform (runes "github")
    || text_eq platform (runes "gitlab")
    || text_eq platform (runes "sourcehut")
    || text_eq platform (runes "codeberg")

-- A round of the form: another one with these fields and a message, or the account is the person's.
pub data Round : Type 0 where
  again : Fields → Option Text → Round
  accepted : Text → Text → Round

-- The tests before the platform is asked.
unfoldable pub refusal : Text → Text → Text → Fields → Option Fields
refusal platform user name f =
    if not (is_platform platform)
    then some (error_0 (runes "unsupported platform") f)
    else if text_eq user []
    then some (error_1 (runes "cannot be empty") f)
    else if ltb (byte_len name) 4
    then some (error_2 (runes "too short") f)
    else if not (is_alphanumeric name)
    then some (error_2 (runes "must be alphanumeric") f)
    else none

abbrev pub error_message : Text → Text
error_message e = 27 ∷ runes "[1;31mError verifying identity: " ++ (e ++ (27 ∷ runes "[0m"))

-- What an error of VerifyIdentity makes of the form.
unfoldable pub verify_failed : Text → Fields → Round
verify_failed e f =
    if contains_text e (runes "status 404")
    then again (error_1 (runes "username not found") f) none
    else again f (some (error_message e))

-- What becomes of the form: the person gave up, the form is open, or the account is verified.
pub data Onboarded : Type 0 where
  gave_up : Onboarded
  prompting : Fields → List Text → Onboarded
  welcomed : Server → Text → Map Text Text → Onboarded

module _ (fetch : Text → Fetched) (parse_key : Text → Option Text) where
  -- The loop over the lines; the offered key is nil where its text did not parse.
  unfoldable pub find_key : Option Text → List Text → Outcome Bool
  find_key offered [] = returns false
  find_key offered (line ∷ lines) =
      let rest = find_key offered lines in
      let text = trim_space line in
      if text_eq text [] || has_prefix text (runes "#") then rest else elim (parse_key text) [
        | none ↦ rest
        | some key ↦ elim offered [
          | none ↦ panics
          | some k ↦ if text_eq key k then returns true else rest
        ]
      ]

  unfoldable pub read_answer : Option Text → Fetched → Outcome Verdict
  read_answer offered (no_answer e) = returns (verify_error e)
  read_answer offered (answered status) =
      returns (verify_error (runes "platform returned status " ++ decimal status))
  read_answer offered (no_body e) = returns (verify_error e)
  read_answer offered (has_body body) =
      find_key offered (split body 10) >>= λ found. returns (matched found)

  unfoldable pub verify_identity : Text → Text → Option Text → Outcome Verdict
  verify_identity platform user offered = elim (keys_url platform user) [
    | none ↦ returns (verify_error (runes "unsupported platform: " ++ platform))
    | some url ↦ read_answer offered (fetch url)
  ]

  -- The answer of VerifyIdentity: an account that matches must not be another one's name.
  unfoldable pub decide : Server → Text → Text → Text → Fields → Verdict → Round
  decide s platform user name f (verify_error e) = verify_failed e f
  decide s platform user name f (matched false) = again (error_1 (runes "key not found") f) none
  decide s platform user name f (matched true) =
      let current = user ++ b'@' ∷ platform in
      elim (get name s.usernames) [
        | none ↦ accepted name current
        | some owner ↦
            if text_eq owner current
            then accepted name current
            else again (error_2 (runes "not available") f) none
      ]

  -- A round with the trimmed values.
  unfoldable pub round : Option Text → Server → Text → Text → Text → Fields → Outcome Round
  round offered s platform user name f = elim (refusal platform user name f) [
    | some g ↦ returns (again g none)
    | none ↦
        verify_identity platform user offered >>= λ v. returns (decide s platform user name f v)
  ]

  module _ (to_lower key_hash : Text → Text) (today : Text) where
    -- The end of an accepted round.
    unfoldable pub admit :
        Option Text → Server → Text → Text → Text → Map Text Text → Outcome Onboarded
    admit none s platform name current extensions = panics
    admit (some key) s platform name current extensions = returns (
        welcomed (store_user today s (key_hash key) name current) name (
          put (runes "username") name
            (put (runes "platform") platform (put (runes "verified") (runes "true") extensions))))

    -- handleOnboardingForm, for the forms that the person submits, each with the server as it is where
    -- the name is looked up and as it is where the account is stored, since the lock is given back in
    -- between; `shown` are the messages so far.
    unfoldable pub on_board :
        Option Text
        → Map Text Text
        → Fields
        → List Text
        → List (Server × Server × List Text)
        → Outcome Onboarded
    on_board offered extensions f shown [] = returns (prompting f shown)
    on_board offered extensions f shown ((s, now, p ∷ u ∷ n ∷ _) ∷ forms) =
        let platform = to_lower (trim_space p) in
        let user = trim_space u in
        let name = trim_space n in
        round offered s platform user name (filled f platform user name) >>= λ r. elim r [
          | accepted name' current ↦ admit offered now platform name' current extensions
          | again g none ↦ on_board offered extensions g shown forms
          | again g (some m) ↦ on_board offered extensions g (shown ++ m ∷ []) forms
        ]
    on_board offered extensions f shown (_ ∷ forms) = returns gave_up
