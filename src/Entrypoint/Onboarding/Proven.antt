-- ===== src/Entrypoint/Onboarding/Proven.antt =====
-- Nobody gets a name without an account that lists the key.
use underground_node_network.Base.{◌≡◌, ◌⊎◌, [], ◌∷◌, ◌++◌, List, Option, some}
use underground_node_network.Map.{Map}
use underground_node_network.Text.{Text, text_key}
use underground_node_network.Entrypoint.State.{Server}
use underground_node_network.Entrypoint.Identity.{store_user}
use underground_node_network.Entrypoint.Onboarding.{Fetched}
use underground_node_network.Entrypoint.Onboarding.Rounds.{Checked, IsProven}

-- One of the forms met the server so, first where the name was looked up, then where it was stored.
abbrev pub Submitted : Server → Server → List (Server × Server × List Text) → Type 0
Submitted s now [] = ⊥
Submitted s now ((t, u, form) ∷ forms) = ((t ≡ s) × (u ≡ now)) ⊎ Submitted s now forms

module _ (fetch : Text → Fetched) (parse_key : Text → Option Text) (to_lower key_hash : Text → Text)
    (today : Text) where
  -- How a server comes to have a new name.
  abbrev pub Admitted : Option Text → List (Server × Server × List Text) → Server → Text → Type 0
  Admitted offered forms t name =
      (s : Server) × (now : Server) × (platform : Text) × (user : Text) × (key : Text) × Submitted s
        now forms
      × (offered ≡ some key)
      × Checked s platform user name
      × IsProven fetch parse_key platform user key
      × (t ≡ store_user today now (key_hash key) name (user ++ b'@' ∷ platform))
