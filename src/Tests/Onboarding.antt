-- ===== src/Tests/Onboarding.antt =====
-- A run of the theorem on the onboarding form.
use underground_node_network.Base.{[], ◌∷◌, ◌++◌, List, none, some, Outcome, returns}
use underground_node_network.Text.{Text, runes}
use underground_node_network.Entrypoint.State.{Server, fresh_server}
use underground_node_network.Entrypoint.Onboarding.{
  Fetched, has_body, new_fields, Onboarded, welcomed, on_board,
}

abbrev as_is : Text → Text
as_is t = t

-- Every page lists the same two keys.
abbrev fetch : Text → Fetched
fetch url = has_body (runes "k1" ++ 10 ∷ runes "k2")

-- ann first submits a form without an account.
abbrev forms : List (Server × Server × List Text)
forms =
    (fresh_server none none, fresh_server none none, runes "github" ∷ [] ∷ runes "annie" ∷ [])
    ∷ (
      fresh_server none none,
      fresh_server none none,
      runes "github" ∷ runes "ann" ∷ runes "annie" ∷ [],
    )
    ∷ []

abbrev outcome : Outcome Onboarded
outcome =
    on_board fetch some as_is as_is (runes "2024-01-01") (some (runes "k2")) []
      (new_fields (runes "ann")) [] forms

abbrev server_of : Outcome Onboarded → Server
server_of (returns (welcomed t name extensions)) = t
server_of _ = fresh_server none none

abbrev name_of : Outcome Onboarded → Text
name_of (returns (welcomed t name extensions)) = name
name_of _ = []
