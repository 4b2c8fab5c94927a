-- ===== src/Entrypoint/Operator/Keeps.antt =====
-- The owners of the registered names, and what it is to keep them.
use underground_node_network.Base.{
  ◌≡◌, refl, sym, ap, ◌∙◌, subst, [], ◌∷◌, ◌++◌, List, Option, none, some, if◌then◌else◌,
  Bool-cases, inl, inr, same, some_injective,
}
use underground_node_network.Map.{get, put, get-put}
use underground_node_network.Text.{Text, text_eq_iff, text_key, Lacks}
use underground_node_network.Text.Split.{split, split-append, split-long}
use underground_node_network.Entrypoint.State.{Server}
use underground_node_network.Entrypoint.Store.{three, save_rooms}
use underground_node_network.Entrypoint.Operator.{write_registry}

-- The second part of what is registered.
abbrev pub owner_of : Text → Option Text
owner_of info = elim (split info b' ') [
  | [] ↦ none
  | host ∷ rest ↦ elim rest [ [] ↦ none | owner ∷ _ ↦ some owner ]
]

abbrev pub IsOwnedBy : Server → Text → Text → Type 0
IsOwnedBy s name owner =
    (info : Text) × (get name s.registered_rooms ≡ some info) × (owner_of info ≡ some owner)

-- Everything registered has an owner.
abbrev pub AllOwned : Server → Type 0
AllOwned s =
    (name info : Text)
    → get name s.registered_rooms ≡ some info
    → (owner : Text) × (owner_of info ≡ some owner)

-- `t` follows `s`: all owned, the old owners the same.
abbrev pub Keeps : Server → Server → Type 0
Keeps s t = AllOwned t × ((name owner : Text) → IsOwnedBy s name owner → IsOwnedBy t name owner)

pub owner_of-three : (h o d : Text) → Lacks b' ' h → Lacks b' ' o → owner_of (three h o d) ≡ some o
owner_of-three h o d hh ho =
    rw (owner_of, split-append h (o ++ b' ' ∷ d) b' ' hh, split-append o d b' ' ho) refl

pub owner_of-some : (h o d : Text) → (owner : Text) × (owner_of (three h o d) ≡ some owner)
owner_of-some h o d =
    let (a, b, ps, e) = split-long h (o ++ b' ' ∷ d) b' ' in (b, rw (owner_of, e) refl)

pub write_registry-Keeps :
    (s : Server) (name info : Text)
    → AllOwned s
    → (owner : Text) × (owner_of info ≡ some owner)
    → ((old : Text) → IsOwnedBy s name old → owner_of info ≡ some old)
    → Keeps s (write_registry s name info)
unfolding write_registry save_rooms
write_registry-Keeps s name info all (owner, e) kept = (owned, stays)
  where
    law :
        (n : Text)
        → get n (put name info s.registered_rooms)
          ≡ (if same name n then some info else get n s.registered_rooms)
    law n = get-put name n info s.registered_rooms

    owned : AllOwned (write_registry s name info)
    owned n i known = elim (Bool-cases (same name n)) [
      | inl eq ↦ (owner, ap owner_of (sym (some_injective (sym (rw eq at (law n)) ∙ known))) ∙ e)
      | inr ne ↦ all n i (sym (rw ne at (law n)) ∙ known)
    ]

    stays : (n o : Text) → IsOwnedBy s n o → IsOwnedBy (write_registry s name info) n o
    stays n o (i, known, of) = elim (Bool-cases (same name n)) [
      | inl eq ↦
          let is_n : name ≡ n = (text_eq_iff name n).0 eq in
          (info, rw eq at (law n), kept o (subst (λ m. IsOwnedBy s m o) (sym is_n) (i, known, of)))
      | inr ne ↦ (i, rw ne at (law n) ∙ known, of)
    ]

pub split_parts :
    (info owner : Text)
    → owner_of info ≡ some owner
    → (host : Text) × (rest : List Text) × (split info b' ' ≡ host ∷ owner ∷ rest)
split_parts info owner e = go (split info b' ') e
  where
    go :
        (l : List Text)
        → (elim l as (λ _. Option Text) [
          | [] ↦ none
          | host ∷ rest ↦ elim rest [ [] ↦ none | o ∷ _ ↦ some o ]
        ])
          ≡ some owner
        → (host : Text) × (rest : List Text) × (l ≡ host ∷ owner ∷ rest)
    go [] e' = cc
    go (host ∷ []) e' = cc
    go (host ∷ o ∷ rest) e' = (host, rest, ap (λ x. host ∷ x ∷ rest) (some_injective e'))

pub Keeps-refl : (s : Server) → AllOwned s → Keeps s s
Keeps-refl s all = (all, λ n o h. h)

pub Keeps-same : (s t : Server) → AllOwned s → t.registered_rooms ≡ s.registered_rooms → Keeps s t
Keeps-same s t all e =
    (λ n i k. all n i (sym (ap (get n) e) ∙ k), λ n o (i, k, of). (i, ap (get n) e ∙ k, of))
