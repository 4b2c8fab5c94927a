-- ===== src/Entrypoint/Api/Reflexive.antt =====
-- internal/entrypoint/punch_coord.go: the address of a client as the entry point sees it.
use underground_node_network.Base.{
  ℕ, ◌≡◌, ◌≢◌, ◌⊎◌, refl, ap, ◌∙◌, [], ◌∷◌, ◌++◌, List, Bool, true, false, Option, none, some, All,
  inl, inr, Bool-cases,
}
use underground_node_network.Text.{Text, runes, text_eq, text_eq_iff, text_ne}
use underground_node_network.Protocol.{PunchOfferPayload}
use underground_node_network.Entrypoint.State.{Conn}
use underground_node_network.Entrypoint.Api.{has_candidate, client_port, with_public, reflexive}

-- The text stands somewhere in the list.
abbrev pub StandsIn : Text → List Text → Type 0
StandsIn t cs = (front : List Text) × (back : List Text) × (cs ≡ front ++ t ∷ back)

has_candidate-cases :
    (t : Text) (cs : List Text)
    → ((has_candidate t cs ≡ true) × StandsIn t cs)
      ⊎ ((has_candidate t cs ≡ false) × All (λ c. c ≢ t) cs)
unfolding has_candidate
has_candidate-cases t [] = inr (refl, tt)
has_candidate-cases t (c ∷ cs) = elim (Bool-cases (text_eq c t)) [
  | inl eq ↦ inl (rw (has_candidate, eq) refl, ([], cs, ap (λ d. d ∷ cs) ((text_eq_iff c t).0 eq)))
  | inr ne ↦ elim (has_candidate-cases t cs) [
    | inl (there, (front, back, e)) ↦
        inl (rw (has_candidate, ne) there, (c ∷ front, back, ap (λ d. c ∷ d) e))
    | inr (new, others) ↦
        inr (rw (has_candidate, ne) new, ((λ e. cc (ne, (text_eq_iff c t).1 e)), others))
  ]
]

-- A list of the shape before ++ c ∷ after is not empty.
shape :
    (before after : List Text) (c : Text)
    → (d : Text) × (ds : List Text) × (before ++ c ∷ after ≡ d ∷ ds)
shape [] after c = (c, after, refl)
shape (b ∷ before) after c = (b, before ++ c ∷ after, refl)

module _ (split_host_port : Text → Option (Text × Text)) (is_ipv4 : Text → Bool)
    (encodes : ℕ → PunchOfferPayload → Bool) (today : Text) (conn : Conn) where
  -- No port, port 0 or no address at all.
  abbrev pub IsUnusable : Text → Type 0
  IsUnusable c =
      (split_host_port c ≡ none)
      ⊎ (((host : Text) × (split_host_port c ≡ some (host, [])))
          ⊎ ((host : Text) × (split_host_port c ≡ some (host, runes "0"))))

  client_port_first :
      (before after : List Text) (c host port : Text)
      → All IsUnusable before
      → split_host_port c ≡ some (host, port)
      → port ≢ []
      → port ≢ runes "0"
      → client_port split_host_port is_ipv4 encodes today conn (before ++ c ∷ after) ≡ port
  unfolding client_port text_eq
  client_port_first [] after c host port none_usable splits given not_zero =
      let e1 = text_ne port [] given in
      let e2 = text_ne port (runes "0") not_zero in rw (client_port, splits, e1, e2) refl
  client_port_first (b ∷ before) after c host port (bad, rest) splits given not_zero =
      skip bad (client_port_first before after c host port rest splits given not_zero)
    where
      skip :
          IsUnusable b
          → client_port split_host_port is_ipv4 encodes today conn (before ++ c ∷ after) ≡ port
          → client_port split_host_port is_ipv4 encodes today conn (b ∷ (before ++ c ∷ after))
            ≡ port
      skip (inl e) ih = rw (client_port, e) ih
      skip (inr (inl (h, e))) ih = rw (client_port, e) ih
      skip (inr (inr (h, e))) ih = rw (client_port, e) ih

  reflexive-with_public :
      (cs : List Text) (d : Text) (ds : List Text) (host remote_port port : Text)
      → cs ≡ d ∷ ds
      → split_host_port conn.remote_addr ≡ some (host, remote_port)
      → is_ipv4 host ≡ true
      → client_port split_host_port is_ipv4 encodes today conn cs ≡ port
      → port ≢ []
      → reflexive split_host_port is_ipv4 encodes today conn cs
        ≡ with_public split_host_port is_ipv4 encodes today conn (host ++ b':' ∷ port) cs
  unfolding reflexive
  reflexive-with_public [] d ds host remote_port port e remote v4 mine given = cc
  reflexive-with_public (c ∷ cs) d ds host remote_port port e remote v4 mine given =
      rw (reflexive, remote, v4, mine, text_ne port [] given) refl

  -- Where the client's remote address splits to `host`, an IPv4 address, and `c` is the first of its
  -- candidates with a port that is given and not 0, the room is offered host:port with that port in
  -- front of the candidates if it is none of them, and the candidates as they are if it is one of them.
  pub reflexive_address :
      (before after : List Text) (c host remote_port its_host port : Text)
      → split_host_port conn.remote_addr ≡ some (host, remote_port)
      → is_ipv4 host ≡ true
      → All IsUnusable before
      → split_host_port c ≡ some (its_host, port)
      → port ≢ []
      → port ≢ runes "0"
      → (All (λ d. d ≢ host ++ b':' ∷ port) (before ++ c ∷ after)
          × (reflexive split_host_port is_ipv4 encodes today conn (before ++ c ∷ after)
              ≡ (host ++ b':' ∷ port) ∷ (before ++ c ∷ after)))
        ⊎ (StandsIn (host ++ b':' ∷ port) (before ++ c ∷ after)
            × (reflexive split_host_port is_ipv4 encodes today conn (before ++ c ∷ after)
                ≡ before ++ c ∷ after))
  unfolding with_public
  reflexive_address before after c host remote_port its_host port remote v4 skipped splits given
        not_zero =
      let cs = before ++ c ∷ after in
      let (d, ds, e) = shape before after c in
      let mine = client_port_first before after c its_host port skipped splits given not_zero in
      let law = reflexive-with_public cs d ds host remote_port port e remote v4 mine given in
      elim (has_candidate-cases (host ++ b':' ∷ port) cs) [
        | inl (there, place) ↦ inr (place, law ∙ rw (with_public, there) refl)
        | inr (new, others) ↦ inl (others, law ∙ rw (with_public, new) refl)
      ]
