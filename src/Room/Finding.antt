-- ===== src/Room/Finding.antt =====
-- Looking for a person finds the same one after that person, or another, has got a message.
use underground_node_network.Base.{
  ◌≡◌, refl, sym, ap, ◌∙◌, [], ◌∷◌, Bool, true, false, Option, some, Bool-cases, inl, inr, same,
  some_injective,
}
use underground_node_network.Map.{Map, get, put}
use underground_node_network.Text.{Text, text_key}
use underground_node_network.Room.{Person, RoomServer, set_person, add_message_to_history}
use underground_node_network.Room.Commands.Talk.{find_person}
use underground_node_network.Room.Steps.{SameStanding, Steps}

-- The first person that passes the test has the key.
abbrev pub FoundIn : (Person → Bool) → Option Text → Map Text Person → Type 0
FoundIn test key people =
    (id : Text) × (r : Person) × (find_person test people ≡ some (id, r)) × (r.pub_key ≡ key)

abbrev pub Found : (Person → Bool) → Option Text → RoomServer → Type 0
Found test key s = FoundIn test key s.people

module _ (test : Person → Bool) (key : Option Text) where
  put-FoundIn :
      (id : Text) (p q : Person) (people : Map Text Person)
      → get id people ≡ some p
      → test q ≡ test p
      → q.pub_key ≡ p.pub_key
      → FoundIn test key people
      → FoundIn test key (put id q people)
  unfolding find_person get put
  put-FoundIn id p q [] known eq same_key found = cc
  put-FoundIn id p q ((j, w) ∷ people) known eq same_key (i, r, e, k) =
      elim (Bool-cases (same j id)) [
        | inl here ↦ rw here (replaced (some_injective (rw here at known)))
        | inr there ↦ rw there (elim (Bool-cases (test w)) [
          | inl hit ↦ rw (find_person, hit) (j, w, refl, in_first hit)
          | inr miss ↦
              let (i', r', e', k') =
                put-FoundIn id p q people (rw there at known) eq same_key (i, r, later miss, k) in
              (i', r', rw (find_person, miss) e', k')
        ])
      ]
    where
      law : find_person test ((j, w) ∷ people) ≡ some (i, r)
      law = e

      in_first : test w ≡ true → w.pub_key ≡ key
      in_first hit =
          let is_first : (j, w) ≡ (i, r) = some_injective (rw (find_person, hit) at law) in
          ap (λ x. x.1.pub_key) is_first ∙ k

      later : test w ≡ false → find_person test people ≡ some (i, r)
      later miss = rw (find_person, miss) at law

      replaced : w ≡ p → FoundIn test key ((id, q) ∷ people)
      replaced is_p = elim (Bool-cases (test q)) [
        | inl hit ↦
            let hit_w : test w ≡ true = ap test is_p ∙ sym eq ∙ hit in
            let has_key : q.pub_key ≡ key =
              same_key ∙ ap (λ x. x.pub_key) (sym is_p) ∙ in_first hit_w in
            (id, q, rw (find_person, hit) refl, has_key)
        | inr miss ↦
            let miss_w : test w ≡ false = ap test is_p ∙ sym eq ∙ miss in
            (i, r, rw (find_person, miss) (later miss_w), k)
      ]

  pub Found-Steps :
      ((p q : Person) → SameStanding p q → test q ≡ test p) → Steps (Found test key) Unit Unit ⊥
  unfolding set_person add_message_to_history
  Found-Steps kept = record {
    to_history = λ k m s h. h;
    clear_history = λ k s h. h;
    move = λ id p q s known same_one h.
        put-FoundIn id p q s.people known (kept p q same_one) same_one.1 h;
    no_screen = λ id p s h known e. tt;
    keys = λ s h. inl tt;
    no_bus = λ never. absurd never;
    send = λ never. absurd never;
    shut = λ never. absurd never;
    ban = λ never. absurd never;
    change_lock = λ never. absurd never;
  }
