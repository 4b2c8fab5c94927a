-- ===== src/Map.antt =====
-- Go maps as association lists. The order of the entries is the order in which Go ranges over the
-- map: Go leaves it open, and what is proved of a loop over a map holds for every order.
pub mod Entries
use underground_node_network.Base.{
  ◌≡◌, ◌≢◌, refl, sym, ◌∙◌, some_injective, subst, true, false, List, [], ◌∷◌, Option, none, some,
  arith, if◌then◌else◌, same, inl, inr, Bool-cases,
}
use underground_node_network.Base.Eq.{Eq}

abbrev pub Map {ℓ} : Type 0 → Type ℓ → Type ℓ
Map K V = List (K × V)

-- The first of two values that is there.
abbrev pub or_else {ℓ} : {V : Type ℓ} → Option V → Option V → Option V
or_else (some v) o = some v
or_else none o = o

pub or_else-none {ℓ} : {V : Type ℓ} (o : Option V) → or_else o none ≡ o
or_else-none (some v) = refl
or_else-none none = refl

module _ {K : Type 0} ⦃e : Eq K⦄ where
  pub same_self : (k : K) → same k k ≡ true
  same_self k = (e.beq_iff k k).1 refl

  same_sym_false : (j k : K) → same j k ≡ false → same k j ≡ false
  same_sym_false j k h = ground (arith, e.beq_iff j k, e.beq_iff k j)

module _ {ℓ} {K : Type 0} {V : Type ℓ} ⦃e : Eq K⦄ where
  -- v, ok := m[k]
  unfoldable pub get : K → Map K V → Option V
  get k [] = none
  get k ((j, v) ∷ m) = if same j k then some v else get k m

  -- m[k] = v
  unfoldable pub put : K → V → Map K V → Map K V
  put k v [] = (k, v) ∷ []
  put k v ((j, w) ∷ m) = if same j k then (k, v) ∷ m else (j, w) ∷ put k v m

  -- delete(m, k)
  unfoldable pub delete : K → Map K V → Map K V
  delete k [] = []
  delete k ((j, v) ∷ m) = if same j k then delete k m else (j, v) ∷ delete k m

  pub get-put :
      (k j : K) (v : V) (m : Map K V) → get j (put k v m) ≡ (if same k j then some v else get j m)
  unfolding get put
  get-put k j v [] = refl
  get-put k j v ((i, w) ∷ m) =
      ground (arith, e.beq_iff k j, e.beq_iff i k, e.beq_iff i j, get-put k j v m)

  pub get-delete :
      (k j : K) (m : Map K V) → get j (delete k m) ≡ (if same k j then none else get j m)
  unfolding get delete
  get-delete k j [] = ground arith
  get-delete k j ((i, w) ∷ m) =
      ground (arith, e.beq_iff k j, e.beq_iff i k, e.beq_iff i j, get-delete k j m)

  pub get-put_self : (k : K) (v : V) (m : Map K V) → get k (put k v m) ≡ some v
  get-put_self k v m = rw (get-put, same_self k)

  pub get-put_ne : (k j : K) (v : V) (m : Map K V) → k ≢ j → get j (put k v m) ≡ get j m
  get-put_ne k j v m h = rw get-put (ground (arith, e.beq_iff k j))

  pub get-delete_ne : (k j : K) (m : Map K V) → k ≢ j → get j (delete k m) ≡ get j m
  get-delete_ne k j m h = rw get-delete (ground (arith, e.beq_iff k j))

  pub get-delete-some :
      (k j : K) (m : Map K V) (v : V) → get j (delete k m) ≡ some v → get j m ≡ some v
  get-delete-some k j m v e =
      let law = get-delete k j m in
      elim (Bool-cases (same k j)) [
        | inl eq ↦ let gone = rw eq at law in cc
        | inr ne ↦ sym (rw ne at law) ∙ e
      ]

  -- A predicate of all values stays true when a value with it is put in.
  pub put-holds {κ} :
      (P : V → Type κ) (k : K) (v : V) (m : Map K V)
      → P v
      → ((j : K) (w : V) → get j m ≡ some w → P w)
      → (j : K) (w : V) → get j (put k v m) ≡ some w
      → P w
  put-holds P k v m pv h j w e =
      let law = get-put k j v m in
      elim (Bool-cases (same k j)) [
        | inl eq ↦ subst P (some_injective (sym (rw eq at law) ∙ e)) pv
        | inr ne ↦ h j w (sym (rw ne at law) ∙ e)
      ]

  get-delete-none : (k j : K) (m : Map K V) → get j m ≡ none → get j (delete k m) ≡ none
  get-delete-none k j m h = rw get-delete (ground arith)

  get-put-none :
      (k j : K) (v : V) (m : Map K V) → same k j ≡ false → get j m ≡ none → get j (put k v m) ≡ none
  get-put-none k j v m ne h = rw (get-put, ne) h

  -- Each key stands once, as in a Go map.
  abbrev pub UniqueKeys : Map K V → Type ℓ
  UniqueKeys [] = Unit
  UniqueKeys ((k, v) ∷ m) = (get k m ≡ none) × UniqueKeys m

  pub put-UniqueKeys : (k : K) (v : V) (m : Map K V) → UniqueKeys m → UniqueKeys (put k v m)
  unfolding put get
  put-UniqueKeys k v [] h = (refl, tt)
  put-UniqueKeys k v ((j, w) ∷ m) (hj, hm) = elim (Bool-cases (same j k)) [
    | inl eq ↦ rw eq (subst (λ i. get i m ≡ none) ((e.beq_iff j k).0 eq) hj, hm)
    | inr ne ↦ rw ne (get-put-none k j v m (same_sym_false j k ne) hj, put-UniqueKeys k v m hm)
  ]

  pub delete-UniqueKeys : (k : K) (m : Map K V) → UniqueKeys m → UniqueKeys (delete k m)
  unfolding delete
  delete-UniqueKeys k [] h = tt
  delete-UniqueKeys k ((j, w) ∷ m) (hj, hm) = elim (Bool-cases (same j k)) [
    | inl eq ↦ rw eq (delete-UniqueKeys k m hm)
    | inr ne ↦ rw ne (get-delete-none k j m hj, delete-UniqueKeys k m hm)
  ]

  -- All entries of `m` put into `n`, one after the other.
  abbrev pub put_all : Map K V → Map K V → Map K V
  put_all [] n = n
  put_all ((k, v) ∷ m) n = put_all m (put k v n)

  pub get-put_all :
      (j : K) (m n : Map K V) → UniqueKeys m → get j (put_all m n) ≡ or_else (get j m) (get j n)
  unfolding get
  get-put_all j [] n h = refl
  get-put_all j ((k, v) ∷ m) n (hk, hm) =
      let ih = get-put_all j m (put k v n) hm in
      let law = get-put k j v n in
      elim (Bool-cases (same k j)) [
        | inl eq ↦
            let gone : get j m ≡ none = subst (λ i. get i m ≡ none) ((e.beq_iff k j).0 eq) hk in
            rw eq (ih ∙ rw (gone, law, eq) refl)
        | inr ne ↦ rw ne (ih ∙ rw (law, ne) refl)
      ]
