-- ===== src/Map/Entries.antt =====
-- Predicates of all entries of a map.
use underground_node_network.Base.{
  ◌≡◌, subst, [], ◌∷◌, some, All, Bool-cases, inl, inr, some_injective, same,
}
use underground_node_network.Base.Eq.{Eq}
use underground_node_network.Map.{Map, get, put, delete}

module _ {K : Type 0} {V : Type 0} ⦃e : Eq K⦄ (P : K × V → Type 0) where
  pub All-get : (k : K) (m : Map K V) (v : V) → All P m → get k m ≡ some v → P (k, v)
  unfolding get
  All-get k [] v h found = cc
  All-get k ((j, w) ∷ m) v (pj, h) found = elim (Bool-cases (same j k)) [
    | inl eq ↦
        let is_w : w ≡ v = some_injective (rw eq at found) in
        subst (λ x. P (x, v)) ((e.beq_iff j k).0 eq) (subst (λ x. P (j, x)) is_w pj)
    | inr ne ↦ All-get k m v h (rw ne at found)
  ]

  pub All-put : (k : K) (v : V) (m : Map K V) → P (k, v) → All P m → All P (put k v m)
  unfolding put
  All-put k v [] pk h = (pk, tt)
  All-put k v ((j, w) ∷ m) pk (pj, h) = elim (Bool-cases (same j k)) [
    | inl eq ↦ rw eq (pk, h)
    | inr ne ↦ rw ne (pj, All-put k v m pk h)
  ]

  pub All-delete : (k : K) (m : Map K V) → All P m → All P (delete k m)
  unfolding delete
  All-delete k [] h = h
  All-delete k ((j, w) ∷ m) (pj, h) = elim (Bool-cases (same j k)) [
    | inl eq ↦ rw eq (All-delete k m h)
    | inr ne ↦ rw ne (pj, All-delete k m h)
  ]
