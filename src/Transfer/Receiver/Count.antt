-- ===== src/Transfer/Receiver/Count.antt =====
-- Counting the indices below `n` that pass a test.
use underground_node_network.Base.{
  ℕ, zero, suc, ◌+◌, ◌≤◌, ◌<◌, ◌≡◌, [], ◌∷◌, ◌++◌, List, Bool, true, false, ◌||◌, ◌==◌, ==_iff,
  arith, refl, ℕ_discrete,
}

-- `j` is in the list.
abbrev pub has : List ℕ → ℕ → Bool
has [] j = false
has (k ∷ ks) j = k == j || has ks j

pub has-append : (ks : List ℕ) (k j : ℕ) → has (ks ++ k ∷ []) j ≡ (has ks j || k == j)
has-append [] k j = ground arith
has-append (i ∷ ks) k j = ground (arith, has-append ks k j)

abbrev one : Bool → ℕ
one true = 1
one false = 0

unfoldable pub tally : ℕ → (ℕ → Bool) → ℕ
tally zero p = 0
tally (suc n) p = tally n p + one (p n)

pub tally-le : (n : ℕ) (p : ℕ → Bool) → tally n p ≤ n
unfolding tally
tally-le zero p = omega arith
tally-le (suc n) p = ground (arith, tally-le n p)

-- A full count leaves no index out.
pub tally_full : (n : ℕ) (p : ℕ → Bool) (k : ℕ) → n ≤ tally n p → k < n → p k ≡ true
unfolding tally
tally_full zero p k h lt = absurd (omega arith)
tally_full (suc n) p k h lt = elim (ℕ_discrete k n) [
  | yes e ↦ rw e (ground (arith, tally-le n p))
  | no ne ↦ tally_full n p k (ground (arith, tally-le n p)) (omega arith)
]

pub tally_all : (n : ℕ) (p : ℕ → Bool) → ((k : ℕ) → k < n → p k ≡ true) → tally n p ≡ n
unfolding tally
tally_all zero p h = refl
tally_all (suc n) p h = ground (arith, h n, tally_all n p (λ k lt. h k (omega arith)))

pub tally_none : (n : ℕ) → tally n (λ _. false) ≡ 0
unfolding tally
tally_none zero = refl
tally_none (suc n) = rw (tally_none n)

pub tally_same : (n : ℕ) (p q : ℕ → Bool) → ((j : ℕ) → q j ≡ p j) → tally n q ≡ tally n p
unfolding tally
tally_same zero p q h = refl
tally_same (suc n) p q h = ground (arith, h n, tally_same n p q h)

tally_above :
    (n k : ℕ) (p q : ℕ → Bool) → n ≤ k → ((j : ℕ) → q j ≡ (p j || k == j)) → tally n q ≡ tally n p
unfolding tally
tally_above zero k p q le h = refl
tally_above (suc n) k p q le h = ground (arith, h n, tally_above n k p q)

-- A new index below `n` counts once.
pub tally_new :
    (n k : ℕ) (p q : ℕ → Bool)
    → k < n
    → p k ≡ false
    → ((j : ℕ) → q j ≡ (p j || k == j))
    → tally n q ≡ tally n p + 1
unfolding tally
tally_new zero k p q lt fresh h = absurd (omega arith)
tally_new (suc n) k p q lt fresh h = elim (ℕ_discrete k n) [
  | yes e ↦ let at = h k in let at' = h n in ground (arith, tally_above n k p q)
  | no ne ↦ ground (arith, h n, tally_new n k p q)
]

-- An index that was there already does not count again.
pub tally_old :
    (n k : ℕ) (p q : ℕ → Bool)
    → p k ≡ true
    → ((j : ℕ) → q j ≡ (p j || k == j))
    → tally n q ≡ tally n p
tally_old n k p q old h = tally_same n p q (λ j. ground (arith, h j, ==_iff k j))
