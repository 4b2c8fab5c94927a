-- ===== src/Transfer/Receiver/Slots.antt =====
-- The slice of blocks that assembleFile fills, as a function of the index.
use underground_node_network.Base.{
  ℕ, zero, suc, ◌+◌, ◌≤◌, ◌<◌, ◌≡◌, [], ◌∷◌, List, true, ◌==◌, ==_iff, arith, if◌then◌else◌, refl,
  Option, some, set, replicate, Bytes,
}
use underground_node_network.Transfer.Receiver.Count.{has}

-- The values of `f` at `n` indices from `i` on.
abbrev pub tabulate {ℓ} : {A : Type ℓ} → ℕ → ℕ → (ℕ → A) → List A
tabulate i zero f = []
tabulate i (suc n) f = f i ∷ tabulate (suc i) n f

module _ {A : Type 0} where
  pub tabulate_same :
      (i n : ℕ) (f g : ℕ → A)
      → ((j : ℕ) → i ≤ j → j < i + n → f j ≡ g j)
      → tabulate i n f ≡ tabulate i n g
  tabulate_same i zero f g h = refl
  tabulate_same i (suc n) f g h =
      let here = h i (omega arith) (omega arith) in
      let rest = tabulate_same (suc i) n f g (λ j le lt. h j (omega arith) (omega arith)) in cc

  pub tabulate-replicate : (i n : ℕ) (a : A) → replicate n a ≡ tabulate i n (λ _. a)
  tabulate-replicate i zero a = refl
  tabulate-replicate i (suc n) a = let rest = tabulate-replicate (suc i) n a in cc

  -- `f` with the value at `k` replaced.
  abbrev pub update : (ℕ → A) → ℕ → A → ℕ → A
  update f k v j = if k == j then v else f j

  pub set-tabulate :
      (i n k : ℕ) (f : ℕ → A) (v : A) → set (tabulate i n f) k v ≡ tabulate i n (update f (i + k) v)
  set-tabulate i zero k f v = refl
  set-tabulate i (suc n) zero f v =
      let head : v ≡ update f (i + 0) v i = ground arith in
      let tail = tabulate_same (suc i) n f (update f (i + 0) v) (λ j le lt. ground arith) in cc
  set-tabulate i (suc n) (suc k) f v =
      let head : f i ≡ update f (i + suc k) v i = ground arith in
      let place : suc i + k ≡ i + suc k = omega arith in
      let tail : set (tabulate (suc i) n f) k v ≡ tabulate (suc i) n (update f (i + suc k) v) =
        rw place at (set-tabulate (suc i) n k f v) in
      cc

-- The blocks `chunk` put into the slots of the indices `ks`, over what `f` has there.
abbrev pub filled : (ℕ → Bytes) → List ℕ → (ℕ → Option Bytes) → ℕ → Option Bytes
filled chunk [] f = f
filled chunk (k ∷ ks) f = filled chunk ks (update f k (some (chunk k)))

pub filled-has :
    (chunk : ℕ → Bytes) (ks : List ℕ) (f : ℕ → Option Bytes) (j : ℕ)
    → filled chunk ks f j ≡ (if has ks j then some (chunk j) else f j)
filled-has chunk [] f j = refl
filled-has chunk (k ∷ ks) f j =
    let ih = filled-has chunk ks (update f k (some (chunk k))) j in ground (arith, ==_iff k j)

pub all_filled :
    (chunk : ℕ → Bytes) (n : ℕ) (ks : List ℕ) (f : ℕ → Option Bytes)
    → ((j : ℕ) → j < n → has ks j ≡ true)
    → tabulate 0 n (filled chunk ks f) ≡ tabulate 0 n (λ j. some (chunk j))
all_filled chunk n ks f h =
    tabulate_same 0 n _ _ (λ j le lt. ground (arith, filled-has chunk ks f j, h j (omega arith)))
