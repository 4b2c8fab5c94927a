-- ===== src/Text/Split.antt =====
-- strings.Split and strings.SplitN at a separator of one character, and the laws that
-- a text put together with that separator is taken apart into its parts.
use underground_node_network.Base.{
  ℕ, zero, suc, ◌≡◌, ◌≢◌, refl, List, [], ◌∷◌, ◌++◌, arith, ◌==◌, ==_iff, if◌then◌else◌, All, inl,
  inr, Bool-cases,
}
use underground_node_network.Text.{Text, Lacks}

-- Put a character in front of the first part.
unfoldable pub onto_first : ℕ → List Text → List Text
onto_first c [] = (c ∷ []) ∷ []
onto_first c (p ∷ ps) = (c ∷ p) ∷ ps

unfoldable pub split : Text → ℕ → List Text
unfolding onto_first
split [] sep = [] ∷ []
split (c ∷ s) sep = let rest = split s sep in if c == sep then [] ∷ rest else onto_first c rest

-- Between the first separator and the end, for at most `n` parts.
unfoldable pub split_n : ℕ → Text → ℕ → List Text
unfolding onto_first
split_n zero s sep = []
split_n (suc zero) s sep = s ∷ []
split_n (suc (suc n)) [] sep = [] ∷ []
split_n (suc (suc n)) (c ∷ s) sep =
    let cut = split_n (suc n) s sep in
    let more = split_n (suc (suc n)) s sep in if c == sep then [] ∷ cut else onto_first c more

pub split-Lacks : (p : Text) (sep : ℕ) → Lacks sep p → split p sep ≡ p ∷ []
unfolding split
split-Lacks [] sep h = refl
split-Lacks (c ∷ p) sep (hc, hp) = ground (arith, split-Lacks p sep hp)

pub split-append :
    (p rest : Text) (sep : ℕ) → Lacks sep p → split (p ++ sep ∷ rest) sep ≡ p ∷ split rest sep
unfolding split
split-append [] rest sep h = ground arith
split-append (c ∷ p) rest sep (hc, hp) = ground (arith, split-append p rest sep hp)

pub split-ne-nil : (s : Text) (sep : ℕ) → split s sep ≢ []
unfolding split
split-ne-nil [] sep = ground arith
split-ne-nil (c ∷ s) sep = ground (arith, split-ne-nil s sep)

pub split_n-Lacks : (n : ℕ) (p : Text) (sep : ℕ) → Lacks sep p → split_n (suc n) p sep ≡ p ∷ []
unfolding split_n
split_n-Lacks zero p sep h = refl
split_n-Lacks (suc n) [] sep h = refl
split_n-Lacks (suc n) (c ∷ p) sep (hc, hp) = ground (arith, split_n-Lacks (suc n) p sep hp)

pub split_n-append :
    (n : ℕ) (p rest : Text) (sep : ℕ)
    → Lacks sep p
    → split_n (suc (suc n)) (p ++ sep ∷ rest) sep ≡ p ∷ split_n (suc n) rest sep
unfolding split_n
split_n-append n [] rest sep h = ground arith
split_n-append n (c ∷ p) rest sep (hc, hp) = ground (arith, split_n-append n p rest sep hp)

-- A text with a separator has two parts at least.
pub split-long :
    (p rest : Text) (sep : ℕ)
    → (a : Text) × (b : Text) × (ps : List Text) × (split (p ++ sep ∷ rest) sep ≡ a ∷ b ∷ ps)
unfolding split onto_first
split-long [] rest sep = go (split rest sep) (split-ne-nil rest sep)
  where
    go :
        (l : List Text)
        → l ≢ []
        → (a : Text) × (b : Text) × (ps : List Text) × ((if sep == sep
              then [] ∷ l
              else onto_first sep l)
            ≡ a ∷ b ∷ ps)
    go [] ne = absurd (ne refl)
    go (b ∷ ps) ne = ([], b, ps, ground arith)
split-long (c ∷ p) rest sep =
    let (a, b, ps, e) = split-long p rest sep in
    elim (Bool-cases (c == sep)) [
      | inl eq ↦ ([], a, b ∷ ps, rw (split, e, eq) refl)
      | inr ne ↦ (c ∷ a, b, ps, rw (split, e, ne) refl)
    ]

-- No part has the separator in it.
pub split-All-Lacks : (s : Text) (sep : ℕ) → All (Lacks sep) (split s sep)
unfolding split onto_first
split-All-Lacks [] sep = (tt, tt)
split-All-Lacks (c ∷ s) sep = go (split s sep) (split-All-Lacks s sep)
  where
    go :
        (l : List Text)
        → All (Lacks sep) l
        → All (Lacks sep) (if c == sep then [] ∷ l else onto_first c l)
    go l h = elim (Bool-cases (c == sep)) [
      | inl eq ↦ rw eq (tt, h)
      | inr ne ↦ rw ne (put_on l h (λ e. ground (arith, ==_iff c sep)))
    ]
      where
        put_on : (l : List Text) → All (Lacks sep) l → c ≢ sep → All (Lacks sep) (onto_first c l)
        put_on [] h ne = ((ne, tt), tt)
        put_on (p ∷ ps) (hp, hs) ne = ((ne, hp), hs)
