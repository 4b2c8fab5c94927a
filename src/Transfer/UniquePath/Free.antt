-- ===== src/Transfer/UniquePath/Free.antt =====
-- The path that getUniquePath returns does not exist, and where finitely many paths exist the loop
-- ends after at most one round more than there are.
use mathlib.Core.List.{append_cancel_left, append_cancel_right}
use underground_node_network.Base.{
  ◌⊎◌, ℕ, zero, suc, ◌+◌, ◌≤◌, ◌<◌, ◌≡◌, ◌≢◌, refl, List, [], ◌∷◌, ◌++◌, Bool, true, false, some,
  arith, if◌then◌else◌, Bool-cases, inl, inr, length, ◌||◌,
}
use underground_node_network.Text.{Text, text_eq, text_eq_iff, runes, trim_suffix}
use underground_node_network.Text.Decimal.{decimal, decimal-injective}
use underground_node_network.Transfer.UniquePath.{file_ext, numbered, first_free, get_unique_path}

-- `p` is in the list.
abbrev pub among : List Text → Text → Bool
among [] p = false
among (q ∷ qs) p = text_eq q p || among qs p

-- The list without its first `p`.
without : Text → List Text → List Text
without p [] = []
without p (q ∷ qs) = if text_eq q p then qs else q ∷ without p qs

length-without :
    (p : Text) (qs : List Text) → among qs p ≡ true → length qs ≡ length (without p qs) + 1
unfolding without
length-without p [] h = cc
length-without p (q ∷ qs) h = ground (arith, length-without p qs)

among-without :
    (p r : Text) (qs : List Text) → p ≢ r → among qs r ≡ true → among (without p qs) r ≡ true
unfolding without
among-without p r [] ne h = h
among-without p r (q ∷ qs) ne h =
    ground (arith, among-without p r qs ne, text_eq_iff q p, text_eq_iff q r)

numbered-injective : (base ext : Text) (m n : ℕ) → numbered base ext m ≡ numbered base ext n → m ≡ n
unfolding numbered
numbered-injective base ext m n e = decimal-injective m n (
    append_cancel_right (decimal m) (decimal n) (runes ")" ++ ext)
      (append_cancel_left (runes " (") _ _ (append_cancel_left base _ _ e)))

-- With more rounds than there are paths `qs` in the way, the loop finds a free one.
first_free_found :
    (exists : Text → Bool) (base ext : Text) (fuel counter : ℕ) (qs : List Text)
    → length qs < fuel
    → ((m : ℕ)
        → counter ≤ m
        → exists (numbered base ext m) ≡ true
        → among qs (numbered base ext m) ≡ true)
    → (p : Text) × (first_free exists fuel base ext counter ≡ some p) × (exists p ≡ false)
unfolding first_free
first_free_found exists base ext zero counter qs h cover = absurd (omega arith)
first_free_found exists base ext (suc fuel) counter qs h cover =
    elim (Bool-cases (exists (numbered base ext counter))) [
      | inr free ↦ rw free (numbered base ext counter, refl, free)
      | inl taken ↦
          let here = cover counter (omega arith) taken in
          rw taken (
            first_free_found exists base ext fuel (counter + 1)
              (without (numbered base ext counter) qs)
              (omega (arith, length-without (numbered base ext counter) qs here))
              (λ m le ex.
                among-without (numbered base ext counter) (numbered base ext m) qs
                  (λ e. absurd (later m le (numbered-injective base ext counter m e)))
                  (cover m (omega arith) ex)))
    ]
  where
    later : (m : ℕ) → counter + 1 ≤ m → counter ≢ m
    later m le e = omega arith

-- Where all existing paths are among `qs` and there are more rounds than paths, getUniquePath returns
-- a path, the path does not exist, and it is the wished one if that does not exist.
pub get_unique_path_free :
    (exists : Text → Bool) (fuel : ℕ) (path : Text) (qs : List Text)
    → length qs < fuel
    → ((p : Text) → exists p ≡ true → among qs p ≡ true)
    → (p : Text) × (get_unique_path exists fuel path ≡ some p)
      × (exists p ≡ false)
      × ((p ≡ path) ⊎ (exists path ≡ true))
unfolding get_unique_path
get_unique_path_free exists fuel path qs h cover = elim (Bool-cases (exists path)) [
  | inr free ↦ rw free (path, refl, free, inl refl)
  | inl taken ↦
      let (p, e, free) =
        first_free_found exists (trim_suffix path (file_ext path)) (file_ext path) fuel 1 qs h
          (λ m _ ex. cover _ ex) in
      rw taken (p, e, free, inr refl)
]
