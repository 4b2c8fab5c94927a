-- ===== src/Transfer/UniquePath.antt =====
-- cmd/unn-client/utils.go: getUniquePath, over a test of the paths that exist.
pub mod Free
use underground_node_network.Base.{
  ℕ, zero, suc, ◌+◌, [], ◌∷◌, ◌++◌, Bool, true, false, not, ◌&&◌, ◌||◌, ◌==◌, Option, none, some,
  if◌then◌else◌,
}
use underground_node_network.Text.{Text, runes, trim_suffix}
use underground_node_network.Text.Decimal.{decimal}

unfoldable pub has_rune : ℕ → Text → Bool
has_rune c [] = false
has_rune c (d ∷ s) = d == c || has_rune c s

-- filepath.Ext: from the last dot of the last element on.
unfoldable pub file_ext : Text → Text
unfolding has_rune
file_ext [] = []
file_ext (c ∷ s) = elim (file_ext s) [
  | [] ↦ if c == b'.' && not (has_rune b'/' s) then c ∷ s else []
  | d ∷ ext ↦ d ∷ ext
]

-- "%s (%d)%s"
unfoldable pub numbered : Text → Text → ℕ → Text
unfolding decimal
numbered base ext counter = base ++ (runes " (" ++ (decimal counter ++ (runes ")" ++ ext)))

module _ (exists : Text → Bool) where
  -- The loop, for at most `fuel` rounds.
  unfoldable pub first_free : ℕ → Text → Text → ℕ → Option Text
  first_free zero base ext counter = none
  first_free (suc fuel) base ext counter =
      let more = first_free fuel base ext (counter + 1) in
      if not (exists (numbered base ext counter)) then some (numbered base ext counter) else more

  unfoldable pub get_unique_path : ℕ → Text → Option Text
  get_unique_path fuel path =
      if not (exists path)
      then some path
      else first_free fuel (trim_suffix path (file_ext path)) (file_ext path) 1
