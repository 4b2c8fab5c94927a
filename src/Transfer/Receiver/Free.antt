-- ===== src/Transfer/Receiver/Free.antt =====
-- The path that the client saves a file at.
use underground_node_network.Base.{
  ◌+◌, ◌≡◌, ◌⊎◌, [], ◌∷◌, List, true, false, arith, refl, none, length, inl, inr, Bool-cases,
}
use underground_node_network.Map.{Map, get}
use underground_node_network.Text.{Text, text_key}
use underground_node_network.Transfer.UniquePath.Free.{among, get_unique_path_free}
use underground_node_network.Transfer.Receiver.{Client, path_exists, free_path}

keys : {V : Type 0} → Map Text V → List Text
keys [] = []
keys ((k, v) ∷ m) = k ∷ keys m

length-keys : {V : Type 0} (m : Map Text V) → length (keys m) ≡ length m
unfolding keys
length-keys [] = refl
length-keys ((k, v) ∷ m) = rw (length-keys m)

among-keys : {V : Type 0} (m : Map Text V) (r : Text) → among (keys m) r ≡ false → get r m ≡ none
unfolding keys get
among-keys [] r h = refl
among-keys ((k, v) ∷ m) r h = ground (arith, among-keys m r)

path_exists-among : (c : Client) (p : Text) → path_exists c p ≡ true → among (keys c.files) p ≡ true
unfolding path_exists
path_exists-among c p h = elim (Bool-cases (among (keys c.files) p)) [
  | inl here ↦ here
  | inr not_here ↦ let gone = among-keys c.files p not_here in absurd (ground arith)
]

-- getUniquePath returns, and no file has the path that it returns.
pub free_path_lem :
    (c : Client) (path : Text)
    → (path_exists c (free_path c path) ≡ false)
      × ((free_path c path ≡ path) ⊎ (path_exists c path ≡ true))
unfolding free_path path_exists
free_path_lem c path =
    let (p, e, free, kept) =
      get_unique_path_free (path_exists c) (length c.files + 1) path (keys c.files)
        (ground (arith, length-keys c.files)) (path_exists-among c) in
    rw (free_path, e) (free, kept)
