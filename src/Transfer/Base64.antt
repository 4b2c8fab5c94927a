-- ===== src/Transfer/Base64.antt =====
-- Go's base64.StdEncoding: six bits to a character, padded to groups of four; the decoder passes
-- over line breaks.
pub mod RoundTrip
use underground_node_network.Base.{
  ℕ, ◌+◌, ◌-◌, ◌*◌, ◌/◌, ◌%◌, Bool, true, false, not, ◌&&◌, ◌||◌, [], ◌∷◌, List, ltb, leb, ◌==◌,
  if◌then◌else◌, Option, none, some, Bytes,
}
use underground_node_network.Text.{Text}

-- The character of a value below 64.
unfoldable pub digit : ℕ → ℕ
digit n =
    if ltb n 26
    then n + b'A'
    else if ltb n 52
    then n - 26 + b'a'
    else if ltb n 62
    then n - 52 + b'0'
    else if n == 62
    then b'+'
    else b'/'

unfoldable pub value : ℕ → Option ℕ
value c =
    if leb b'A' c && leb c b'Z'
    then some (c - b'A')
    else if leb b'a' c && leb c b'z'
    then some (c - b'a' + 26)
    else if leb b'0' c && leb c b'9'
    then some (c - b'0' + 52)
    else if c == b'+'
    then some 62
    else if c == b'/'
    then some 63
    else none

abbrev pub pad : ℕ
pad = b'='

unfoldable pub encode : Bytes → Text
encode [] = []
encode (a ∷ []) = digit (a / 4) ∷ digit (a % 4 * 16) ∷ pad ∷ pad ∷ []
encode (a ∷ b ∷ []) = digit (a / 4) ∷ digit (a % 4 * 16 + b / 16) ∷ digit (b % 16 * 4) ∷ pad ∷ []
encode (a ∷ b ∷ c ∷ s) =
    digit (a / 4)
    ∷ digit (a % 4 * 16 + b / 16)
    ∷ digit (b % 16 * 4 + c / 64)
    ∷ digit (c % 64)
    ∷ encode s

infixl 5 ◌>>=◌
abbrev pub ◌>>=◌ : {A B : Type 0} → Option A → (A → Option B) → Option B
none >>= f = none
some a >>= f = f a

-- The last group: one, two or three bytes.
unfoldable pub last_group : ℕ → ℕ → ℕ → ℕ → Option Bytes
last_group w x y z =
    if y == pad && z == pad
    then (value w >>= λ i. value x >>= λ j. some ((i * 4 + j / 16) ∷ []))
    else if z == pad
    then (value w >>= λ i.
        value x >>= λ j. value y >>= λ k. some ((i * 4 + j / 16) ∷ (j % 16 * 16 + k / 4) ∷ []))
    else (value w >>= λ i. value x >>= λ j. value y >>= λ k.
        value z >>= λ l. some ((i * 4 + j / 16) ∷ (j % 16 * 16 + k / 4) ∷ (k % 4 * 64 + l) ∷ []))

unfoldable pub decode_groups : Text → Option Bytes
decode_groups [] = some []
decode_groups (w ∷ x ∷ y ∷ z ∷ []) = last_group w x y z
decode_groups (w ∷ x ∷ y ∷ z ∷ v ∷ s) = value w >>= λ i. value x >>= λ j. value y >>= λ k.
    value z >>= λ l. decode_groups (v ∷ s) >>= λ rest.
    some ((i * 4 + j / 16) ∷ (j % 16 * 16 + k / 4) ∷ (k % 4 * 64 + l) ∷ rest)
decode_groups _ = none

unfoldable pub drop_breaks : Text → Text
drop_breaks [] = []
drop_breaks (c ∷ s) = let rest = drop_breaks s in if c == 10 || c == 13 then rest else c ∷ rest

-- base64.StdEncoding.DecodeString
unfoldable pub decode : Text → Option Bytes
decode s = decode_groups (drop_breaks s)
