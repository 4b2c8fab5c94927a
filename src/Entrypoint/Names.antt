-- ===== src/Entrypoint/Names.antt =====
-- operator.go and api_ssh.go of internal/entrypoint: the names that may be registered.
use underground_node_network.Base.{
  ℕ, ◌≤◌, ◌≡◌, refl, [], ◌∷◌, Bool, true, false, not, ◌&&◌, ◌||◌, ◌==◌, arith, leb, ltb,
  if◌then◌else◌, length, ◌⊎◌,
}
use underground_node_network.Text.{Text, rune_len, byte_len, is_space, NoSpace}

-- The test of a character.
unfoldable pub is_name_char : ℕ → Bool
is_name_char c =
    (leb b'a' c && leb c b'z')
    || (leb b'A' c && leb c b'Z')
    || (leb b'0' c && leb c b'9')
    || c == b'-'
    || c == b'_'

-- for _, char := range name
unfoldable pub all_name_chars : Text → Bool
all_name_chars [] = true
all_name_chars (c ∷ s) = if not (is_name_char c) then false else all_name_chars s

unfoldable pub is_valid_room_name : Text → Bool
is_valid_room_name name =
    if ltb (byte_len name) 3 || ltb 20 (byte_len name) then false else all_name_chars name

unfoldable pub is_valid_username : Text → Bool
is_valid_username username =
    if ltb (byte_len username) 3 || ltb 20 (byte_len username)
    then false
    else all_name_chars username

is_name_char-ascii : (c : ℕ) → is_name_char c ≡ true → (rune_len c ≡ 1) × (is_space c ≡ false)
unfolding is_name_char rune_len is_space
is_name_char-ascii c h = ground arith

name_chars : (s : Text) → all_name_chars s ≡ true → (byte_len s ≡ length s) × NoSpace s
unfolding all_name_chars byte_len
name_chars [] h = (refl, tt)
name_chars (c ∷ s) h = ground (arith, is_name_char-ascii c, name_chars s)

-- A letter, a digit, '-' or '_'.
abbrev pub IsNameChar : ℕ → Type 0
IsNameChar c =
    ((b'a' ≤ c) × (c ≤ b'z'))
    ⊎ (((b'A' ≤ c) × (c ≤ b'Z')) ⊎ (((b'0' ≤ c) × (c ≤ b'9')) ⊎ ((c ≡ b'-') ⊎ (c ≡ b'_'))))

pub is_valid_username-NoSpace : (name : Text) → is_valid_username name ≡ true → NoSpace name
unfolding is_valid_username
is_valid_username-NoSpace name h = (name_chars name (ground arith)).1

pub is_valid_room_name-NoSpace : (name : Text) → is_valid_room_name name ≡ true → NoSpace name
unfolding is_valid_room_name
is_valid_room_name-NoSpace name h = (name_chars name (ground arith)).1
