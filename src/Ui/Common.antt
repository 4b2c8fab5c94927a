-- ===== src/Ui/Common.antt =====
-- internal/ui/common/utils.go: the test of the characters that a form field may hold.
use underground_node_network.Base.{ℕ, Bool, ◌&&◌, ◌||◌, leb}
use underground_node_network.Text.{Text, all}

unfoldable pub is_alphanumeric_rune : ℕ → Bool
is_alphanumeric_rune r =
    (leb b'a' r && leb r b'z') || (leb b'A' r && leb r b'Z') || (leb b'0' r && leb r b'9')

-- The loop returns false at the first character that fails.
unfoldable pub is_alphanumeric : Text → Bool
unfolding all is_alphanumeric_rune
is_alphanumeric s = all is_alphanumeric_rune s
