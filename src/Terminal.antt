-- ===== src/Terminal.antt =====
-- internal/ui/common/utils.go: the SSH payloads that carry the size of the terminal.
pub mod Parse
pub mod Overflow
use underground_node_network.Base.{
  ℕ, ◌+◌, ◌%◌, ◌^◌, Option, none, some, Outcome, returns, panics, ◌>>=◌, ltb, if◌then◌else◌, length,
  Bytes, slice, be_u32,
}

-- uint32 addition.
unfoldable pub add32 : ℕ → ℕ → ℕ
add32 a b = (a + b) % 2 ^ 32

-- binary.BigEndian.Uint32(payload[lo:hi])
unfoldable pub word_at : Bytes → ℕ → ℕ → Outcome ℕ
word_at payload lo hi = slice payload lo hi >>= be_u32

-- `none` stands for the result (0, 0, false).
unfoldable pub parse_pty_request : Bytes → Outcome (Option (ℕ × ℕ))
parse_pty_request payload = if ltb (length payload) 4 then returns none else do
  term_len ← word_at payload 0 4
  if ltb (length payload % 2 ^ 32) (add32 (add32 4 term_len) 8) then returns none else do
    w ← word_at payload (add32 4 term_len) (add32 (add32 4 term_len) 4)
    h ← word_at payload (add32 (add32 4 term_len) 4) (add32 (add32 4 term_len) 8)
    returns (some (w, h))

unfoldable pub parse_window_change : Bytes → Outcome (Option (ℕ × ℕ))
parse_window_change payload =
    if ltb (length payload) 8
    then returns none
    else do w ← word_at payload 0 4; h ← word_at payload 4 8; returns (some (w, h))
