-- ===== src/Terminal/Parse.antt =====
-- What the two parsers of terminal sizes return on the payloads that clients send.
use underground_node_network.Base.{
  ℕ, ◌+◌, ◌^◌, ◌<◌, ◌≤◌, ◌≡◌, [], ◌++◌, some, returns, arith, length, length-append, Bytes,
  slice-append, u32_bytes, be_u32-u32_bytes, length-u32_bytes, append_assoc,
}
use underground_node_network.Terminal.{add32, word_at, parse_pty_request, parse_window_change}

-- The payload of a pty request: the terminal's name, its columns and rows, and what follows.
abbrev pub pty_payload : Bytes → ℕ → ℕ → Bytes → Bytes
pty_payload term w h rest =
    u32_bytes (length term) ++ (term ++ (u32_bytes w ++ (u32_bytes h ++ rest)))

length-pty_payload :
    (term rest : Bytes) (w h : ℕ)
    → length (pty_payload term w h rest) ≡ 12 + length term + length rest
length-pty_payload term rest w h = omega (
  arith,
  length-append (u32_bytes (length term)) (term ++ (u32_bytes w ++ (u32_bytes h ++ rest))),
  length-append term (u32_bytes w ++ (u32_bytes h ++ rest)),
  length-append (u32_bytes w) (u32_bytes h ++ rest),
  length-append (u32_bytes h) rest,
  length-u32_bytes (length term),
  length-u32_bytes w,
  length-u32_bytes h,
)

word_at-append :
    (pre rest : Bytes) (n lo hi : ℕ)
    → n < 2 ^ 32
    → lo ≡ length pre
    → hi ≡ length pre + 4
    → word_at (pre ++ (u32_bytes n ++ rest)) lo hi ≡ returns n
unfolding word_at
word_at-append pre rest n lo hi hn p q =
    rw (slice-append pre (u32_bytes n) rest lo hi p (omega (arith, length-u32_bytes n)))
      (be_u32-u32_bytes n hn)

-- Where the sum does not wrap around, the parser reads two words behind the name.
parse_words :
    (p : Bytes) (t w h : ℕ)
    → t + 12 ≤ length p
    → length p < 2 ^ 32
    → word_at p 0 4 ≡ returns t
    → word_at p (4 + t) (8 + t) ≡ returns w
    → word_at p (8 + t) (12 + t) ≡ returns h
    → parse_pty_request p ≡ returns (some (w, h))
unfolding parse_pty_request
parse_words p t w h room fits et ew eh =
    let e4 : add32 4 t ≡ 4 + t = unfold add32 in omega arith in
    let e8 : add32 (4 + t) 4 ≡ 8 + t = unfold add32 in omega arith in
    let e12 : add32 (4 + t) 8 ≡ 12 + t = unfold add32 in omega arith in
    rw (et, e4, e8, e12, ew, eh) (ground arith)

-- A pty request that any client writes, shorter than 4 GiB, is read back to its columns and rows,
-- whatever the terminal's name and the modes behind the sizes are.
pub parse_pty_request-pty_payload :
    (term rest : Bytes) (w h : ℕ)
    → length (pty_payload term w h rest) < 2 ^ 32
    → w < 2 ^ 32
    → h < 2 ^ 32
    → parse_pty_request (pty_payload term w h rest) ≡ returns (some (w, h))
parse_pty_request-pty_payload term rest w h fits hw hh =
    let size = length-pty_payload term rest w h in
    let len4 = length-u32_bytes (length term) in
    let len8 = length-append (u32_bytes (length term)) term in
    let len12 = length-append (u32_bytes (length term) ++ term) (u32_bytes w) in
    let lenw = length-u32_bytes w in
    parse_words (pty_payload term w h rest) (length term) w h (omega arith) fits
      (word_at-append [] (term ++ (u32_bytes w ++ (u32_bytes h ++ rest))) (length term) 0 4
        (omega arith) (omega arith) (omega arith))
      (rw append_assoc at (
        word_at-append (u32_bytes (length term) ++ term) (u32_bytes h ++ rest) w (4 + length term)
          (8 + length term) hw (omega arith) (omega arith)))
      (simp append_assoc at (
        word_at-append ((u32_bytes (length term) ++ term) ++ u32_bytes w) rest h (8 + length term)
          (12 + length term) hh (omega arith) (omega arith)))

-- A window change that any client writes is read back to its columns and rows.
pub parse_window_change-words :
    (w h : ℕ) (rest : Bytes)
    → w < 2 ^ 32
    → h < 2 ^ 32
    → parse_window_change (u32_bytes w ++ (u32_bytes h ++ rest)) ≡ returns (some (w, h))
unfolding parse_window_change
parse_window_change-words w h rest hw hh =
    let len4 = length-u32_bytes w in
    let len8 = length-u32_bytes h in
    let size = length-append (u32_bytes w) (u32_bytes h ++ rest) in
    let size8 = length-append (u32_bytes h) rest in
    let ew = word_at-append [] (u32_bytes h ++ rest) w 0 4 hw (omega arith) (omega arith) in
    let eh = word_at-append (u32_bytes w) rest h 4 8 hh (omega arith) (omega arith) in
    rw (ew, eh) (ground arith)
