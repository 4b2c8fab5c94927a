-- ===== src/Tests/Terminal.antt =====
-- internal/ui/common/utils.go at concrete payloads.
use underground_node_network.Base.{
  [], ◌∷◌, ◌≡◌, ◌↔◌, refl, none, some, returns, panics, arith, u32_bytes, Bytes, slice, be_u32,
}
use underground_node_network.Terminal.{parse_pty_request, parse_window_change, word_at, add32}
use underground_node_network.Terminal.Parse.{
  pty_payload, parse_pty_request-pty_payload, parse_window_change-words,
}
use underground_node_network.Terminal.Overflow.{Crashes, parse_pty_request-panics_iff}

-- The terminal "vt", 80 columns and 24 rows.
abbrev vt_request : Bytes
vt_request = 0 ∷ 0 ∷ 0 ∷ 2 ∷ 118 ∷ 116 ∷ 0 ∷ 0 ∷ 0 ∷ 80 ∷ 0 ∷ 0 ∷ 0 ∷ 24 ∷ 9 ∷ []

vt_size : parse_pty_request vt_request ≡ returns (some (80, 24))
unfolding parse_pty_request word_at add32 slice be_u32
vt_size = refl

too_short : parse_pty_request (0 ∷ 0 ∷ 0 ∷ 2 ∷ 118 ∷ []) ≡ returns none
unfolding parse_pty_request word_at add32 slice be_u32
too_short = refl

parse_pty_request-pty_payload_example :
    parse_pty_request (pty_payload (118 ∷ 116 ∷ []) 80 24 (9 ∷ [])) ≡ returns (some (80, 24))
unfolding u32_bytes
parse_pty_request-pty_payload_example =
    parse_pty_request-pty_payload (118 ∷ 116 ∷ []) (9 ∷ []) 80 24 (omega arith) (omega arith)
      (omega arith)

window_change_read :
    parse_window_change (0 ∷ 0 ∷ 0 ∷ 80 ∷ 0 ∷ 0 ∷ 0 ∷ 24 ∷ []) ≡ returns (some (80, 24))
unfolding u32_bytes
window_change_read = parse_window_change-words 80 24 [] (omega arith) (omega arith)

-- A name of 2^32 - 12 bytes: the sum is 0.
abbrev wrapping : Bytes
wrapping = 255 ∷ 255 ∷ 255 ∷ 244 ∷ []

wrapping_panics : parse_pty_request wrapping ≡ panics
unfolding parse_pty_request word_at add32 slice be_u32
wrapping_panics = refl

parse_pty_request-panics_iff_example :
    (parse_pty_request wrapping ≡ panics) ↔ Crashes wrapping 0xfffffff4
unfolding word_at slice be_u32
parse_pty_request-panics_iff_example =
    parse_pty_request-panics_iff wrapping 0xfffffff4 (omega arith) (omega arith) refl (omega arith)
