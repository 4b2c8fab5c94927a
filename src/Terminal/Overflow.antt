-- ===== src/Terminal/Overflow.antt =====
-- The bounds test of `ParsePtyRequest` adds in uint32 and wraps around: for which lengths of the
-- terminal's name the parser is safe, and for which it slices out of range.
use underground_node_network.Base.{
  ℕ, ◌+◌, ◌%◌, ◌^◌, ◌<◌, ◌≤◌, ◌≡◌, ◌≢◌, returns, panics, arith, length, Bytes, slice, be_u32, ltb,
  ◌-◌, take, drop, length-take, length-drop, refl, [], ◌∷◌, Bool-cases, inl, inr, false, dec_le,
  dec_lt, ◌↔◌,
}
use underground_node_network.Terminal.{add32, word_at, parse_pty_request}

-- A slice whose ends are in the wrong order or behind the payload.
word_at_outside : (p : Bytes) (lo hi : ℕ) → (lo ≤ hi → hi ≤ length p → ⊥) → word_at p lo hi ≡ panics
unfolding word_at slice
word_at_outside p lo hi h = ground arith

be_u32_returns : (s : Bytes) → 4 ≤ length s → (n : ℕ) × (be_u32 s ≡ returns n)
unfolding be_u32
be_u32_returns [] h = absurd (omega arith)
be_u32_returns (a ∷ []) h = absurd (omega arith)
be_u32_returns (a ∷ b ∷ []) h = absurd (omega arith)
be_u32_returns (a ∷ b ∷ c ∷ []) h = absurd (omega arith)
be_u32_returns (a ∷ b ∷ c ∷ d ∷ s) h = (_, refl)

slice_returns :
    (p : Bytes) (lo hi : ℕ)
    → lo ≤ hi
    → hi ≤ length p
    → slice p lo hi ≡ returns (take (hi - lo) (drop lo p))
unfolding slice
slice_returns p lo hi h k = ground arith

pub word_at_returns :
    (p : Bytes) (lo hi : ℕ) → hi ≡ lo + 4 → hi ≤ length p → (n : ℕ) × (word_at p lo hi ≡ returns n)
unfolding word_at
word_at_returns p lo hi e h = rw (slice_returns p lo hi (omega arith) h) (
    be_u32_returns (take (hi - lo) (drop lo p))
      (omega (arith, length-take (hi - lo) (drop lo p), length-drop lo p)))

-- The length `t` of the name makes the parser slice out of range: the sum `4 + t + 8` wraps around
-- to at most the payload's length while `4 + t` does not wrap around.
abbrev pub Crashes : Bytes → ℕ → Type 0
Crashes p t = (2 ^ 32 ≤ t + 12) × (t + 4 < 2 ^ 32) × (t + 12 ≤ length p + 2 ^ 32)

-- Where the ends do not wrap around, both words are there.
parse_returns :
    (p : Bytes) (t lo : ℕ)
    → 4 ≤ length p
    → word_at p 0 4 ≡ returns t
    → add32 4 t ≡ lo
    → add32 lo 4 ≡ lo + 4
    → add32 lo 8 ≡ lo + 8
    → (lo + 8 ≤ length p % 2 ^ 32 → lo + 8 ≤ length p)
    → parse_pty_request p ≢ panics
unfolding parse_pty_request
parse_returns p t lo long et e4 e8 e12 fits e =
    elim (Bool-cases (ltb (length p % 2 ^ 32) (lo + 8))) [
      | inl short ↦ cc (rw (et, e4, e12, short, ltb≥4) at e)
      | inr enough ↦
          let room : lo + 8 ≤ length p = fits (ground arith) in
          let (w, ew) = word_at_returns p lo (lo + 4) refl (omega arith) in
          let (h, eh) = word_at_returns p (lo + 4) (lo + 8) (omega arith) room in
          cc (rw (et, e4, e8, e12, enough, ew, eh, ltb≥4) at e)
    ]
  where
    ltb≥4 : ltb (length p) 4 ≡ false
    ltb≥4 = ground arith

-- Where the wrapped sum is above the payload's length, the parser refuses it.
parse_refuses :
    (p : Bytes) (t : ℕ)
    → 4 ≤ length p
    → word_at p 0 4 ≡ returns t
    → length p % 2 ^ 32 < add32 (add32 4 t) 8
    → parse_pty_request p ≢ panics
unfolding parse_pty_request
parse_refuses p t long et short = rw et (ground arith)

module _ (p : Bytes) (t : ℕ) (fits : length p < 2 ^ 31) (long : 4 ≤ length p)
    (et : word_at p 0 4 ≡ returns t) (word : t < 2 ^ 32) where
  crash : Crashes p t → parse_pty_request p ≡ panics
  unfolding parse_pty_request
  crash (wraps, below, passes) =
      let e4 : add32 4 t ≡ 4 + t = unfold add32 in omega arith in
      let e12 : add32 (4 + t) 8 ≤ length p = unfold add32 in omega arith in
      let out : word_at p (4 + t) (add32 (4 + t) 4) ≡ panics =
        word_at_outside p (4 + t) (add32 (4 + t) 4) (unfold add32 in λ le le'. omega arith) in
      rw (et, e4, out) (ground arith)

  Crashes-only : parse_pty_request p ≡ panics → Crashes p t
  Crashes-only e = elim (dec_le (2 ^ 32) (t + 12)) [
    | no small ↦ absurd (
        parse_returns p t (4 + t) long et (unfold add32 in omega arith)
          (unfold add32 in omega arith) (unfold add32 in omega arith) (omega arith) e)
    | yes wraps ↦ elim (dec_lt (t + 4) (2 ^ 32)) [
      | yes below ↦ elim (dec_le (t + 12) (length p + 2 ^ 32)) [
        | yes passes ↦ (wraps, below, passes)
        | no short ↦ absurd (parse_refuses p t long et (unfold add32 in omega arith) e)
      ]
      | no over ↦ absurd (
          parse_returns p t (t + 4 - 2 ^ 32) long et (unfold add32 in omega arith)
            (unfold add32 in omega arith) (unfold add32 in omega arith) (omega arith) e)
    ]
  ]

-- A payload of at least 4 bytes and less than 2 GiB, with `t` in its first word, makes the parser
-- panic exactly if `t + 12` wraps around in uint32 to at most the payload's length while `t + 4`
-- does not wrap around.
pub parse_pty_request-panics_iff :
    (p : Bytes) (t : ℕ)
    → length p < 2 ^ 31
    → 4 ≤ length p
    → word_at p 0 4 ≡ returns t
    → t < 2 ^ 32
    → (parse_pty_request p ≡ panics) ↔ Crashes p t
parse_pty_request-panics_iff p t fits long et word =
    (Crashes-only p t fits long et word, crash p t fits long et word)
