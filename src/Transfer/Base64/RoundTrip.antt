-- ===== src/Transfer/Base64/RoundTrip.antt =====
-- Base64, decoded from what was encoded.
use underground_node_network.Base.{
  ℕ, ◌+◌, ◌*◌, ◌/◌, ◌%◌, ◌<◌, ◌≡◌, false, ◌||◌, [], ◌∷◌, arith, ◌==◌, some, Bytes, All, refl, ◌∙◌,
}
use underground_node_network.Text.{Text}
use underground_node_network.Transfer.Base64.{
  digit, value, pad, encode, last_group, decode_groups, drop_breaks, decode, ◌>>=◌,
}

abbrev pub AreBytes : Bytes → Type 0
AreBytes = All (λ b. b < 256)

value-digit : (n : ℕ) → n < 64 → value (digit n) ≡ some n
unfolding value digit
value-digit n h = ground arith

digit-ne-pad : (n : ℕ) → n < 64 → (digit n == pad) ≡ false
unfolding digit
digit-ne-pad n h = ground arith

digit_no_break : (n : ℕ) → (digit n == 10 || digit n == 13) ≡ false
unfolding digit
digit_no_break n = ground arith

drop_digit : (n : ℕ) (s : Text) → drop_breaks (digit n ∷ s) ≡ digit n ∷ drop_breaks s
unfolding drop_breaks
drop_digit n s = rw (digit_no_break n)

drop_pad : (s : Text) → drop_breaks (pad ∷ s) ≡ pad ∷ drop_breaks s
unfolding drop_breaks
drop_pad s = refl

drop-nil : drop_breaks [] ≡ []
unfolding drop_breaks
drop-nil = refl

drop_breaks-encode : (s : Bytes) → drop_breaks (encode s) ≡ encode s
unfolding encode
drop_breaks-encode [] = drop-nil
drop_breaks-encode (a ∷ []) = simp (drop_digit, drop_pad, drop-nil)
drop_breaks-encode (a ∷ b ∷ []) = simp (drop_digit, drop_pad, drop-nil)
drop_breaks-encode (a ∷ b ∷ c ∷ s) = simp (drop_digit, drop_breaks-encode s)

-- Values of six bits put together to bytes.
one_byte : (a : ℕ) → a < 256 → a / 4 * 4 + a % 4 * 16 / 16 ≡ a
one_byte a h = omega arith

first_byte : (a b : ℕ) → a < 256 → b < 256 → a / 4 * 4 + (a % 4 * 16 + b / 16) / 16 ≡ a
first_byte a b h k = omega arith

last_of_two : (a b : ℕ) → b < 256 → (a % 4 * 16 + b / 16) % 16 * 16 + b % 16 * 4 / 4 ≡ b
last_of_two a b k = omega arith

second_byte :
    (a b c : ℕ)
    → b < 256
    → c < 256
    → (a % 4 * 16 + b / 16) % 16 * 16 + (b % 16 * 4 + c / 64) / 4 ≡ b
second_byte a b c h k = omega arith

third_byte : (b c : ℕ) → c < 256 → (b % 16 * 4 + c / 64) % 4 * 64 + c % 64 ≡ c
third_byte b c h = omega arith

last_one :
    (a : ℕ) → a < 256 → last_group (digit (a / 4)) (digit (a % 4 * 16)) pad pad ≡ some (a ∷ [])
unfolding last_group
last_one a h =
    rw (value-digit (a / 4) (omega arith), value-digit (a % 4 * 16) (omega arith), one_byte a h)

last_two :
    (a b : ℕ)
    → a < 256
    → b < 256
    → last_group (digit (a / 4)) (digit (a % 4 * 16 + b / 16)) (digit (b % 16 * 4)) pad
      ≡ some (a ∷ b ∷ [])
unfolding last_group
last_two a b h k = rw (
  digit-ne-pad (b % 16 * 4) (omega arith),
  value-digit (a / 4) (omega arith),
  value-digit (a % 4 * 16 + b / 16) (omega arith),
  value-digit (b % 16 * 4) (omega arith),
  first_byte a b h k,
  last_of_two a b k,
)

last_three :
    (a b c : ℕ)
    → a < 256
    → b < 256
    → c < 256
    → last_group
        (digit (a / 4))
        (digit (a % 4 * 16 + b / 16))
        (digit (b % 16 * 4 + c / 64))
        (digit (c % 64))
      ≡ some (a ∷ b ∷ c ∷ [])
unfolding last_group
last_three a b c h k l = rw (
  digit-ne-pad (b % 16 * 4 + c / 64) (omega arith),
  digit-ne-pad (c % 64) (omega arith),
  value-digit (a / 4) (omega arith),
  value-digit (a % 4 * 16 + b / 16) (omega arith),
  value-digit (b % 16 * 4 + c / 64) (omega arith),
  value-digit (c % 64) (omega arith),
  first_byte a b h k,
  second_byte a b c k l,
  third_byte b c l,
)

-- A group with a character behind it.
inner_group :
    (a b c d : ℕ) (s : Text)
    → a < 256
    → b < 256
    → c < 256
    → decode_groups (
        digit (a / 4)
        ∷ digit (a % 4 * 16 + b / 16)
        ∷ digit (b % 16 * 4 + c / 64)
        ∷ digit (c % 64)
        ∷ d
        ∷ s)
      ≡ (decode_groups (d ∷ s) >>= λ rest. some (a ∷ b ∷ c ∷ rest))
unfolding decode_groups
inner_group a b c d s h k l = rw (
  value-digit (a / 4) (omega arith),
  value-digit (a % 4 * 16 + b / 16) (omega arith),
  value-digit (b % 16 * 4 + c / 64) (omega arith),
  value-digit (c % 64) (omega arith),
  first_byte a b h k,
  second_byte a b c k l,
  third_byte b c l,
)

one_group : (w x y z : ℕ) → decode_groups (w ∷ x ∷ y ∷ z ∷ []) ≡ last_group w x y z
unfolding decode_groups
one_group w x y z = refl

encode-cons : (d : ℕ) (s : Bytes) → (w : ℕ) × (t : Text) × (encode (d ∷ s) ≡ w ∷ t)
unfolding encode
encode-cons a [] = (_, _, refl)
encode-cons a (b ∷ []) = (_, _, refl)
encode-cons a (b ∷ c ∷ s) = (_, _, refl)

-- A group of three bytes with more behind it.
encode_step :
    (a b c d : ℕ) (s : Bytes)
    → a < 256
    → b < 256
    → c < 256
    → decode_groups (encode (d ∷ s)) ≡ some (d ∷ s)
    → decode_groups (encode (a ∷ b ∷ c ∷ d ∷ s)) ≡ some (a ∷ b ∷ c ∷ d ∷ s)
encode_step a b c d s ha hb hc ih =
    let (w, t, e) = encode-cons d s in
    let rest : decode_groups (w ∷ t) ≡ some (d ∷ s) = rw (← e) ih in
    rw (encode_three a b c (d ∷ s), e, inner_group a b c w t ha hb hc, rest)
  where
    encode_three :
        (x y z : ℕ) (u : Bytes)
        → encode (x ∷ y ∷ z ∷ u)
          ≡ digit (x / 4)
            ∷ digit (x % 4 * 16 + y / 16)
            ∷ digit (y % 16 * 4 + z / 64)
            ∷ digit (z % 64)
            ∷ encode u
    encode_three x y z u = unfold encode in refl

decode_groups-encode : (s : Bytes) → AreBytes s → decode_groups (encode s) ≡ some s
decode_groups-encode [] h = unfold decode_groups encode in refl
decode_groups-encode (a ∷ []) (ha, _) = unfold encode in one_group _ _ _ _ ∙ last_one a ha
decode_groups-encode (a ∷ b ∷ []) (ha, (hb, _)) =
    unfold encode in one_group _ _ _ _ ∙ last_two a b ha hb
decode_groups-encode (a ∷ b ∷ c ∷ []) (ha, (hb, (hc, _))) =
    unfold encode in one_group _ _ _ _ ∙ last_three a b c ha hb hc
decode_groups-encode (a ∷ b ∷ c ∷ d ∷ s) (ha, (hb, (hc, hs))) =
    encode_step a b c d s ha hb hc (decode_groups-encode (d ∷ s) hs)

-- Base64, decoded from what was encoded.
pub decode-encode : (s : Bytes) → AreBytes s → decode (encode s) ≡ some s
unfolding decode
decode-encode s h = rw (drop_breaks-encode s) (decode_groups-encode s h)
