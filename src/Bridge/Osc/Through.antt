-- ===== src/Bridge/Osc/Through.antt =====
-- A detector passes on every byte, in order, whatever the bytes are.
use underground_node_network.Base.{
  ℕ, ◌+◌, ◌≡◌, refl, sym, ap, ◌∙◌, [], ◌∷◌, ◌++◌, List, Bool, true, false, not, ◌&&◌, ◌==◌, Option,
  none, some, length, if◌then◌else◌, Bytes, append_assoc, append-nil, arith, Bool-cases, inl, inr,
  Option-cases, subst,
}
use underground_node_network.Map.{Map, get}
use underground_node_network.Text.{Text, text_eq, text_key, runes, has_prefix}
use underground_node_network.Bridge.Osc.{
  OscDetector, Run, emit, dispatch, json_of, plain_byte, end_osc, osc_byte, write_byte, write_from,
  write,
}

abbrev concat : List Bytes → Bytes
concat [] = []
concat (s ∷ ss) = s ++ concat ss

concat-snoc : (ss : List Bytes) (s : Bytes) → concat (ss ++ s ∷ []) ≡ concat ss ++ s
concat-snoc [] s = append-nil s
concat-snoc (t ∷ ss) s = rw (concat-snoc ss s) (sym (append_assoc t (concat ss) s))

-- The bytes that an open sequence holds back.
abbrev pub held : OscDetector → Bytes
held d = if d.in_osc then d.buf else []

-- All bytes that have gone through, those held back last.
abbrev pub passed : {V : Type 0} → Run V → Bytes
passed r = concat r.writes ++ held r.detector

module _ {V : Type 0} (accepts : List Bytes → Bytes → Bool)
    (unmarshal : Bytes → Option (Map Text V)) (as_string : V → Option Text)
    (willing : (w : List Bytes) (s : Bytes) → accepts w s ≡ true) where
  -- What a step must do with the bytes `s`, of which the text before it was `t`.
  Passes : Run V × Bool → Bytes → Type 0
  Passes (r, ok) t = (passed r ≡ t) × (ok ≡ true)

  emit-Passes :
      (r : Run V) (s : Bytes)
      → r.detector.in_osc ≡ false
      → Passes (emit accepts unmarshal as_string r s) (concat r.writes ++ s)
  unfolding emit Passes
  emit-Passes r s idle =
      rw (emit, willing r.writes s)
        (rw (concat-snoc, idle) (append-nil (concat r.writes ++ s)), refl)

  Same : Run V → Run V → Type 0
  Same r q = (q.writes ≡ r.writes) × (q.detector ≡ r.detector)

  dispatch-Same :
      (r : Run V) (o : Option (Map Text V)) → Same r (dispatch accepts unmarshal as_string r o)
  unfolding dispatch Same
  dispatch-Same r none = (refl, refl)
  dispatch-Same r (some payload) = elim (Option-cases (get (runes "action") payload)) [
    | inl e ↦ rw (dispatch, e) (refl, refl)
    | inr (v, e) ↦ elim (Option-cases (as_string v)) [
      | inl e' ↦ rw (dispatch, e, e') (refl, refl)
      | inr (action, e') ↦ rw (dispatch, e, e') (refl, refl)
    ]
  ]

  -- The detector closed with the sequence `s`.
  closed : Run V → Bytes → Run V
  closed r s = record r { detector = record { buf = s; in_osc = false } }

  end_osc-Passes :
      (r : Run V) (s : Bytes)
      → Passes (end_osc accepts unmarshal as_string r s) (concat r.writes ++ s)
  unfolding end_osc closed Same dispatch
  end_osc-Passes r s = elim (Bool-cases (has_prefix s (0x1b ∷ runes "]31337;"))) [
    | inl unn ↦
        let told = dispatch accepts unmarshal as_string (closed r s) (unmarshal (json_of s)) in
        let (writes, detector) = dispatch-Same (closed r s) (unmarshal (json_of s)) in
        rw (end_osc, unn) (rw writes at (emit-Passes told s (ap (λ d. d.in_osc) detector)))
    | inr other ↦ rw (end_osc, other) (emit-Passes (closed r s) s refl)
  ]

  osc_byte-Passes :
      (r : Run V) (b : ℕ) (s : Bytes)
      → Passes (osc_byte accepts unmarshal as_string r b s) (concat r.writes ++ s)
  unfolding osc_byte closed Passes
  osc_byte-Passes r b s = elim (Bool-cases (length s == 2 && not (text_eq s (0x1b ∷ 0x5d ∷ [])))) [
    | inl plain ↦ rw (osc_byte, plain) (emit-Passes (closed r s) s refl)
    | inr osc ↦ elim (Bool-cases (b == 0x07)) [
      | inl bell ↦ rw (osc_byte, osc, bell) (end_osc-Passes r s)
      | inr more ↦ rw (osc_byte, osc, more) (refl, refl)
    ]
  ]

  passed-held :
      (r : Run V) → r.detector.in_osc ≡ true → passed r ≡ concat r.writes ++ r.detector.buf
  passed-held r e = ap (λ b. concat r.writes ++ (if b then r.detector.buf else [])) e

  passed-idle : (r : Run V) → r.detector.in_osc ≡ false → passed r ≡ concat r.writes
  passed-idle r e =
      ap (λ b. concat r.writes ++ (if b then r.detector.buf else [])) e
      ∙ append-nil (concat r.writes)

  plain_byte-Passes :
      (r : Run V) (b : ℕ)
      → r.detector.in_osc ≡ false
      → Passes (plain_byte accepts unmarshal as_string r b) (concat r.writes ++ b ∷ [])
  unfolding plain_byte Passes
  plain_byte-Passes r b idle = elim (Bool-cases (b == 0x1b)) [
    | inl escape ↦ rw (plain_byte, escape) (refl, refl)
    | inr other ↦ rw (plain_byte, other) (emit-Passes r (b ∷ []) idle)
  ]

  write_byte-Passes :
      (r : Run V) (b : ℕ) → Passes (write_byte accepts unmarshal as_string r b) (passed r ++ b ∷ [])
  unfolding write_byte
  write_byte-Passes r b = elim (Bool-cases r.detector.in_osc) [
    | inl open_osc ↦
        let text : concat r.writes ++ (r.detector.buf ++ b ∷ []) ≡ passed r ++ b ∷ [] =
          sym (append_assoc (concat r.writes) r.detector.buf (b ∷ []))
          ∙ ap (λ t. t ++ b ∷ []) (sym (passed-held r open_osc)) in
        subst
          (λ i.
            Passes
              (if not i
                then plain_byte accepts unmarshal as_string r b
                else osc_byte accepts unmarshal as_string r b (r.detector.buf ++ b ∷ []))
              (passed r ++ b ∷ []))
          (sym open_osc)
          (subst (Passes (osc_byte accepts unmarshal as_string r b (r.detector.buf ++ b ∷ []))) text
            (osc_byte-Passes r b (r.detector.buf ++ b ∷ [])))
    | inr idle ↦
        let text : concat r.writes ++ b ∷ [] ≡ passed r ++ b ∷ [] =
          ap (λ t. t ++ b ∷ []) (sym (passed-idle r idle)) in
        subst
          (λ i.
            Passes
              (if not i
                then plain_byte accepts unmarshal as_string r b
                else osc_byte accepts unmarshal as_string r b (r.detector.buf ++ b ∷ []))
              (passed r ++ b ∷ []))
          (sym idle)
          (subst (Passes (plain_byte accepts unmarshal as_string r b)) text
            (plain_byte-Passes r b idle))
  ]

  write_from-passed :
      (r : Run V) (i : ℕ) (p : Bytes)
      → (passed (write_from accepts unmarshal as_string r i p).0 ≡ passed r ++ p)
        × ((write_from accepts unmarshal as_string r i p).1 ≡ (i + length p, true))
  unfolding write_from Passes
  write_from-passed r i [] = (sym (append-nil (passed r)), ap (λ n. (n, true)) (omega arith))
  write_from-passed r i (b ∷ p) =
      let next = (write_byte accepts unmarshal as_string r b).0 in
      let (through, ok) = write_byte-Passes r b in
      let (all, answer) = write_from-passed next (i + 1) p in
      rw (write_from, ok)
        (
          all ∙ ap (λ t. t ++ p) through ∙ append_assoc (passed r) (b ∷ []) p,
          answer ∙ ap (λ n. (n, true)) (omega arith),
        )

-- Where the writer never fails, Write takes all bytes, and what it has written, with what an open
-- sequence still holds back, is all that has come in: no byte is lost, added or moved.
pub write-passed :
    {V : Type 0} (accepts : List Bytes → Bytes → Bool) (unmarshal : Bytes → Option (Map Text V))
    (as_string : V → Option Text)
    → ((w : List Bytes) (s : Bytes) → accepts w s ≡ true)
    → (r : Run V) (p : Bytes)
    → (passed (write accepts unmarshal as_string r p).0 ≡ passed r ++ p)
      × ((write accepts unmarshal as_string r p).1 ≡ (length p, true))
unfolding write
write-passed accepts unmarshal as_string willing r p =
    let (all, answer) = write_from-passed accepts unmarshal as_string willing r 0 p in
    (all, answer ∙ ap (λ n. (n, true)) (omega arith))
