-- ===== src/Bridge/Osc/Call.antt =====
-- A door's call goes through to the handler.
use underground_node_network.Base.{
  ℕ, ◌+◌, ◌≤◌, ◌≡◌, refl, ap, ◌∙◌, [], ◌∷◌, ◌++◌, List, Bool, true, false, not, ◌==◌, ==_iff,
  Option, some, length, if◌then◌else◌, Bytes, append_assoc, append-nil, arith, Bool-cases, inl, inr,
  length-append, All-append, ◌≢◌,
}
use underground_node_network.Map.{Map, get, delete}
use underground_node_network.Text.{
  Text, Lacks, text_eq, text_key, runes, has_prefix-append, trim_prefix-append, trim_suffix-append,
}
use underground_node_network.Bridge.Osc.{
  Run, emit, dispatch, json_of, plain_byte, end_osc, osc_byte, write_byte, write_from, write,
}

-- The prefix of a call.
abbrev pub call_prefix : Bytes
call_prefix = 0x1b ∷ runes "]31337;"

module _ {V : Type 0} (accepts : List Bytes → Bytes → Bool)
    (unmarshal : Bytes → Option (Map Text V)) (as_string : V → Option Text) where
  -- An open sequence with `s` so far.
  abbrev held_back : Run V → Bytes → Run V
  held_back r s = record r { detector = record { buf = s; in_osc = true } }

  osc_byte-more :
      (r : Run V) (s : Bytes) (b : ℕ)
      → 2 ≤ length s
      → (b == 7) ≡ false
      → write_byte accepts unmarshal as_string (held_back r s) b ≡ (held_back r (s ++ b ∷ []), true)
  unfolding write_byte osc_byte
  osc_byte-more r s b long other =
      let longer : (length (s ++ b ∷ []) == 2) ≡ false = ground (arith, length-append s (b ∷ [])) in
      rw (write_byte, osc_byte, longer, other) refl

  write_from-more :
      (r : Run V) (s json rest : Bytes) (i : ℕ)
      → 2 ≤ length s
      → Lacks 7 json
      → (j : ℕ) × (write_from accepts unmarshal as_string (held_back r s) i (json ++ rest)
          ≡ write_from accepts unmarshal as_string (held_back r (s ++ json)) j rest)
  unfolding write_from
  write_from-more r s [] rest i long lacks = (i, rw (append-nil s) refl)
  write_from-more r s (b ∷ json) rest i long (hb, lacks) =
      let step = osc_byte-more r s b long (ground (arith, ==_iff b 7)) in
      let (j, e) =
        write_from-more r (s ++ b ∷ []) json rest (i + 1) (ground (arith, length-append s (b ∷ [])))
          lacks in
      (
        j,
        rw (write_from, step)
            (e
              ∙ ap (λ t. write_from accepts unmarshal as_string (held_back r t) j rest)
                  (append_assoc s (b ∷ []) json)),
      )

  write_byte-escape :
      (r : Run V)
      → r.detector.in_osc ≡ false
      → write_byte accepts unmarshal as_string r 0x1b ≡ (held_back r (0x1b ∷ []), true)
  unfolding write_byte plain_byte
  write_byte-escape r idle =
      ap
        (λ i.
          if not i
          then plain_byte accepts unmarshal as_string r 0x1b
          else osc_byte accepts unmarshal as_string r 0x1b (r.detector.buf ++ 0x1b ∷ []))
        idle

  write_byte-bracket :
      (r : Run V)
      → write_byte accepts unmarshal as_string (held_back r (0x1b ∷ [])) 0x5d
        ≡ (held_back r (0x1b ∷ 0x5d ∷ []), true)
  unfolding write_byte osc_byte text_eq
  write_byte-bracket r = refl

  write_byte-bell :
      (r : Run V) (s : Bytes)
      → 2 ≤ length s
      → write_byte accepts unmarshal as_string (held_back r s) 7
        ≡ end_osc accepts unmarshal as_string (held_back r (s ++ 7 ∷ [])) (s ++ 7 ∷ [])
  unfolding write_byte osc_byte end_osc
  write_byte-bell r s long =
      let longer : (length (s ++ 7 ∷ []) == 2) ≡ false = ground (arith, length-append s (7 ∷ [])) in
      rw (write_byte, osc_byte, longer) refl

  -- What the handler and the writer have got when a call has ended.
  abbrev Called : Run V → Run V → Text → Map Text V → Bytes → Type 0
  Called q r action payload s =
      (q.calls ≡ r.calls ++ (action, delete (runes "action") payload) ∷ [])
      × (q.writes ≡ r.writes ++ s ∷ [])
      × (q.detector.in_osc ≡ false)

  dispatch-call :
      (r : Run V) (payload : Map Text V) (v : V) (action : Text)
      → get (runes "action") payload ≡ some v
      → as_string v ≡ some action
      → dispatch accepts unmarshal as_string r (some payload)
        ≡ record r { calls = r.calls ++ (action, delete (runes "action") payload) ∷ [] }
  unfolding dispatch
  dispatch-call r payload v action e f = rw (dispatch, e, f) refl

  json_of-call : (json : Bytes) → json_of (call_prefix ++ (json ++ 7 ∷ [])) ≡ json
  unfolding json_of
  json_of-call json =
      rw (json_of, trim_prefix-append call_prefix (json ++ 7 ∷ []))
        (trim_suffix-append json (7 ∷ []))

  end_osc-call :
      (willing : (w : List Bytes) (s : Bytes) → accepts w s ≡ true) (r : Run V) (json : Bytes)
      (payload : Map Text V) (v : V) (action : Text)
      → unmarshal json ≡ some payload
      → get (runes "action") payload ≡ some v
      → as_string v ≡ some action
      → Called
          (end_osc accepts unmarshal as_string r (call_prefix ++ (json ++ 7 ∷ []))).0
          r
          action
          payload
          (call_prefix ++ (json ++ 7 ∷ []))
  unfolding end_osc emit
  end_osc-call willing r json payload v action parsed e f =
      let closed = record r {
        detector = record { buf = call_prefix ++ (json ++ 7 ∷ []); in_osc = false };
      } in
      let unn = has_prefix-append call_prefix (json ++ 7 ∷ []) in
      let called = dispatch-call closed payload v action e f in
      rw (end_osc, unn, json_of-call json, parsed, called, willing) (refl, refl, refl)

  write_from-call :
      (r : Run V) (json : Bytes) (i : ℕ)
      → r.detector.in_osc ≡ false
      → Lacks 7 json
      → (j : ℕ) × (write_from accepts unmarshal as_string r i (call_prefix ++ (json ++ 7 ∷ []))
          ≡ write_from accepts unmarshal as_string (held_back r (call_prefix ++ json)) j (7 ∷ []))
  unfolding write_from
  write_from-call r json i idle lacks =
      let (j, e) =
        write_from-more r (0x1b ∷ 0x5d ∷ []) (runes "31337;" ++ json) (7 ∷ []) (i + 1 + 1)
          (omega arith) (All-append (λ c. c ≢ 7) (runes "31337;") json (ground arith) lacks) in
      (j, rw (write_from, write_byte-escape r idle, write_byte-bracket r) e)

  write_from-last :
      (q : Run V) (j b : ℕ)
      → (write_from accepts unmarshal as_string q j (b ∷ [])).0
        ≡ (write_byte accepts unmarshal as_string q b).0
  unfolding write_from
  write_from-last q j b = elim (Bool-cases (write_byte accepts unmarshal as_string q b).1) [
    | inl good ↦ rw (write_from, good) refl
    | inr bad ↦ rw (write_from, bad) refl
  ]

-- A door writes a call, "\x1b]31337;", JSON without a BEL and a BEL, to a detector that has no open
-- sequence and whose writer never fails; the JSON is an object with a string as its "action". Then the
-- handler is called once, with that action and the object without it, and the call is also written to
-- the person's terminal, in one piece.
pub write-call :
    {V : Type 0} (accepts : List Bytes → Bytes → Bool) (unmarshal : Bytes → Option (Map Text V))
    (as_string : V → Option Text) (r : Run V) (json : Bytes) (payload : Map Text V) (v : V)
    (action : Text)
    → ((w : List Bytes) (s : Bytes) → accepts w s ≡ true)
    → r.detector.in_osc ≡ false
    → Lacks 7 json
    → unmarshal json ≡ some payload
    → get (runes "action") payload ≡ some v
    → as_string v ≡ some action
    → let q = (write accepts unmarshal as_string r (call_prefix ++ (json ++ 7 ∷ []))).0 in
      (q.calls ≡ r.calls ++ (action, delete (runes "action") payload) ∷ [])
      × (q.writes ≡ r.writes ++ (call_prefix ++ (json ++ 7 ∷ [])) ∷ [])
      × (q.detector.in_osc ≡ false)
unfolding write
write-call accepts unmarshal as_string r json payload v action willing idle lacks parsed e f =
    let (j, run) = write_from-call accepts unmarshal as_string r json 0 idle lacks in
    let last =
      write_from-last accepts unmarshal as_string
        (held_back accepts unmarshal as_string r (call_prefix ++ json)) j 7 in
    let bell = write_byte-bell accepts unmarshal as_string r (call_prefix ++ json) (omega arith) in
    let called =
      end_osc-call accepts unmarshal as_string willing
        (held_back accepts unmarshal as_string r (call_prefix ++ (json ++ 7 ∷ []))) json payload v
        action parsed e f in
    rw (run, last, bell) called
