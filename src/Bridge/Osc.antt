-- ===== src/Bridge/Osc.antt =====
-- internal/ui/bridge/bridge.go: OSCDetector. The writer's answers and encoding/json are parameters.
pub mod Through
pub mod Call
use underground_node_network.Base.{
  ℕ, zero, suc, ◌+◌, [], ◌∷◌, ◌++◌, List, Bool, true, false, not, ◌&&◌, ◌==◌, Option, none, some,
  length, if◌then◌else◌, Bytes,
}
use underground_node_network.Map.{Map, get, delete}
use underground_node_network.Text.{
  Text, text_eq, text_key, runes, has_prefix, trim_prefix, trim_suffix,
}

pub record OscDetector : Type 0 where
  pub buf : Bytes
  pub in_osc : Bool

-- A detector with what it has written and the calls of its handler.
pub record Run (V : Type 0) : Type 0 where
  pub detector : OscDetector
  pub writes : List Bytes
  pub calls : List (Text × Map Text V)

-- The bytes between the prefix and the terminator.
unfoldable pub json_of : Bytes → Bytes
json_of s = trim_suffix (trim_prefix s (0x1b ∷ runes "]31337;")) (0x07 ∷ [])

module _ {V : Type 0} (accepts : List Bytes → Bytes → Bool)
    (unmarshal : Bytes → Option (Map Text V)) (as_string : V → Option Text) where
  -- d.w.Write, and whether it gives no error.
  unfoldable pub emit : Run V → Bytes → Run V × Bool
  emit r s =
      if accepts r.writes s then (record r { writes = r.writes ++ s ∷ [] }, true) else (r, false)

  -- if err == nil { if action, ok := payload["action"].(string); ok { … } }
  unfoldable pub dispatch : Run V → Option (Map Text V) → Run V
  dispatch r none = r
  dispatch r (some payload) = elim (get (runes "action") payload) [
    | none ↦ r
    | some v ↦ elim (as_string v) [
      | none ↦ r
      | some action ↦ record r { calls = r.calls ++ (action, delete (runes "action") payload) ∷ [] }
    ]
  ]

  -- A byte while no sequence is open.
  unfoldable pub plain_byte : Run V → ℕ → Run V × Bool
  plain_byte r b =
      if b == 0x1b
      then (record r { detector = record { buf = b ∷ []; in_osc = true } }, true)
      else emit r (b ∷ [])

  -- The sequence `s` has ended.
  unfoldable pub end_osc : Run V → Bytes → Run V × Bool
  end_osc r s =
      let closed = record r { detector = record { buf = s; in_osc = false } } in
      if has_prefix s (0x1b ∷ runes "]31337;")
      then emit (dispatch closed (unmarshal (json_of s))) s
      else emit closed s

  -- A byte of an open sequence, which is `s` with it.
  unfoldable pub osc_byte : Run V → ℕ → Bytes → Run V × Bool
  osc_byte r b s =
      if length s == 2 && not (text_eq s (0x1b ∷ 0x5d ∷ []))
      then emit (record r { detector = record { buf = s; in_osc = false } }) s
      else if b == 0x07
      then end_osc r s
      else (record r { detector = record { buf = s; in_osc = true } }, true)

  unfoldable pub write_byte : Run V → ℕ → Run V × Bool
  write_byte r b =
      if not r.detector.in_osc then plain_byte r b else osc_byte r b (r.detector.buf ++ b ∷ [])

  -- The loop of Write from the i-th byte on: what it returns is the count and whether there is no error.
  unfoldable pub write_from : Run V → ℕ → Bytes → Run V × (ℕ × Bool)
  write_from r i [] = (r, (i, true))
  write_from r i (b ∷ p) =
      let next = (write_byte r b).0 in
      let rest = write_from next (i + 1) p in
      if (write_byte r b).1 then rest else (next, (i, false))

  unfoldable pub write : Run V → Bytes → Run V × (ℕ × Bool)
  write r p = write_from r 0 p
