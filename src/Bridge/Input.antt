-- ===== src/Bridge/Input.antt =====
-- internal/ui/bridge/bridge.go: InputBridge, the one reader of a person's SSH channel, whose bytes go
-- to one consumer after another. `data_chan` is what is buffered in the channel of that name.
pub mod Order
use underground_node_network.Base.{
  ℕ, zero, suc, ◌+◌, [], ◌∷◌, ◌++◌, List, Bool, true, false, Option, none, some, length,
  if◌then◌else◌, Bytes, ltb,
}
use underground_node_network.Text.{Text}

pub record InputBridge : Type 0 where
  pub data_chan : Bytes
  pub closed : Bool
  pub err : Option Text

unfoldable pub new_input_bridge : InputBridge
new_input_bridge = record { data_chan = []; closed = false; err = none }

-- b.dataChan <- buf[i]; `none` where the pump has to wait for room.
unfoldable pub pump_byte : InputBridge → ℕ → Option InputBridge
pump_byte b c =
    if ltb (length b.data_chan) 2048
    then some record b { data_chan = b.data_chan ++ c ∷ [] }
    else none

-- The bytes of one read of the channel.
unfoldable pub pump_bytes : InputBridge → Bytes → Option InputBridge
pump_bytes b [] = some b
pump_bytes b (c ∷ cs) = elim (pump_byte b c) [ none ↦ none | some next ↦ pump_bytes next cs ]

-- The read has failed.
unfoldable pub pump_end : InputBridge → Text → InputBridge
pump_end b e = record b { err = some e; closed = true }

-- What Read does: it waits, it returns some bytes, or it returns the error of the channel.
pub data Reading : Type 0 where
  waits : Reading
  got : Bytes → Reading
  ended : Option Text → Reading

-- for n < len(p) { select … }, with `room` left in p: the bytes taken and those that stay.
unfoldable pub take_more : ℕ → Bytes → Bytes × Bytes
take_more zero chan = ([], chan)
take_more (suc room) [] = ([], [])
take_more (suc room) (c ∷ chan) = let (taken, left) = take_more room chan in (c ∷ taken, left)

-- Read into a slice of length `len`.
unfoldable pub read : InputBridge → ℕ → Reading × InputBridge
read b zero = (got [], b)
read b (suc room) = elim b.data_chan [
  | [] ↦ (if b.closed then ended b.err else waits, b)
  | c ∷ chan ↦
      let (taken, left) = take_more room chan in (got (c ∷ taken), record b { data_chan = left })
]

-- The loop of Flush, for at most `fuel` rounds. A receive from a closed channel never blocks, so
-- `default` is only chosen while the channel is open.
unfoldable pub flush : ℕ → InputBridge → Option InputBridge
flush zero b = none
flush (suc fuel) b = elim b.data_chan [
  | [] ↦ let more = flush fuel b in if b.closed then more else some b
  | c ∷ chan ↦ flush fuel record b { data_chan = chan }
]
