-- ===== src/Bridge/Input/Order.antt =====
-- No byte is lost between the consumers, and when Flush ends.
use underground_node_network.Base.{
  ℕ, zero, suc, ◌≡◌, ◌<◌, ◌≤◌, ◌⊎◌, inl, inr, refl, sym, ap, ◌∙◌, All, append-nil, ltb, [], ◌∷◌,
  ◌++◌, List, Bool, true, false, Option, none, some, length, if◌then◌else◌, Bytes, append_assoc,
  arith,
}
use underground_node_network.Text.{Text}
use underground_node_network.Bridge.Input.{
  InputBridge, Reading, waits, got, ended, new_input_bridge, pump_byte, pump_end, take_more, read,
  flush,
}

take_more-whole :
    (room : ℕ) (chan : Bytes) → (take_more room chan).0 ++ (take_more room chan).1 ≡ chan
unfolding take_more
take_more-whole zero chan = refl
take_more-whole (suc room) [] = refl
take_more-whole (suc room) (c ∷ chan) = rw (take_more-whole room chan)

-- The bytes of an answer.
abbrev pub bytes_of : Reading → Bytes
bytes_of waits = []
bytes_of (got s) = s
bytes_of (ended e) = []

-- What happens at the bridge: the pump sends a byte (which waits where there is no room, and which it
-- does no more once the channel has ended), the channel ends, a consumer reads into a slice of a length.
pub data BridgeCall : Type 0 where
  pumps : ℕ → BridgeCall
  ends : Text → BridgeCall
  reads : ℕ → BridgeCall

-- One Read: the length of the slice, the number of bytes in the buffer, and what it did.
pub record Answer : Type 0 where
  pub size : ℕ
  pub held : ℕ
  pub reading : Reading

-- The bytes that went into the buffer, the answers, and the bridge at the end.
pub record Ran : Type 0 where
  pub came : Bytes
  pub answers : List Answer
  pub last : InputBridge

abbrev pub pumped : Bool → Option InputBridge → Option InputBridge
pumped true o = none
pumped false o = o

abbrev pub bridge_run : List BridgeCall → InputBridge → Ran
bridge_run [] b = record { came = []; answers = []; last = b }
bridge_run (pumps c ∷ calls) b = elim (pumped b.closed (pump_byte b c)) [
  | none ↦ bridge_run calls b
  | some next ↦ let r = bridge_run calls next in record r { came = c ∷ r.came }
]
bridge_run (ends e ∷ calls) b = bridge_run calls (pump_end b e)
bridge_run (reads n ∷ calls) b =
    let r = bridge_run calls (read b n).1 in
    record r {
      answers =
          (record { size = n; held = length b.data_chan; reading = (read b n).0 }) ∷ r.answers;
    }

abbrev pub delivered : List Answer → Bytes
delivered [] = []
delivered (a ∷ rest) = bytes_of a.reading ++ delivered rest

-- A Read takes what is there, as far as its slice goes; it waits or ends only if nothing is there.
abbrev pub IsServed : Answer → Type 0
IsServed a = elim a.reading as (λ _. Type 0) [
  | waits ↦ (a.held ≡ 0) × (0 < a.size)
  | ended e ↦ (a.held ≡ 0) × (0 < a.size)
  | got s ↦
      ((a.size ≤ a.held) × (length s ≡ a.size))
      ⊎ ((0 < a.held) × (a.held ≤ a.size) × (length s ≡ a.held))
]

read-parts :
    (chan : Bytes) (closed : Bool) (e : Option Text) (room : ℕ)
    → let b : InputBridge = record { data_chan = chan; closed = closed; err = e } in
      bytes_of (read b (suc room)).0 ++ (read b (suc room)).1.data_chan ≡ chan
unfolding read
read-parts [] true e room = refl
read-parts [] false e room = refl
read-parts (c ∷ chan) closed e room = ap (λ t. c ∷ t) (take_more-whole room chan)

read-whole :
    (b : InputBridge) (n : ℕ) → bytes_of (read b n).0 ++ (read b n).1.data_chan ≡ b.data_chan
unfolding read
read-whole b zero = refl
read-whole b (suc room) = read-parts b.data_chan b.closed b.err room

length-take_more :
    (room : ℕ) (chan : Bytes)
    → ((room ≤ length chan) × (length (take_more room chan).0 ≡ room))
      ⊎ ((length chan ≤ room) × (length (take_more room chan).0 ≡ length chan))
unfolding take_more
length-take_more zero chan = inl (omega arith, refl)
length-take_more (suc room) [] = inr (omega arith, refl)
length-take_more (suc room) (c ∷ chan) = elim (length-take_more room chan) [
  | inl (le, e) ↦ inl (omega arith, omega arith)
  | inr (le, e) ↦ inr (omega arith, omega arith)
]

read-IsServed :
    (chan : Bytes) (closed : Bool) (e : Option Text) (n : ℕ)
    → let b : InputBridge = record { data_chan = chan; closed = closed; err = e } in
      IsServed record { size = n; held = length chan; reading = (read b n).0 }
unfolding read
read-IsServed chan closed e zero = inl (omega arith, refl)
read-IsServed [] true e (suc room) = (refl, omega arith)
read-IsServed [] false e (suc room) = (refl, omega arith)
read-IsServed (c ∷ chan) closed e (suc room) = elim (length-take_more room chan) [
  | inl (le, eq) ↦ inl (omega arith, omega arith)
  | inr (le, eq) ↦ inr (omega arith, omega arith, omega arith)
]

-- From any bridge on: what is delivered, followed by what is left, is what was there and what came.
abbrev Conserves : InputBridge → Ran → Type 0
Conserves b r =
    (delivered r.answers ++ r.last.data_chan ≡ b.data_chan ++ r.came) × All IsServed r.answers

run-Conserves : (calls : List BridgeCall) (b : InputBridge) → Conserves b (bridge_run calls b)
unfolding pump_byte pump_end
run-Conserves [] b = (sym (append-nil b.data_chan), tt)
run-Conserves (ends e ∷ calls) b = run-Conserves calls (pump_end b e)
run-Conserves (reads n ∷ calls) b =
    let next = (read b n).1 in
    let r = bridge_run calls next in
    let (whole, served) = run-Conserves calls next in
    (
      append_assoc (bytes_of (read b n).0) (delivered r.answers) r.last.data_chan
          ∙ ap (λ t. bytes_of (read b n).0 ++ t) whole
          ∙ sym (append_assoc (bytes_of (read b n).0) next.data_chan r.came)
          ∙ ap (λ t. t ++ r.came) (read-whole b n),
      (read-IsServed b.data_chan b.closed b.err n, served),
    )
run-Conserves (pumps c ∷ calls) b =
    go b.closed (ltb (length b.data_chan) 2048) (run-Conserves calls b)
      (run-Conserves calls (record b { data_chan = b.data_chan ++ c ∷ [] }))
  where
    go :
        (closed room : Bool)
        → Conserves b (bridge_run calls b)
        → Conserves
            (record b { data_chan = b.data_chan ++ c ∷ [] })
            (bridge_run calls record b { data_chan = b.data_chan ++ c ∷ [] })
        → Conserves b
            (elim (pumped closed
                (if room then some record b { data_chan = b.data_chan ++ c ∷ [] } else none))
              as (λ _. Ran) [
                | none ↦ bridge_run calls b
                | some next ↦ let r = bridge_run calls next in record r { came = c ∷ r.came }
              ])
    go true room same next = same
    go false false same next = same
    go false true same (whole, served) = (whole ∙ append_assoc b.data_chan (c ∷ []) _, served)

-- In every sequence of bytes from the channel, its end and reads by whatever consumers, beginning with
-- a new bridge: the bytes that the reads got, followed by those still buffered, are the bytes that
-- came in, in their order. A read gets as many bytes as are there and fit its slice, and it waits or
-- returns the error only where there are none.
pub reads-whole :
    (calls : List BridgeCall)
    → (delivered (bridge_run calls new_input_bridge).answers
          ++ (bridge_run calls new_input_bridge).last.data_chan
        ≡ (bridge_run calls new_input_bridge).came)
      × All IsServed (bridge_run calls new_input_bridge).answers
unfolding new_input_bridge
reads-whole calls = run-Conserves calls new_input_bridge

flush_open :
    (fuel : ℕ) (chan : Bytes) (e : Option Text)
    → length chan < fuel
    → flush fuel record { data_chan = chan; closed = false; err = e }
      ≡ some record { data_chan = []; closed = false; err = e }
unfolding flush
flush_open zero chan e lt = absurd (omega arith)
flush_open (suc fuel) [] e lt = refl
flush_open (suc fuel) (c ∷ chan) e lt = flush_open fuel chan e (omega arith)

flush_closed :
    (fuel : ℕ) (chan : Bytes) (e : Option Text)
    → flush fuel record { data_chan = chan; closed = true; err = e } ≡ none
unfolding flush
flush_closed zero chan e = refl
flush_closed (suc fuel) [] e = flush_closed fuel [] e
flush_closed (suc fuel) (c ∷ chan) e = flush_closed fuel chan e

-- While the person is connected, Flush empties the buffer in one round more than it holds bytes; once
-- the channel has ended, Flush never returns, however long it runs.
pub flush_ends :
    (b : InputBridge) (fuel : ℕ)
    → length b.data_chan < fuel
    → flush fuel b ≡ (if b.closed then none else some record b { data_chan = [] })
flush_ends b fuel lt = go b.closed
  where
    go :
        (c : Bool)
        → flush fuel record { data_chan = b.data_chan; closed = c; err = b.err }
          ≡ (if c then none else some record { data_chan = []; closed = c; err = b.err })
    go true = flush_closed fuel b.data_chan b.err
    go false = flush_open fuel b.data_chan b.err lt
