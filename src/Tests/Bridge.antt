-- ===== src/Tests/Bridge.antt =====
-- Runs of the theorems on the bridge.
use underground_node_network.Base.{
  All, ◌≡◌, refl, [], ◌∷◌, ◌++◌, List, Bool, true, false, Option, none, some, arith, Bytes, returns,
}
use underground_node_network.Map.{Map, get, delete}
use underground_node_network.Text.{Text, runes, text_key, text_eq, Lacks}
use underground_node_network.Bridge.Osc.{Run, write}
use underground_node_network.Bridge.Osc.Through.{passed, write-passed}
use underground_node_network.Bridge.Osc.Call.{call_prefix, write-call}
use underground_node_network.Bridge.Input.{
  InputBridge, flush, new_input_bridge, pump_byte, read, take_more,
}
use underground_node_network.Bridge.Input.Order.{reads, flush_ends}
use underground_node_network.Bridge.Input.Order.{
  BridgeCall, pumps, ends, reads, delivered, bridge_run, IsServed, reads-whole,
}
use underground_node_network.Bridge.Bus.{
  SshBus, exit_op, reset_op, resize_op, read_op, bus_read, bus_run, eof,
}
use underground_node_network.Bridge.Bus.Exit.{bus_run-ends, bus_run-done}

abbrev accepts : List Bytes → Bytes → Bool
accepts w s = true

-- A stand-in for JSON: the text is the action.
abbrev unmarshal : Bytes → Option (Map Text Text)
unmarshal s = some ((runes "action", s) ∷ [])

abbrev as_string : Text → Option Text
as_string s = some s

abbrev idle : Run Text
idle = record { detector = record { buf = []; in_osc = false }; writes = []; calls = [] }

write-passed_example :
    (passed (write accepts unmarshal as_string idle (97 ∷ 27 ∷ 93 ∷ [])).0
      ≡ passed idle ++ 97 ∷ 27 ∷ 93 ∷ [])
    × ((write accepts unmarshal as_string idle (97 ∷ 27 ∷ 93 ∷ [])).1 ≡ (3, true))
write-passed_example =
    write-passed accepts unmarshal as_string (λ w s. refl) idle (97 ∷ 27 ∷ 93 ∷ [])

write-call_example :
    let q = (write accepts unmarshal as_string idle (call_prefix ++ (runes "bell" ++ 7 ∷ []))).0 in
    (q.calls
      ≡ idle.calls
        ++ (runes "bell", delete (runes "action") ((runes "action", runes "bell") ∷ [])) ∷ [])
    × (q.writes ≡ idle.writes ++ (call_prefix ++ (runes "bell" ++ 7 ∷ [])) ∷ [])
    × (q.detector.in_osc ≡ false)
unfolding get text_eq
write-call_example =
    write-call accepts unmarshal as_string idle (runes "bell") ((runes "action", runes "bell") ∷ [])
      (runes "bell") (runes "bell") (λ w s. refl) refl bell_lacks refl refl refl
  where
    bell_lacks : Lacks 7 (runes "bell")
    bell_lacks = ground arith

abbrev bridge : InputBridge
bridge = record { data_chan = 1 ∷ 2 ∷ 3 ∷ []; closed = false; err = none }

abbrev ended_bridge : InputBridge
ended_bridge = record { data_chan = 1 ∷ []; closed = true; err = some (runes "EOF") }

-- Two bytes, a read of one, a third byte, a read of five, the end, and a read of nothing.
abbrev calls : List BridgeCall
calls = pumps 1 ∷ pumps 2 ∷ reads 1 ∷ pumps 3 ∷ reads 5 ∷ ends (runes "EOF") ∷ reads 4 ∷ []

reads-whole_example :
    (delivered (bridge_run calls new_input_bridge).answers
        ++ (bridge_run calls new_input_bridge).last.data_chan
      ≡ 1 ∷ 2 ∷ 3 ∷ [])
    × All IsServed (bridge_run calls new_input_bridge).answers
unfolding new_input_bridge pump_byte read take_more
reads-whole_example = reads-whole calls

flush_ends_example : flush 4 ended_bridge ≡ none
flush_ends_example = flush_ends ended_bridge 4 (omega arith)

abbrev bus : SshBus
bus = record { bridge = bridge; width = 80; height = 24; done = true }

bus_run-ends_example :
    (c : SshBus) × (bus_run bus (exit_op ∷ reset_op ∷ read_op 2 ∷ exit_op ∷ []) ≡ returns c)
    × (c.done ≡ true)
bus_run-ends_example = bus_run-ends bus (exit_op ∷ reset_op ∷ read_op 2 ∷ exit_op ∷ [])

bus_run-done_example :
    (c : SshBus) × (bus_run bus (exit_op ∷ read_op 9 ∷ resize_op 1 1 ∷ []) ≡ returns c)
    × (c.bridge ≡ bridge)
    × ((bus_read c 8).0 ≡ eof)
bus_run-done_example =
    bus_run-done bus (exit_op ∷ read_op 9 ∷ resize_op 1 1 ∷ []) 7 refl (tt, (tt, (tt, tt)))
