-- ===== src/Bridge/Bus.antt =====
-- internal/ui/bridge/sshbus.go: SSHBus, the terminal that a screen reads from and that ends apart from
-- the channel. The signal does not come while a Read is running.
pub mod Exit
use underground_node_network.Base.{
  ℕ, zero, suc, [], ◌∷◌, List, Bool, true, false, Outcome, returns, panics, ◌>>=◌, if◌then◌else◌,
}
use underground_node_network.Bridge.Input.{InputBridge, Reading, got, read}

-- `done`: doneChan is closed.
pub record SshBus : Type 0 where
  pub bridge : InputBridge
  pub width : ℕ
  pub height : ℕ
  pub done : Bool

-- The results of Read: io.EOF, or what the bridge gives.
pub data BusReading : Type 0 where
  eof : BusReading
  from_bridge : Reading → BusReading

unfoldable pub new_ssh_bus : InputBridge → ℕ → ℕ → SshBus
new_ssh_bus bridge width height = record {
  bridge = bridge;
  width = width;
  height = height;
  done = false;
}

unfoldable pub bus_read : SshBus → ℕ → BusReading × SshBus
bus_read b zero = (from_bridge (got []), b)
bus_read b (suc n) =
    let (r, bridge) = read b.bridge (suc n) in
    if b.done then (eof, b) else (from_bridge r, record b { bridge = bridge })

-- close(b.doneChan)
unfoldable pub close_done : SshBus → Outcome SshBus
close_done b = if b.done then panics else returns record b { done = true }

unfoldable pub signal_exit : SshBus → Outcome SshBus
unfolding close_done
signal_exit b = if b.done then returns b else close_done b

unfoldable pub reset : SshBus → SshBus
reset b = if b.done then record b { done = false } else b

unfoldable pub resize : SshBus → ℕ → ℕ → SshBus
resize b w h = record b { width = w; height = h }

-- The calls on a bus, in the order of its mutex.
pub data BusOp : Type 0 where
  exit_op : BusOp
  reset_op : BusOp
  resize_op : ℕ → ℕ → BusOp
  read_op : ℕ → BusOp

unfoldable pub bus_step : SshBus → BusOp → Outcome SshBus
bus_step b exit_op = signal_exit b
bus_step b reset_op = returns (reset b)
bus_step b (resize_op w h) = returns (resize b w h)
bus_step b (read_op n) = returns (bus_read b n).1

unfoldable pub bus_run : SshBus → List BusOp → Outcome SshBus
bus_run b [] = returns b
bus_run b (op ∷ ops) = bus_step b op >>= λ next. bus_run next ops
