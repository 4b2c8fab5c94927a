-- ===== src/Bridge/Bus/Exit.antt =====
-- The end of a screen leaves the bytes of the person to the next one.
use underground_node_network.Base.{
  ℕ, zero, suc, ◌≡◌, refl, [], ◌∷◌, List, Bool, true, false, returns, if◌then◌else◌, All, ap, ◌∙◌,
}
use underground_node_network.Bridge.Input.{read}
use underground_node_network.Bridge.Bus.{
  SshBus, eof, from_bridge, BusOp, exit_op, reset_op, resize_op, read_op, bus_read, close_done,
  signal_exit, reset, resize, bus_step, bus_run,
}

-- Whether the bus has ended after the calls, if it had (or had not) before.
abbrev pub ends : Bool → List BusOp → Bool
ends d [] = d
ends d (exit_op ∷ ops) = ends true ops
ends d (reset_op ∷ ops) = ends false ops
ends d (resize_op w h ∷ ops) = ends d ops
ends d (read_op n ∷ ops) = ends d ops

abbrev at : SshBus → Bool → SshBus
at b d = record b { done = d }

signal_exit-at : (b : SshBus) (d : Bool) → signal_exit (at b d) ≡ returns (at b true)
unfolding signal_exit close_done
signal_exit-at b true = refl
signal_exit-at b false = refl

signal_exit-done : (b : SshBus) → signal_exit b ≡ returns (at b true)
signal_exit-done b = signal_exit-at b b.done

reset-at : (b : SshBus) (d : Bool) → (reset (at b d)).done ≡ false
unfolding reset
reset-at b true = refl
reset-at b false = refl

reset-done : (b : SshBus) → (reset b).done ≡ false
reset-done b = reset-at b b.done

bus_read-at : (b : SshBus) (d : Bool) (n : ℕ) → (bus_read (at b d) n).1.done ≡ d
unfolding bus_read
bus_read-at b d zero = refl
bus_read-at b true (suc n) = refl
bus_read-at b false (suc n) = refl

bus_read-done : (b : SshBus) (n : ℕ) → (bus_read b n).1.done ≡ b.done
bus_read-done b n = bus_read-at b b.done n

bus_read-eof : (b : SshBus) (n : ℕ) → b.done ≡ true → bus_read b (suc n) ≡ (eof, b)
unfolding bus_read
bus_read-eof b n d =
    ap
      (λ e. if e then (eof, b) else (
        from_bridge (read b.bridge (suc n)).0,
        record b { bridge = (read b.bridge (suc n)).1 },
      ))
      d

bus_read-bridge : (b : SshBus) (n : ℕ) → b.done ≡ true → (bus_read b n).1.bridge ≡ b.bridge
unfolding bus_read
bus_read-bridge b zero d = refl
bus_read-bridge b (suc n) d = ap (λ r. r.1.bridge) (bus_read-eof b n d)

-- No calls, in whatever order and however often, close doneChan twice or otherwise panic; the bus has
-- ended exactly if the last exit came behind the last reset.
pub bus_run-ends :
    (b : SshBus) (ops : List BusOp)
    → (c : SshBus) × (bus_run b ops ≡ returns c) × (c.done ≡ ends b.done ops)
unfolding bus_run bus_step resize
bus_run-ends b [] = (b, refl, refl)
bus_run-ends b (exit_op ∷ ops) =
    let e = signal_exit-done b in rw (bus_step, e) (bus_run-ends record b { done = true } ops)
bus_run-ends b (reset_op ∷ ops) =
    let (c, e, d) = bus_run-ends (reset b) ops in (c, e, d ∙ ap (λ i. ends i ops) (reset-done b))
bus_run-ends b (resize_op w h ∷ ops) = bus_run-ends (resize b w h) ops
bus_run-ends b (read_op n ∷ ops) =
    let (c, e, d) = bus_run-ends (bus_read b n).1 ops in
    (c, e, d ∙ ap (λ i. ends i ops) (bus_read-done b n))

abbrev pub NotReset : BusOp → Type 0
NotReset reset_op = ⊥
NotReset _ = Unit

-- From an exit until the next reset, reads take nothing from the bridge and give io.EOF.
pub bus_run-done :
    (b : SshBus) (ops : List BusOp) (n : ℕ)
    → b.done ≡ true
    → All NotReset ops
    → (c : SshBus) × (bus_run b ops ≡ returns c)
      × (c.bridge ≡ b.bridge)
      × ((bus_read c (suc n)).0 ≡ eof)
unfolding bus_run bus_step resize
bus_run-done b [] n d h = (b, refl, refl, ap (λ r. r.0) (bus_read-eof b n d))
bus_run-done b (exit_op ∷ ops) n d (_, h) =
    let e = signal_exit-done b in
    rw (bus_step, e) (bus_run-done record b { done = true } ops n refl h)
bus_run-done b (reset_op ∷ ops) n d (impossible, h) = absurd impossible
bus_run-done b (resize_op w i ∷ ops) n d (_, h) = bus_run-done (resize b w i) ops n d h
bus_run-done b (read_op m ∷ ops) n d (_, h) =
    let (c, e, same, end) = bus_run-done (bus_read b m).1 ops n (bus_read-done b m ∙ d) h in
    (c, e, same ∙ bus_read-bridge b m d, end)
