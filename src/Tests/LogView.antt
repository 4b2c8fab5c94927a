-- ===== src/Tests/LogView.antt =====
-- A run of the theorem on the log view.
use underground_node_network.Base.{◌≡◌, [], ◌∷◌, List, returns, arith}
use underground_node_network.Base.Int.{ℤ, pos}
use underground_node_network.Text.{Text, runes}
use underground_node_network.Room.{msg_chat}
use underground_node_network.Ui.LogView.{
  LogView, new_log_view, LogCall, adds, pages_up, draws, log_run,
}
use underground_node_network.Ui.LogView.Shown.{added, Draws, log_run-Draws}

-- Nothing is wrapped.
abbrev wrap : Text → ℤ → List Text
wrap t w = t ∷ []

abbrev calls : List LogCall
calls = adds (runes "one") msg_chat ∷ draws (pos 80) 1 ∷ adds (runes "two") msg_chat ∷ pages_up ∷ []

log_run-Draws_example :
    (v : LogView) × (log_run wrap calls new_log_view ≡ returns v)
    × (v.messages ≡ added calls)
    × Draws wrap (pos 80) 1 v
log_run-Draws_example = log_run-Draws wrap calls (pos 80) 1 (omega arith)
