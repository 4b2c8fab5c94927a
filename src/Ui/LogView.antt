-- ===== src/Ui/LogView.antt =====
-- internal/ui/log/log.go: LogView, the scrolling feed of a screen, with the keys of internal/ui/chat.go
-- that scroll it. `wrap` is common.WrapText. A height of 0 stands for any that is not positive, and a
-- difference that Go makes 0 where it is negative is the subtraction on ℕ.
pub mod Window
pub mod Shown
use underground_node_network.Base.{
  ℕ, ◌+◌, ◌-◌, [], ◌∷◌, ◌++◌, List, Bool, true, false, not, ◌&&◌, Outcome, returns, panics, ◌>>=◌,
  length, ltb, ◌==◌, if◌then◌else◌, slice, same,
}
use underground_node_network.Base.Int.{ℤ, pos, ℤ_eq}
use underground_node_network.Text.{Text}
use underground_node_network.Room.{Message, MessageType}

pub record LogView : Type 0 where
  pub messages : List Message
  pub physical_lines : List Message
  pub scroll_offset : ℕ
  pub width : ℤ
  pub last_msg_count : ℕ

abbrev pub new_log_view : LogView
new_log_view = record {
  messages = [];
  physical_lines = [];
  scroll_offset = 0;
  width = pos 0;
  last_msg_count = 0;
}

unfoldable pub add_log_message : Text → MessageType → LogView → LogView
add_log_message text kind v =
    let m : Message = record { text = text; kind = kind } in
    record v { messages = v.messages ++ m ∷ [] }

-- PgUp and PgDn
unfoldable pub page_up : LogView → LogView
page_up v = record v { scroll_offset = v.scroll_offset + 10 }

unfoldable pub page_down : LogView → LogView
page_down v = record v { scroll_offset = v.scroll_offset - 10 }

-- What ChatUI.Draw does to the offset for the height of the log.
unfoldable pub limit_scroll : ℕ → LogView → LogView
limit_scroll h v =
    if ltb (length v.physical_lines - h) v.scroll_offset
    then record v { scroll_offset = length v.physical_lines - h }
    else v

unfoldable pub is_empty : List Message → Bool
is_empty [] = true
is_empty (m ∷ ms) = false

-- The calls of a screen.
pub data LogCall : Type 0 where
  adds : Text → MessageType → LogCall
  pages_up : LogCall
  pages_down : LogCall
  draws : ℤ → ℕ → LogCall

module _ (wrap : Text → ℤ → List Text) where
  unfoldable pub lines_of : List Text → MessageType → List Message
  lines_of [] kind = []
  lines_of (line ∷ lines) kind = record { text = line; kind = kind } ∷ lines_of lines kind

  -- The loops of UpdatePhysicalLines.
  unfoldable pub wrap_all : ℤ → List Message → List Message
  wrap_all w [] = []
  wrap_all w (m ∷ ms) = lines_of (wrap m.text w) m.kind ++ wrap_all w ms

  unfoldable pub update_physical_lines : ℤ → LogView → LogView
  update_physical_lines w v =
      if same w v.width && length v.messages == v.last_msg_count && not (is_empty v.physical_lines)
      then v
      else record v {
        width = w;
        last_msg_count = length v.messages;
        physical_lines = wrap_all w v.messages;
      }

  -- The lines from start to end.
  unfoldable pub visible : ℕ → LogView → Outcome (List Message)
  visible h v =
      let total = length v.physical_lines in
      let start = total - v.scroll_offset - h in
      slice v.physical_lines start (if ltb total (start + h) then total else start + h)

  -- Draw, and the lines that it draws.
  unfoldable pub draw : ℤ → ℕ → LogView → Outcome (LogView × List Message)
  draw w h v =
      if h == 0
      then returns (v, [])
      else (let u = update_physical_lines w v in
          if is_empty u.physical_lines
          then returns (u, [])
          else (visible h u >>= λ shown. returns (u, shown)))

  unfoldable pub log_step : LogCall → LogView → Outcome LogView
  log_step (adds text kind) v = returns (add_log_message text kind v)
  log_step pages_up v = returns (page_up v)
  log_step pages_down v = returns (page_down v)
  log_step (draws w h) v =
      if h == 0 then returns v else (draw w h (limit_scroll h v) >>= λ r. returns r.0)

  unfoldable pub log_run : List LogCall → LogView → Outcome LogView
  log_run [] v = returns v
  log_run (c ∷ cs) v = log_step c v >>= λ u. log_run cs u
