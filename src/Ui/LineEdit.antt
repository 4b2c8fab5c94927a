-- ===== src/Ui/LineEdit.antt =====
-- The editing of one line of text at a cursor, as the key handlers of internal/ui/input,
-- internal/ui/form and internal/ui/password write it out: slices of the value's runes.
pub mod Zipper
pub mod Within
pub mod Content
use underground_node_network.Base.{
  ℕ, ◌+◌, ◌-◌, ◌∷◌, [], ◌++◌, Outcome, returns, ◌>>=◌, ltb, if◌then◌else◌, length, slice,
}
use underground_node_network.Text.{Text}

-- tcell's keys that the handlers name; `other` is any other key.
pub data Key : Type 0 where
  enter escape ctrl_c backspace backspace2 delete left right home end up down tab other : Key
  rune : ℕ → Key

-- A value and the cursor in it, counted in runes.
pub record Line : Type 0 where
  pub value : Text
  pub cursor : ℕ

-- if cursor > 0 { value = runes[:cursor-1] + runes[cursor:]; cursor-- }
unfoldable pub erase_left : Line → Outcome Line
erase_left l =
    if ltb 0 l.cursor
    then (do
      before ← slice l.value 0 (l.cursor - 1)
      behind ← slice l.value l.cursor (length l.value)
      returns (record { value = before ++ behind; cursor = l.cursor - 1 }))
    else returns l

-- if cursor < len(runes) { value = runes[:cursor] + runes[cursor+1:] }
unfoldable pub erase_right : Line → Outcome Line
erase_right l =
    if ltb l.cursor (length l.value)
    then (do
      before ← slice l.value 0 l.cursor
      behind ← slice l.value (l.cursor + 1) (length l.value)
      returns (record l { value = before ++ behind }))
    else returns l

unfoldable pub move_left : Line → Line
move_left l = if ltb 0 l.cursor then record l { cursor = l.cursor - 1 } else l

unfoldable pub move_right : Line → Line
move_right l = if ltb l.cursor (length l.value) then record l { cursor = l.cursor + 1 } else l

unfoldable pub move_home : Line → Line
move_home l = record l { cursor = 0 }

unfoldable pub move_end : Line → Line
move_end l = record l { cursor = length l.value }

-- value = runes[:cursor] + r + runes[cursor:]; cursor++
unfoldable pub insert_rune : Line → ℕ → Outcome Line
insert_rune l r = do
  before ← slice l.value 0 l.cursor
  behind ← slice l.value l.cursor (length l.value)
  returns (record { value = before ++ r ∷ behind; cursor = l.cursor + 1 })
