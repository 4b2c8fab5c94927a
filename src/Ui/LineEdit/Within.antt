-- ===== src/Ui/LineEdit/Within.antt =====
-- A cursor within the text stays there, and no edit panics.
use mathlib.Core.List.{reverse}
use underground_node_network.Base.{
  ℕ, ◌≤◌, ◌≡◌, Outcome, returns, arith, length, length-append, subst,
}
use underground_node_network.Ui.LineEdit.{
  Line, erase_left, erase_right, move_left, move_right, move_home, move_end, insert_rune,
}
use underground_node_network.Ui.LineEdit.Zipper.{
  Zipper, line_of, zipper_of, length-reverse, z_erase_left, z_erase_right, z_insert,
  erase_left-line_of, erase_right-line_of, insert_rune-line_of,
}

abbrev pub Within : Line → Type 0
Within l = l.cursor ≤ length l.value

-- The edit returns a line with the cursor within its text.
abbrev pub Edits : Outcome Line → Type 0
Edits m = (l : Line) × (m ≡ returns l) × Within l

pub Within-line_of : (z : Zipper) → Within (line_of z)
Within-line_of z = omega (arith, length-append (reverse z.before) z.behind, length-reverse z.before)

pub erase_left-Within : (l : Line) → Within l → Edits (erase_left l)
erase_left-Within l h =
    let (z, e) = zipper_of l h in
    subst (λ k. Edits (erase_left k)) e
      (line_of (z_erase_left z), erase_left-line_of z, Within-line_of (z_erase_left z))

pub erase_right-Within : (l : Line) → Within l → Edits (erase_right l)
erase_right-Within l h =
    let (z, e) = zipper_of l h in
    subst (λ k. Edits (erase_right k)) e
      (line_of (z_erase_right z), erase_right-line_of z, Within-line_of (z_erase_right z))

pub insert_rune-Within : (l : Line) (r : ℕ) → Within l → Edits (insert_rune l r)
insert_rune-Within l r h =
    let (z, e) = zipper_of l h in
    subst (λ k. Edits (insert_rune k r)) e
      (line_of (z_insert z r), insert_rune-line_of z r, Within-line_of (z_insert z r))

pub move_left-Within : (l : Line) → Within l → Within (move_left l)
unfolding move_left
move_left-Within l h = ground arith

pub move_right-Within : (l : Line) → Within l → Within (move_right l)
unfolding move_right
move_right-Within l h = ground arith

pub move_home-Within : (l : Line) → Within (move_home l)
unfolding move_home
move_home-Within l = omega arith

pub move_end-Within : (l : Line) → Within (move_end l)
unfolding move_end
move_end-Within l = omega arith
