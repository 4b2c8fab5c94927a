-- ===== src/Ui/LogView/Window.antt =====
-- A window of a list of lines, and what `visible` cuts out.
use underground_node_network.Base.{
  ℕ, ◌+◌, ◌-◌, ◌≤◌, ◌≡◌, refl, sym, ap, ◌∙◌, ◌++◌, List, true, ◌&&◌, returns, length, take, drop,
  length-take, length-drop, take-append-drop, ltb, leb, slice, min, arith, Bool-cases, inl, inr,
}
use underground_node_network.Base.Int.{ℤ, ℤ_eq}
use underground_node_network.Text.{Text}
use underground_node_network.Room.{Message}
use underground_node_network.Ui.LogView.{LogView, visible}

-- `shown` is what stands `below` lines above the end of `lines`, `h` lines high where there are as many.
abbrev pub IsWindow : List Message → ℕ → ℕ → List Message → Type 0
IsWindow lines below h shown =
    (pre : List Message) × (post : List Message) × (lines ≡ pre ++ (shown ++ post))
    × (length shown ≡ min h (length lines))
    × (length post ≡ min below (length lines - h))

slice-IsWindow :
    (lines : List Message) (lo hi below h : ℕ)
    → lo ≤ hi
    → hi ≤ length lines
    → hi - lo ≡ min h (length lines)
    → length lines - hi ≡ min below (length lines - h)
    → (shown : List Message) × (slice lines lo hi ≡ returns shown) × IsWindow lines below h shown
unfolding slice
slice-IsWindow lines lo hi below h le fits high low =
    let rest = drop lo lines in
    let shown = take (hi - lo) rest in
    let in_range : (leb lo hi && leb hi (length lines)) ≡ true = ground arith in
    (
      shown,
      rw (slice, in_range) refl,
      (
        take lo lines,
        drop (hi - lo) rest,
        sym (take-append-drop lo lines)
            ∙ ap (λ l. take lo lines ++ l) (sym (take-append-drop (hi - lo) rest)),
        omega (arith, length-take (hi - lo) rest, length-drop lo lines),
        omega (arith, length-drop (hi - lo) rest, length-drop lo lines),
      ),
    )

pub visible-IsWindow :
    (wrap : Text → ℤ → List Text) (h : ℕ) (v : LogView)
    → (shown : List Message) × (visible wrap h v ≡ returns shown)
      × IsWindow v.physical_lines v.scroll_offset h shown
unfolding visible
visible-IsWindow wrap h v =
    let lines = v.physical_lines in
    let start = length lines - v.scroll_offset - h in
    elim (Bool-cases (ltb (length lines) (start + h))) [
      | inl past ↦
          rw (visible, past)
            (slice-IsWindow lines start (length lines) v.scroll_offset h (omega arith) (omega arith)
              (ground arith) (ground arith))
      | inr within ↦
          rw (visible, within)
            (slice-IsWindow lines start (start + h) v.scroll_offset h (omega arith) (ground arith)
              (ground arith) (ground arith))
    ]
