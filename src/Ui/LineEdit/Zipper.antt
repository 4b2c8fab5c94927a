-- ===== src/Ui/LineEdit/Zipper.antt =====
-- The abstract line editor: the text left of the cursor, last character first, and the text right
-- of it. The code's edits are those of this editor, and they panic on no line whose cursor is
-- within the text.
use mathlib.Core.List.{reverse, reverse-append, reverse-cons, reverse-reverse}
use underground_node_network.Base.{
  ℕ, suc, ◌+◌, ◌-◌, ◌≤◌, ◌≡◌, refl, sym, ap, ◌∙◌, [], ◌∷◌, ◌++◌, append-nil, append_assoc, returns,
  arith, length, length-append, slice, slice-append, take, drop, take-append-drop, length-take,
}
use underground_node_network.Text.{Text}
use underground_node_network.Ui.LineEdit.{
  Line, erase_left, erase_right, move_left, move_right, move_home, move_end, insert_rune,
}

pub record Zipper : Type 0 where
  pub before : Text
  pub behind : Text

-- The line that a zipper stands for.
abbrev pub line_of : Zipper → Line
line_of z = record { value = reverse z.before ++ z.behind; cursor = length z.before }

pub length-reverse : (s : Text) → length (reverse s) ≡ length s
length-reverse [] = refl
length-reverse (c ∷ s) =
    omega
      (arith, ap length (reverse-cons c s), length-append (reverse s) (c ∷ []), length-reverse s)

-- Every line with the cursor within the text is the line of a zipper.
pub zipper_of : (l : Line) → l.cursor ≤ length l.value → (z : Zipper) × (line_of z ≡ l)
zipper_of l h = (
  record { before = reverse (take l.cursor l.value); behind = drop l.cursor l.value },
  λ i. record { value = values i; cursor = cursors i },
)
  where
    values : reverse (reverse (take l.cursor l.value)) ++ drop l.cursor l.value ≡ l.value
    values = rw reverse-reverse (take-append-drop l.cursor l.value)

    cursors : length (reverse (take l.cursor l.value)) ≡ l.cursor
    cursors = omega (arith, length-reverse (take l.cursor l.value), length-take l.cursor l.value)

abbrev pub z_erase_left : Zipper → Zipper
z_erase_left z = elim z.before [ [] ↦ z | c ∷ s ↦ record z { before = s } ]

abbrev pub z_erase_right : Zipper → Zipper
z_erase_right z = elim z.behind [ [] ↦ z | c ∷ s ↦ record z { behind = s } ]

abbrev pub z_insert : Zipper → ℕ → Zipper
z_insert z r = record z { before = r ∷ z.before }

abbrev pub z_left : Zipper → Zipper
z_left z = elim z.before [ [] ↦ z | c ∷ s ↦ record { before = s; behind = c ∷ z.behind } ]

abbrev pub z_right : Zipper → Zipper
z_right z = elim z.behind [ [] ↦ z | c ∷ s ↦ record { before = c ∷ z.before; behind = s } ]

abbrev pub z_home : Zipper → Zipper
z_home z = record { before = []; behind = reverse z.before ++ z.behind }

abbrev pub z_end : Zipper → Zipper
z_end z = record { before = reverse z.behind ++ z.before; behind = [] }

-- The slices at the cursor.
slice_before : (p t : Text) (n : ℕ) → n ≡ length p → slice (p ++ t) 0 n ≡ returns p
slice_before p t n e = slice-append [] p t 0 n (omega arith) (omega arith)

slice_behind :
    (p t : Text) (lo hi : ℕ)
    → lo ≡ length p
    → hi ≡ length (p ++ t)
    → slice (p ++ t) lo hi ≡ returns t
slice_behind p t lo hi e e' =
    ap (λ u. slice (p ++ u) lo hi) (sym (append-nil t))
    ∙ slice-append p t [] lo hi e (omega (arith, length-append p t))

erase_left_at :
    (p t : Text) (c n : ℕ)
    → n ≡ length p + 1
    → erase_left (record { value = p ++ c ∷ t; cursor = n })
      ≡ returns (record { value = p ++ t; cursor = length p })
unfolding erase_left
erase_left_at p t c n e =
    let e1 : n - 1 ≡ length p = omega arith in
    let there : slice (p ++ c ∷ t) n (length (p ++ c ∷ t)) ≡ returns t = rw append_assoc at (
      slice_behind (p ++ c ∷ []) t n (length (p ++ c ∷ t)) (omega (arith, length-append p (c ∷ [])))
        (rw append_assoc refl)) in
    rw (e1, slice_before p (c ∷ t) (length p) refl, there) (ground arith)

erase_right_at :
    (p t : Text) (c n : ℕ)
    → n ≡ length p
    → erase_right (record { value = p ++ c ∷ t; cursor = n })
      ≡ returns (record { value = p ++ t; cursor = n })
unfolding erase_right
erase_right_at p t c n e =
    let e1 : n + 1 ≡ length (p ++ c ∷ []) = omega (arith, length-append p (c ∷ [])) in
    let there : slice (p ++ c ∷ t) (n + 1) (length (p ++ c ∷ t)) ≡ returns t =
      rw append_assoc at
        (slice_behind (p ++ c ∷ []) t (n + 1) (length (p ++ c ∷ t)) e1 (rw append_assoc refl)) in
    rw (there, slice_before p (c ∷ t) n e) (ground (arith, length-append p (c ∷ t)))

insert_rune_at :
    (p t : Text) (r n : ℕ)
    → n ≡ length p
    → insert_rune (record { value = p ++ t; cursor = n }) r
      ≡ returns (record { value = p ++ r ∷ t; cursor = n + 1 })
unfolding insert_rune
insert_rune_at p t r n e = rw (slice_before p t n e, slice_behind p t n (length (p ++ t)) e refl)

reverse_onto : (b t : Text) (c : ℕ) → reverse (c ∷ b) ++ t ≡ reverse b ++ c ∷ t
reverse_onto b t c = rw (reverse-cons c b) (append_assoc (reverse b) (c ∷ []) t)

-- The line of a zipper with `c` left of the cursor.
line_of-cons :
    (b t : Text) (c : ℕ)
    → line_of (record { before = c ∷ b; behind = t })
      ≡ record { value = reverse b ++ c ∷ t; cursor = length (reverse b) + 1 }
line_of-cons b t c = λ i. record { value = reverse_onto b t c i; cursor = cursors i }
  where
    cursors : suc (length b) ≡ length (reverse b) + 1
    cursors = omega (arith, length-reverse b)

line_of-before :
    (b t : Text)
    → record { value = reverse b ++ t; cursor = length (reverse b) }
      ≡ line_of (record { before = b; behind = t })
line_of-before b t = rw (length-reverse b)

pub erase_left-line_of : (z : Zipper) → erase_left (line_of z) ≡ returns (line_of (z_erase_left z))
erase_left-line_of z = go z.before z.behind
  where
    go :
        (b t : Text)
        → erase_left (line_of (record { before = b; behind = t }))
          ≡ returns (line_of (z_erase_left (record { before = b; behind = t })))
    go [] t = unfold erase_left in refl
    go (c ∷ b) t =
        rw line_of-cons (erase_left_at (reverse b) t c _ refl) ∙ ap returns (line_of-before b t)

pub erase_right-line_of :
    (z : Zipper) → erase_right (line_of z) ≡ returns (line_of (z_erase_right z))
erase_right-line_of z = go z.before z.behind
  where
    go :
        (b t : Text)
        → erase_right (line_of (record { before = b; behind = t }))
          ≡ returns (line_of (z_erase_right (record { before = b; behind = t })))
    go b [] = unfold erase_right in ground (arith, length-append (reverse b) [], length-reverse b)
    go b (c ∷ t) = erase_right_at (reverse b) t c (length b) (sym (length-reverse b))

pub insert_rune-line_of :
    (z : Zipper) (r : ℕ) → insert_rune (line_of z) r ≡ returns (line_of (z_insert z r))
insert_rune-line_of z r =
    insert_rune_at (reverse z.before) z.behind r (length z.before) (sym (length-reverse z.before))
    ∙ ground (arith, reverse_onto z.before z.behind r)

pub move_left-line_of : (z : Zipper) → move_left (line_of z) ≡ line_of (z_left z)
move_left-line_of z = go z.before z.behind
  where
    go :
        (b t : Text)
        → move_left (line_of (record { before = b; behind = t }))
          ≡ line_of (z_left (record { before = b; behind = t }))
    go [] t = unfold move_left in refl
    go (c ∷ b) t = unfold move_left in ground (arith, reverse_onto b t c)

pub move_right-line_of : (z : Zipper) → move_right (line_of z) ≡ line_of (z_right z)
move_right-line_of z = go z.before z.behind
  where
    go :
        (b t : Text)
        → move_right (line_of (record { before = b; behind = t }))
          ≡ line_of (z_right (record { before = b; behind = t }))
    go b [] = unfold move_right in ground (arith, length-append (reverse b) [], length-reverse b)
    go b (c ∷ t) =
        unfold move_right in
        ground (arith, reverse_onto b t c, length-append (reverse b) (c ∷ t), length-reverse b)

pub move_home-line_of : (z : Zipper) → move_home (line_of z) ≡ line_of (z_home z)
unfolding move_home
move_home-line_of z = refl

-- The whole text, read from the end.
reverse_whole : (b t : Text) → reverse b ++ t ≡ reverse (reverse t ++ b) ++ []
reverse_whole b t = simp (append-nil, reverse-append, reverse-reverse)

pub move_end-line_of : (z : Zipper) → move_end (line_of z) ≡ line_of (z_end z)
unfolding move_end
move_end-line_of z =
    let lengths : length (reverse z.before ++ z.behind) ≡ length (reverse z.behind ++ z.before) =
      omega (
        arith,
        length-append (reverse z.before) z.behind,
        length-append (reverse z.behind) z.before,
        length-reverse z.before,
        length-reverse z.behind,
      ) in
    λ i. record { value = reverse_whole z.before z.behind i; cursor = lengths i }
