-- ===== src/Ui/LineEdit/Content.antt =====
-- What an edit does to the length of the text and to the characters in it.
use mathlib.Core.List.{reverse, reverse-cons}
use underground_node_network.Base.{
  ℕ, ◌≤◌, ◌≡◌, ◌+◌, [], ◌∷◌, Bool, true, ◌&&◌, Outcome, returns, arith, length, length-append, refl,
  subst, sym, ◌∙◌,
}
use underground_node_network.Text.{Text, all, all-append}
use underground_node_network.Ui.LineEdit.{Line, erase_left, erase_right, insert_rune}
use underground_node_network.Ui.LineEdit.Within.{Within, Within-line_of}
use underground_node_network.Ui.LineEdit.Zipper.{
  Zipper, line_of, zipper_of, length-reverse, z_erase_left, z_erase_right, z_insert,
  erase_left-line_of, erase_right-line_of, insert_rune-line_of,
}

-- The edit returns a line that is no longer than `l` and has characters of `l` only.
abbrev pub Shrinks : Line → Outcome Line → Type 0
Shrinks l m =
    (k : Line) × (m ≡ returns k)
    × Within k
    × (length k.value ≤ length l.value)
    × ((p : ℕ → Bool) → all p l.value ≡ true → all p k.value ≡ true)

-- The edit returns a line that has one character more than `l`, which is `r`.
abbrev pub Grows : Line → ℕ → Outcome Line → Type 0
Grows l r m =
    (k : Line) × (m ≡ returns k)
    × Within k
    × (length k.value ≡ length l.value + 1)
    × ((p : ℕ → Bool) → all p l.value ≡ true → p r ≡ true → all p k.value ≡ true)

all-reverse : (p : ℕ → Bool) (s : Text) → all p (reverse s) ≡ all p s
unfolding all
all-reverse p [] = refl
all-reverse p (c ∷ s) =
    rw (reverse-cons c s, all-append p (reverse s) (c ∷ []), all-reverse p s) (ground arith)

all-line_of :
    (p : ℕ → Bool) (z : Zipper) → all p (line_of z).value ≡ (all p z.before && all p z.behind)
all-line_of p z = rw (all-append p (reverse z.before) z.behind, all-reverse p z.before)

length-line_of : (z : Zipper) → length (line_of z).value ≡ length z.before + length z.behind
length-line_of z = omega (arith, length-append (reverse z.before) z.behind, length-reverse z.before)

-- The characters of a zipper.
abbrev chars : (ℕ → Bool) → Zipper → Bool
chars p z = all p z.before && all p z.behind

abbrev size : Zipper → ℕ
size z = length z.before + length z.behind

shrinks :
    (z w : Zipper) (m : Outcome Line)
    → m ≡ returns (line_of w)
    → size w ≤ size z
    → ((p : ℕ → Bool) → chars p z ≡ true → chars p w ≡ true)
    → Shrinks (line_of z) m
shrinks z w m e le keep = (
  line_of w,
  e,
  Within-line_of w,
  omega (arith, length-line_of z, length-line_of w),
  λ p h. all-line_of p w ∙ keep p (sym (all-line_of p z) ∙ h),
)

z_erase_left-size :
    (b t : Text) → size (z_erase_left (record { before = b; behind = t })) ≤ length b + length t
z_erase_left-size [] t = omega arith
z_erase_left-size (c ∷ b) t = omega arith

z_erase_left-chars :
    (p : ℕ → Bool) (b t : Text)
    → chars p (record { before = b; behind = t }) ≡ true
    → chars p (z_erase_left (record { before = b; behind = t })) ≡ true
unfolding all
z_erase_left-chars p [] t h = h
z_erase_left-chars p (c ∷ b) t h = ground arith

z_erase_right-size :
    (b t : Text) → size (z_erase_right (record { before = b; behind = t })) ≤ length b + length t
z_erase_right-size b [] = omega arith
z_erase_right-size b (c ∷ t) = omega arith

z_erase_right-chars :
    (p : ℕ → Bool) (b t : Text)
    → chars p (record { before = b; behind = t }) ≡ true
    → chars p (z_erase_right (record { before = b; behind = t })) ≡ true
unfolding all
z_erase_right-chars p b [] h = h
z_erase_right-chars p b (c ∷ t) h = ground arith

pub erase_left-Shrinks : (l : Line) → Within l → Shrinks l (erase_left l)
erase_left-Shrinks l h =
    let (z, e) = zipper_of l h in
    subst (λ k. Shrinks k (erase_left k)) e
      (shrinks z (z_erase_left z) (erase_left (line_of z)) (erase_left-line_of z)
        (z_erase_left-size z.before z.behind) (λ p. z_erase_left-chars p z.before z.behind))

pub erase_right-Shrinks : (l : Line) → Within l → Shrinks l (erase_right l)
erase_right-Shrinks l h =
    let (z, e) = zipper_of l h in
    subst (λ k. Shrinks k (erase_right k)) e
      (shrinks z (z_erase_right z) (erase_right (line_of z)) (erase_right-line_of z)
        (z_erase_right-size z.before z.behind) (λ p. z_erase_right-chars p z.before z.behind))

z_insert-chars :
    (p : ℕ → Bool) (z : Zipper) (r : ℕ)
    → all p (line_of z).value ≡ true
    → p r ≡ true
    → all p (line_of (z_insert z r)).value ≡ true
z_insert-chars p z r h hr =
    let old = all-line_of p z in rw (all-line_of p (z_insert z r)) (unfold all in ground arith)

pub insert_rune-Grows : (l : Line) (r : ℕ) → Within l → Grows l r (insert_rune l r)
insert_rune-Grows l r h =
    let (z, e) = zipper_of l h in
    subst (λ k. Grows k r (insert_rune k r)) e
      (
        line_of (z_insert z r),
        insert_rune-line_of z r,
        Within-line_of (z_insert z r),
        omega (arith, length-line_of z, length-line_of (z_insert z r)),
        λ p. z_insert-chars p z r,
      )
