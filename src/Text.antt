-- ===== src/Text.antt =====
-- Go strings as lists of code points, and the functions of Go's `strings` package that the program
-- calls, each on a separator of one character as the program calls it. The texts are valid UTF-8, so
-- a conversion to []rune and back is the identity; `byte_len` is Go's `len`.
pub mod Split
pub mod Words
pub mod Decimal
use mathlib.Core.List.{reverse, reverse-append, reverse-reverse}
use Prim.Native.Char.{code}
use Prim.Native.String.{String}
use underground_node_network.Base.{
  ℕ, ◌+◌, ◌≡◌, ◌≢◌, ◌↔◌, refl, Bool, true, false, ◌&&◌, ◌||◌, List, [], ◌∷◌, ◌++◌, Option, none,
  some, arith, ltb, leb, ◌==◌, if◌then◌else◌, All,
}
use underground_node_network.Base.Eq.{Eq}

abbrev pub Text : Type 0
Text = List ℕ

-- The code points of a literal.
abbrev pub runes : String → Text
runes String.[] = []
runes (String.◌∷◌ c s) = code c ∷ runes s

-- `s == t`
unfoldable pub text_eq : Text → Text → Bool
text_eq [] [] = true
text_eq [] (d ∷ t) = false
text_eq (c ∷ s) [] = false
text_eq (c ∷ s) (d ∷ t) = c == d && text_eq s t

pub text_eq_iff : (s t : Text) → (text_eq s t ≡ true) ↔ (s ≡ t)
unfolding text_eq
text_eq_iff [] [] = ground arith
text_eq_iff [] (d ∷ t) = ground arith
text_eq_iff (c ∷ s) [] = ground arith
text_eq_iff (c ∷ s) (d ∷ t) = ground (arith, text_eq_iff s t)

pub text_ne : (s t : Text) → s ≢ t → text_eq s t ≡ false
text_ne s t ne = ground (arith, text_eq_iff s t)

pub text_eq_refl : (s : Text) → text_eq s s ≡ true
text_eq_refl s = (text_eq_iff s s).1 refl

instance abbrev pub text_key : Eq Text
text_key = record { beq = text_eq; beq_iff = text_eq_iff }

-- The bytes of a code point in UTF-8.
unfoldable pub rune_len : ℕ → ℕ
rune_len c = if ltb c 0x80 then 1 else if ltb c 0x800 then 2 else if ltb c 0x10000 then 3 else 4

unfoldable pub byte_len : Text → ℕ
unfolding rune_len
byte_len [] = 0
byte_len (c ∷ s) = rune_len c + byte_len s

-- unicode.IsSpace
unfoldable pub is_space : ℕ → Bool
is_space c =
    (leb 9 c && leb c 13)
    || c == 32
    || c == 0x85
    || c == 0xa0
    || c == 0x1680
    || (leb 0x2000 c && leb c 0x200a)
    || c == 0x2028
    || c == 0x2029
    || c == 0x202f
    || c == 0x205f
    || c == 0x3000

abbrev pub NoSpace : Text → Type 0
NoSpace = All (λ c. is_space c ≡ false)

-- Every character passes the test.
unfoldable pub all : (ℕ → Bool) → Text → Bool
all p [] = true
all p (c ∷ s) = p c && all p s

pub all-append : (p : ℕ → Bool) (s t : Text) → all p (s ++ t) ≡ (all p s && all p t)
unfolding all
all-append p [] t = refl
all-append p (c ∷ s) t = ground (arith, all-append p s t)

abbrev pub Lacks : ℕ → Text → Type 0
Lacks b = All (λ c. c ≢ b)

unfoldable pub trim_left : (ℕ → Bool) → Text → Text
trim_left p [] = []
trim_left p (c ∷ s) = let rest = trim_left p s in if p c then rest else c ∷ s

-- One step from the right: `c` is dropped if nothing is kept behind it.
unfoldable pub keep_unless : (ℕ → Bool) → ℕ → Text → Text
keep_unless p c [] = if p c then [] else c ∷ []
keep_unless p c (d ∷ s) = c ∷ d ∷ s

unfoldable pub trim_right : (ℕ → Bool) → Text → Text
unfolding keep_unless
trim_right p [] = []
trim_right p (c ∷ s) = keep_unless p c (trim_right p s)

-- strings.TrimSpace
unfoldable pub trim_space : Text → Text
unfolding trim_left trim_right is_space
trim_space s = trim_right is_space (trim_left is_space s)

-- strings.HasPrefix s p
unfoldable pub has_prefix : Text → Text → Bool
has_prefix s [] = true
has_prefix [] (d ∷ p) = false
has_prefix (c ∷ s) (d ∷ p) = c == d && has_prefix s p

unfoldable pub drop_prefix : Text → Text → Option Text
drop_prefix s [] = some s
drop_prefix [] (d ∷ p) = none
drop_prefix (c ∷ s) (d ∷ p) = let rest = drop_prefix s p in if c == d then rest else none

-- strings.TrimPrefix s p
unfoldable pub trim_prefix : Text → Text → Text
unfolding drop_prefix
trim_prefix s p = elim (drop_prefix s p) [ some rest ↦ rest | none ↦ s ]

-- strings.TrimSuffix
unfoldable pub trim_suffix : Text → Text → Text
unfolding trim_prefix
trim_suffix s suffix = reverse (trim_prefix (reverse s) (reverse suffix))

pub drop_prefix-append : (p s : Text) → drop_prefix (p ++ s) p ≡ some s
unfolding drop_prefix
drop_prefix-append [] s = refl
drop_prefix-append (c ∷ p) s = ground (arith, drop_prefix-append p s)

pub trim_prefix-append : (p s : Text) → trim_prefix (p ++ s) p ≡ s
unfolding trim_prefix
trim_prefix-append p s = rw (trim_prefix, drop_prefix-append p s) refl

pub trim_suffix-append : (s t : Text) → trim_suffix (s ++ t) t ≡ s
unfolding trim_suffix
trim_suffix-append s t =
    rw (trim_suffix, reverse-append s t, trim_prefix-append (reverse t) (reverse s))
      (reverse-reverse s)

pub has_prefix-append : (p s : Text) → has_prefix (p ++ s) p ≡ true
unfolding has_prefix
has_prefix-append [] s = refl
has_prefix-append (c ∷ p) s = ground (arith, has_prefix-append p s)

-- A text that starts with no space and ends with none is left as it is.
pub trim_right-snoc :
    (p : ℕ → Bool) (s : Text) (c : ℕ) → p c ≡ false → trim_right p (s ++ c ∷ []) ≡ s ++ c ∷ []
unfolding trim_right
trim_right-snoc p [] c h = rw h
trim_right-snoc p (d ∷ []) c h = rw (trim_right-snoc p [] c h)
trim_right-snoc p (d ∷ e ∷ s) c h = rw (trim_right-snoc p (e ∷ s) c h)

pub trim_right-All : (p : ℕ → Bool) (s : Text) → All (λ c. p c ≡ false) s → trim_right p s ≡ s
unfolding trim_right
trim_right-All p [] h = refl
trim_right-All p (c ∷ []) (hc, hs) = rw hc
trim_right-All p (c ∷ d ∷ s) (hc, hs) = rw (trim_right-All p (d ∷ s) hs)

pub trim_left-keep : (p : ℕ → Bool) (c : ℕ) (s : Text) → p c ≡ false → trim_left p (c ∷ s) ≡ c ∷ s
unfolding trim_left
trim_left-keep p c s h = rw h

trim_right-append :
    (p : ℕ → Bool) (s t : Text) → t ≢ [] → trim_right p t ≡ t → trim_right p (s ++ t) ≡ s ++ t
unfolding trim_right keep_unless
trim_right-append p [] t ne h = h
trim_right-append p (c ∷ []) [] ne h = absurd (ne refl)
trim_right-append p (c ∷ []) (d ∷ t) ne h = rw h
trim_right-append p (c ∷ d ∷ s) t ne h = rw (trim_right-append p (d ∷ s) t ne h)

-- Words in front and at the end keep a text from being trimmed.
pub trim_space-words :
    (c : ℕ) (s t : Text)
    → is_space c ≡ false
    → NoSpace t
    → t ≢ []
    → trim_space (c ∷ (s ++ t)) ≡ c ∷ (s ++ t)
unfolding trim_space
trim_space-words c s t hc ht ne =
    rw (trim_left-keep is_space c (s ++ t) hc)
      (trim_right-append is_space (c ∷ s) t ne (trim_right-All is_space t ht))

pub NoSpace-Lacks : (sep : ℕ) (s : Text) → is_space sep ≡ true → NoSpace s → Lacks sep s
NoSpace-Lacks sep [] h hs = tt
NoSpace-Lacks sep (c ∷ s) h (hc, hs) = (λ e. cc, NoSpace-Lacks sep s h hs)
