-- ===== src/Text/Words.antt =====
-- strings.Fields: the runs of characters between white space.
use underground_node_network.Base.{
  ℕ, ◌≡◌, ◌≢◌, refl, true, false, List, [], ◌∷◌, ◌++◌, append_assoc, append-nil, sym, ap, ◌∙◌,
}
use underground_node_network.Text.{Text, is_space, NoSpace}

-- The word read so far, if there is one.
unfoldable pub flush : Text → List Text
flush [] = []
flush (c ∷ s) = (c ∷ s) ∷ []

unfoldable pub words_from : Text → Text → List Text
unfolding flush is_space
words_from cur [] = flush cur
words_from cur (c ∷ s) = elim (is_space c) [
  | true ↦ flush cur ++ words_from [] s
  | false ↦ words_from (cur ++ c ∷ []) s
]

unfoldable pub fields : Text → List Text
unfolding words_from
fields s = words_from [] s

words_from-append :
    (cur p rest : Text) → NoSpace p → words_from cur (p ++ rest) ≡ words_from (cur ++ p) rest
unfolding words_from
words_from-append cur [] rest h = rw append-nil
words_from-append cur (c ∷ p) rest (hc, hp) =
    rw (hc, words_from) (rw (words_from-append (cur ++ c ∷ []) p rest hp, append_assoc))

words_from_space :
    (cur : Text) (d : ℕ) (s : Text)
    → is_space d ≡ true
    → words_from cur (d ∷ s) ≡ flush cur ++ words_from [] s
unfolding words_from
words_from_space cur d s e = rw (e, words_from)

-- A word with white space behind it is the first field.
pub fields-append :
    (p : Text) (sp : ℕ) (rest : Text)
    → p ≢ []
    → NoSpace p
    → is_space sp ≡ true
    → fields (p ++ sp ∷ rest) ≡ p ∷ fields rest
unfolding fields flush
fields-append [] sp rest h _ _ = absurd (h refl)
fields-append (c ∷ p) sp rest _ hp hs =
    words_from-append [] (c ∷ p) (sp ∷ rest) hp ∙ words_from_space (c ∷ p) sp rest hs

pub fields-word : (p : Text) → p ≢ [] → NoSpace p → fields p ≡ p ∷ []
unfolding fields flush
fields-word [] h _ = absurd (h refl)
fields-word (c ∷ p) _ hp =
    ap (words_from []) (sym (append-nil (c ∷ p))) ∙ words_from-append [] (c ∷ p) [] hp

pub fields-nil : fields [] ≡ []
unfolding fields
fields-nil = refl
