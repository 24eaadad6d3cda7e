-- ===== src/Signing/Split.antt =====
-- `str.split`, `str.join` and `str.partition` with a separator of one byte.
use zangpu.Base.{
  ℕ, ◌≡◌, refl, ap, ◌∙◌, Bool, true, not, List, [], ◌∷◌, ◌++◌, ◌==◌, if◌then◌else◌, all_of, arith,
}

abbrev pub push : ℕ → List (List ℕ) → List (List ℕ)
push c [] = (c ∷ []) ∷ []
push c (word ∷ words) = (c ∷ word) ∷ words

-- `text.split(separator)`
unfoldable pub split : ℕ → List ℕ → List (List ℕ)
split separator [] = [] ∷ []
split separator (c ∷ text) =
    let words = split separator text in if c == separator then [] ∷ words else push c words

-- `separator.join(words)`
unfoldable pub join : ℕ → List (List ℕ) → List ℕ
join separator [] = []
join separator (word ∷ []) = word
join separator (word ∷ next ∷ words) = word ++ separator ∷ join separator (next ∷ words)

-- `text.partition(separator)` without its second component: the parts before and after the first
-- separator; the second is empty when there is none.
abbrev before : ℕ → List ℕ × List ℕ → List ℕ × List ℕ
before c (head, tail) = (c ∷ head, tail)

unfoldable pub partition : ℕ → List ℕ → List ℕ × List ℕ
partition separator [] = ([], [])
partition separator (c ∷ text) =
    let parts = partition separator text in if c == separator then ([], text) else before c parts

-- No occurrence of the separator.
abbrev pub lacks : ℕ → List ℕ → Bool
lacks separator text = all_of (λ c. not (c == separator)) text

-- A word without the separator is read whole.
pub split-word : (s : ℕ) (word : List ℕ) → lacks s word ≡ true → split s word ≡ word ∷ []
unfolding split
split-word s [] h = refl
split-word s (c ∷ word) h = ground (arith, split-word s word)

pub split-separator :
    (s : ℕ) (word text : List ℕ)
    → lacks s word ≡ true
    → split s (word ++ s ∷ text) ≡ word ∷ split s text
unfolding split
split-separator s [] text h = ground arith
split-separator s (c ∷ word) text h = ground (arith, split-separator s word text)

-- Splitting reads back what was joined.
pub split-join :
    (s : ℕ) (word : List ℕ) (words : List (List ℕ))
    → all_of (lacks s) (word ∷ words) ≡ true
    → split s (join s (word ∷ words)) ≡ word ∷ words
unfolding join
split-join s word [] h = split-word s word (ground arith)
split-join s word (next ∷ words) h =
    let first = split-separator s word (join s (next ∷ words)) (ground arith) in
    first ∙ ap (λ rest. word ∷ rest) (split-join s next words (ground arith))
