-- ===== src/Apicheck/Texts.antt =====
-- cmd/apicheck/main.go: texts as lists of bytes, and what Go's `strings` and `sort` do to them.
use Prim.Native.Char.{code}
use Prim.Native.String.{String}
use disruptor_go.Prelude.{
  ℕ, Bool, true, false, ◌&&◌, ◌==◌, ltb, if◌then◌else◌, List, [], ◌∷◌, ◌++◌, Option, none, some,
}

abbrev pub Text : Type 0
Text = List ℕ

-- The bytes of an ASCII literal.
abbrev pub codes : String → Text
codes String.[] = []
codes (String.◌∷◌ c s) = code c ∷ codes s

-- bytes.Equal
unfoldable pub same_text : Text → Text → Bool
same_text [] [] = true
same_text [] (y ∷ ys) = false
same_text (x ∷ xs) [] = false
same_text (x ∷ xs) (y ∷ ys) = (x == y) && same_text xs ys

-- Whether a text is before another or equal to it, byte by byte.
unfoldable pub text_le : Text → Text → Bool
text_le [] ys = true
text_le (x ∷ xs) [] = false
text_le (x ∷ xs) (y ∷ ys) =
    let rest = text_le xs ys in if ltb x y then true else if x == y then rest else false

-- `sort.Strings`: texts that are equal cannot be told apart, so any method gives this list.
unfoldable pub insert_text : Text → List Text → List Text
unfolding text_le
insert_text t [] = t ∷ []
insert_text t (u ∷ us) = let rest = insert_text t us in if text_le t u then t ∷ u ∷ us else u ∷ rest

unfoldable pub sort_texts : List Text → List Text
unfolding insert_text
sort_texts [] = []
sort_texts (t ∷ ts) = insert_text t (sort_texts ts)

-- strings.Join
unfoldable pub join : Text → List Text → Text
join separator [] = []
join separator (t ∷ []) = t
join separator (t ∷ u ∷ us) = t ++ separator ++ join separator (u ∷ us)

-- What is left of a text after a prefix.
unfoldable pub after_prefix : Text → Text → Option Text
after_prefix [] t = some t
after_prefix (x ∷ xs) [] = none
after_prefix (x ∷ xs) (y ∷ ys) = let rest = after_prefix xs ys in if x == y then rest else none

-- strings.TrimPrefix
unfoldable pub trim_prefix : Text → Text → Text
unfolding after_prefix
trim_prefix t prefix = elim (after_prefix prefix t) [ none ↦ t | some rest ↦ rest ]

unfoldable pub reversed : Text → Text → Text
reversed [] done = done
reversed (x ∷ xs) done = reversed xs (x ∷ done)

-- strings.TrimSuffix
unfoldable pub trim_suffix : Text → Text → Text
unfolding after_prefix reversed
trim_suffix t suffix = elim (after_prefix (reversed suffix []) (reversed t [])) [
  | none ↦ t
  | some rest ↦ reversed rest []
]

-- strings.HasSuffix
unfoldable pub has_suffix : Text → Text → Bool
unfolding after_prefix reversed
has_suffix t suffix = elim (after_prefix (reversed suffix []) (reversed t [])) [
  | none ↦ false
  | some rest ↦ true
]
