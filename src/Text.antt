-- ===== src/Text.antt =====
-- Python's `str` as a list of code points, with the methods that the scripts call on it:
-- `in`, `startswith`, `replace`, `split` and `join`.
pub mod Find
pub mod Parts
pub mod Words
pub mod Lines
use Prim.Native.Char.{code}
use abk_5_15_backport.Prelude.{
  ℕ, zero, suc, ◌-◌, String, Bool, true, false, ◌&&◌, ◌||◌, List, [], ◌∷◌, ◌++◌, Option, none, some,
  ◌==◌, if◌then◌else◌, is_some, length,
}

abbrev pub Text : Type 0
Text = List ℕ

-- The code points of a literal.
abbrev pub codes : String → Text
codes String.[] = []
codes (String.◌∷◌ c s) = code c ∷ codes s

-- A text written line by line.
abbrev pub block : List String → Text
block [] = []
block (l ∷ ls) = codes l ++ block ls

unfoldable pub text_eq : Text → Text → Bool
text_eq [] [] = true
text_eq (c ∷ s) (d ∷ t) = c == d && text_eq s t
text_eq _ _ = false

-- What follows the prefix, if the text begins with it.
unfoldable pub strip_prefix : Text → Text → Option Text
strip_prefix [] t = some t
strip_prefix (c ∷ p) [] = none
strip_prefix (c ∷ p) (d ∷ t) = if c == d then strip_prefix p t else none

abbrev pub before_cons : ℕ → Option (Text × Text) → Option (Text × Text)
before_cons c none = none
before_cons c (some (a, b)) = some (c ∷ a, b)

-- What stands before and behind the first occurrence.
unfoldable pub cut : Text → Text → Option (Text × Text)
unfolding strip_prefix
cut p [] = elim (strip_prefix p []) [ none ↦ none | some rest ↦ some ([], rest) ]
cut p (c ∷ t) =
    let later = before_cons c (cut p t) in
    elim (strip_prefix p (c ∷ t)) [ none ↦ later | some rest ↦ some ([], rest) ]

-- `p in t`
unfoldable pub contains : Text → Text → Bool
unfolding cut
contains p t = is_some (cut p t)

-- `t.startswith(p)`
unfoldable pub starts_with : Text → Text → Bool
unfolding strip_prefix
starts_with p t = is_some (strip_prefix p t)

-- `t.endswith(s)`
unfoldable pub ends_with : Text → Text → Bool
unfolding text_eq
ends_with s [] = text_eq s []
ends_with s (c ∷ t) = text_eq s (c ∷ t) || ends_with s t

-- `t.replace(old, new, 1)`
unfoldable pub replace_first : Text → Text → Text → Text
unfolding cut
replace_first t old new = elim (cut old t) [ none ↦ t | some (a, b) ↦ a ++ (new ++ b) ]

abbrev pub head_cons : ℕ → List Text → List Text
head_cons c [] = (c ∷ []) ∷ []
head_cons c (p ∷ ps) = (c ∷ p) ∷ ps

-- `t.split(sep)` for a separator with at least one character. The first number counts the
-- characters of a separator that are still to be passed over.
unfoldable pub split_from : ℕ → Text → Text → List Text
unfolding strip_prefix
split_from k sep [] = [] ∷ []
split_from (suc k) sep (c ∷ t) = split_from k sep t
split_from zero sep (c ∷ t) =
    let here = split_from (length sep - 1) sep t in
    let later = split_from zero sep t in
    elim (strip_prefix sep (c ∷ t)) [ none ↦ head_cons c later | some rest ↦ [] ∷ here ]

unfoldable pub split : Text → Text → List Text
unfolding split_from
split sep t = split_from 0 sep t

-- `sep.join(parts)`
unfoldable pub join : Text → List Text → Text
join sep [] = []
join sep (p ∷ []) = p
join sep (p ∷ q ∷ ps) = p ++ (sep ++ join sep (q ∷ ps))

-- `t.replace(old, new)`, for `old` with at least one character
unfoldable pub replace_all : Text → Text → Text → Text
unfolding split join
replace_all t old new = join new (split old t)
