-- ===== src/Installer/Find.antt =====
-- Searching for a marker without a line feed behind a text that ends in one, and texts without
-- carriage returns.
use abk_5_15_backport.Prelude.{
  ℕ, true, false, [], ◌∷◌, ◌++◌, Option, none, some, ◌==◌, ◌≡◌, ◌≢◌, refl, ◌∙◌, ap, sym, arith, any,
  Bool-cases, inl, inr,
}
use abk_5_15_backport.Text.{
  Text, text_eq, strip_prefix, before_cons, cut, ends_with, split_from, head_cons, split, join,
  replace_all,
}
use abk_5_15_backport.Text.Find.{text_eq_iff, strip_prefix-append}
use abk_5_15_backport.Text.Parts.{join-head_cons, join-nil_cons, split_from-ne_nil}

abbrev pub Lacks : ℕ → Text → Type 0
Lacks c t = any (λ d. d == c) t ≡ false

abbrev pub prepend : Text → Option (Text × Text) → Option (Text × Text)
prepend [] o = o
prepend (c ∷ u) o = before_cons c (prepend u o)

pub prepend-some : (u a b : Text) → prepend u (some (a, b)) ≡ some (u ++ a, b)
prepend-some [] a b = refl
prepend-some (c ∷ u) a b = ap (before_cons c) (prepend-some u a b)

strip_prefix-past :
    (p u x : Text)
    → Lacks 10 p
    → strip_prefix p (u ++ 10 ∷ []) ≡ none
    → strip_prefix p (u ++ 10 ∷ x) ≡ none
unfolding strip_prefix
strip_prefix-past [] u x h e = absurd (ground arith)
strip_prefix-past (c ∷ p) [] x h e = ground arith
strip_prefix-past (c ∷ p) (d ∷ u) x h e = elim (Bool-cases (c == d)) [
  | inl same ↦ rw same (strip_prefix-past p u x (ground arith) (rw same at e))
  | inr other ↦ rw other refl
]

cut-none :
    (p : Text) (c : ℕ) (t : Text)
    → cut p (c ∷ t) ≡ none
    → (strip_prefix p (c ∷ t) ≡ none) × (cut p t ≡ none)
unfolding cut
cut-none p c t e = go (strip_prefix p (c ∷ t)) (cut p t) e
  where
    go :
        (o : Option Text) (l : Option (Text × Text))
        → ◌≡◌ {A = Option (Text × Text)}
            (elim o [ none ↦ before_cons c l | some rest ↦ some ([], rest) ])
            none
        → (o ≡ none) × (l ≡ none)
    go none none e = (refl, refl)
    go none (some (a, b)) e = absurd (ground arith)
    go (some rest) l e = absurd (ground arith)

cut_later :
    (p : Text) (c : ℕ) (t : Text)
    → strip_prefix p (c ∷ t) ≡ none
    → cut p (c ∷ t) ≡ before_cons c (cut p t)
unfolding cut
cut_later p c t e = rw (e, cut) refl

pub cut-past :
    (p u x : Text)
    → Lacks 10 p
    → cut p (u ++ 10 ∷ []) ≡ none
    → cut p (u ++ 10 ∷ x) ≡ prepend (u ++ 10 ∷ []) (cut p x)
cut-past p [] x h e = cut_later p 10 x (strip_prefix-past p [] x h (cut-none p 10 [] e).0)
cut-past p (c ∷ u) x h e =
    let (first, rest) = cut-none p c (u ++ 10 ∷ []) e in
    cut_later p c (u ++ 10 ∷ x) (strip_prefix-past p (c ∷ u) x h first)
    ∙ ap (before_cons c) (cut-past p u x h rest)

-- A line feed more brings no match.
pub cut-line : (p u : Text) → Lacks 10 p → cut p u ≡ none → cut p (u ++ 10 ∷ []) ≡ none
unfolding cut strip_prefix
cut-line [] [] h e = absurd (ground arith)
cut-line (c ∷ p) [] h e = ground arith
cut-line p (d ∷ u) h e =
    let (first, rest) = cut-none p d u e in
    cut_later p d (u ++ 10 ∷ []) (line p (d ∷ u) h first) ∙ ap (before_cons d) (cut-line p u h rest)
  where
    line :
        (p u : Text) → Lacks 10 p → strip_prefix p u ≡ none → strip_prefix p (u ++ 10 ∷ []) ≡ none
    line [] u h e = absurd (ground arith)
    line (c ∷ p) [] h e = ground arith
    line (c ∷ p) (d ∷ u) h e = elim (Bool-cases (c == d)) [
      | inl same ↦ rw same (line p u (ground arith) (rw same at e))
      | inr other ↦ rw other refl
    ]

pub cut_here : (p x : Text) → cut p (p ++ x) ≡ some ([], x)
unfolding cut strip_prefix
cut_here [] [] = refl
cut_here [] (c ∷ x) = refl
cut_here (c ∷ p) x = rw (strip_prefix-append (c ∷ p) x, cut) refl

pub ends_with_exists : (s t : Text) → ends_with s t ≡ true → (a : Text) × (t ≡ a ++ s)
unfolding ends_with
ends_with_exists s [] h = ([], sym ((text_eq_iff s []).0 h))
ends_with_exists s (c ∷ t) h = elim (Bool-cases (text_eq s (c ∷ t))) [
  | inl e ↦ ([], sym ((text_eq_iff s (c ∷ t)).0 e))
  | inr e ↦ let (a, same) = ends_with_exists s t (rw e at h) in (c ∷ a, ap (λ r. c ∷ r) same)
]

split_from-Lacks : (s : ℕ) (sep t : Text) → Lacks s t → split_from 0 (s ∷ sep) t ≡ t ∷ []
unfolding split_from strip_prefix
split_from-Lacks s sep [] h = refl
split_from-Lacks s sep (c ∷ t) h =
    let other : (s == c) ≡ false = ground arith in
    rw (other, split_from) (ap (head_cons c) (split_from-Lacks s sep t (ground arith)))

-- Nothing is replaced where the first character of the old text is not there.
pub replace_all-Lacks : (s : ℕ) (sep new t : Text) → Lacks s t → replace_all t (s ∷ sep) new ≡ t
unfolding replace_all split
replace_all-Lacks s sep new t h = ap (join new) (split_from-Lacks s sep t h) ∙ unfold join in refl

pub Lacks-append : (c : ℕ) (a b : Text) → Lacks c a → Lacks c b → Lacks c (a ++ b)
Lacks-append c [] b h k = k
Lacks-append c (d ∷ a) b h k = ground (arith, Lacks-append c a b)

-- A character that is replaced by another one is gone.
pub Lacks-replace_all : (s n : ℕ) (t : Text) → s ≢ n → Lacks s (replace_all t (s ∷ []) (n ∷ []))
unfolding replace_all split
Lacks-replace_all s n t ne = go t
  where
    go : (t : Text) → Lacks s (join (n ∷ []) (split_from 0 (s ∷ []) t))
    go [] = unfold join in refl
    go (c ∷ t) = elim (Bool-cases (s == c)) [
      | inl same ↦
          rw (same, split_from, join-nil_cons (n ∷ []) _ (split_from-ne_nil 0 (s ∷ []) t))
            (ground (arith, go t))
      | inr other ↦
          rw (other, split_from, join-head_cons (n ∷ []) c _ (split_from-ne_nil 0 (s ∷ []) t))
            (ground (arith, go t))
    ]
