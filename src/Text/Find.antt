-- ===== src/Text/Find.antt =====
-- Laws of `strip_prefix`, `cut`, `in` and `replace(…, 1)`.
use abk_5_15_backport.Prelude.{
  ◌≤◌, ◌≡◌, refl, ap, ◌↔◌, ◌⊎◌, inl, inr, true, false, [], ◌∷◌, ◌++◌, none, some, arith, length,
  Option-cases, is_some,
}
use abk_5_15_backport.Text.{Text, text_eq, strip_prefix, cut, contains, replace_first, ends_with}

pub text_eq_iff : (s t : Text) → (text_eq s t ≡ true) ↔ (s ≡ t)
unfolding text_eq
text_eq_iff [] [] = ground arith
text_eq_iff [] (d ∷ t) = ground arith
text_eq_iff (c ∷ s) [] = ground arith
text_eq_iff (c ∷ s) (d ∷ t) = ground (arith, text_eq_iff s t)

pub text_eq_refl : (s : Text) → text_eq s s ≡ true
text_eq_refl s = (text_eq_iff s s).1 refl

pub strip_prefix_sound : (p t r : Text) → strip_prefix p t ≡ some r → p ++ r ≡ t
unfolding strip_prefix
strip_prefix_sound [] t r h = ground arith
strip_prefix_sound (c ∷ p) [] r h = ground arith
strip_prefix_sound (c ∷ p) (d ∷ t) r h = ground (arith, strip_prefix_sound p t r)

pub strip_prefix-append : (p r : Text) → strip_prefix p (p ++ r) ≡ some r
unfolding strip_prefix
strip_prefix-append [] r = refl
strip_prefix-append (c ∷ p) r = ground (arith, strip_prefix-append p r)

pub cut_sound : (p t a b : Text) → cut p t ≡ some (a, b) → a ++ (p ++ b) ≡ t
unfolding cut
cut_sound p [] a b h = ground (arith, strip_prefix_sound p [] b)
cut_sound p (c ∷ t) [] b h = ground (arith, strip_prefix_sound p (c ∷ t) b)
cut_sound p (c ∷ t) (d ∷ a) b h = ground (arith, cut_sound p t a b)

-- Something is found where the text holds an occurrence.
pub cut-append : (p a b : Text) → is_some (cut p (a ++ (p ++ b))) ≡ true
unfolding cut
cut-append p [] b = go (p ++ b) refl
  where
    go : (t : Text) → t ≡ p ++ b → is_some (cut p t) ≡ true
    go [] e = ground (arith, ap (strip_prefix p) e, strip_prefix-append p b)
    go (c ∷ t) e = ground (arith, ap (strip_prefix p) e, strip_prefix-append p b)
cut-append p (c ∷ a) b = ground (arith, cut-append p a b)

-- No occurrence begins before the one that is found.
pub cut_first :
    (p t a b a' b' : Text) → cut p t ≡ some (a, b) → a' ++ (p ++ b') ≡ t → length a ≤ length a'
unfolding cut
cut_first p [] a b a' b' h e = ground arith
cut_first p (c ∷ t) [] b a' b' h e = omega arith
cut_first p (c ∷ t) (d ∷ a) b [] b' h e =
    ground (arith, ap (strip_prefix p) e, strip_prefix-append p b')
cut_first p (c ∷ t) (d ∷ a) b (d' ∷ a') b' h e = ground (arith, cut_first p t a b a' b')

pub contains-append : (p a b : Text) → contains p (a ++ (p ++ b)) ≡ true
unfolding contains
contains-append p a b = cut-append p a b

pub contains_cases :
    (p t : Text)
    → ((a : Text) × (b : Text) × (cut p t ≡ some (a, b)) × (a ++ (p ++ b) ≡ t))
      ⊎ ((cut p t ≡ none) × (contains p t ≡ false))
unfolding contains
contains_cases p t = elim (Option-cases (cut p t)) [
  | inl e ↦ inr (e, ap is_some e)
  | inr (ab, e) ↦ inl (ab.0, ab.1, e, cut_sound p t ab.0 ab.1 e)
]

pub contains_exists :
    (p t : Text) → contains p t ≡ true → (a : Text) × (b : Text) × (a ++ (p ++ b) ≡ t)
contains_exists p t h = elim (contains_cases p t) [
  | inl (a, b, _, e) ↦ (a, b, e)
  | inr (_, e) ↦ ground arith
]

pub contains-replace_first :
    (old new t : Text) → contains old t ≡ true → contains new (replace_first t old new) ≡ true
unfolding replace_first
contains-replace_first old new t h = elim (contains_cases old t) [
  | inl (a, b, e, _) ↦ rw (e, replace_first) (contains-append new a b)
  | inr (_, e) ↦ ground arith
]

pub ends_with-append : (s t : Text) → ends_with s (t ++ s) ≡ true
unfolding ends_with
ends_with-append [] [] = unfold text_eq in refl
ends_with-append (c ∷ s) [] = rw (text_eq_refl (c ∷ s)) refl
ends_with-append s (d ∷ t) = ground (arith, ends_with-append s t)
