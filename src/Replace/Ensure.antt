-- ===== src/Replace/Ensure.antt =====
-- `ensure_after` of scripts/abk_common.py: what it leaves.
use abk_5_15_backport.Prelude.{
  true, false, ◌++◌, ◌≡◌, refl, arith, Bool-cases, inl, inr, append_assoc,
}
use abk_5_15_backport.Text.{Text, contains, replace_first}
use abk_5_15_backport.Text.Find.{contains_cases, contains-append}
use abk_5_15_backport.Replace.{lf, applied, already_present, missing_anchor, ensure_after}
use abk_5_15_backport.Replace.Laws.{second_status}

contains-inserted :
    (text anchor snippet : Text)
    → contains anchor text ≡ true
    → contains snippet (replace_first text anchor (anchor ++ (lf ++ snippet))) ≡ true
unfolding replace_first
contains-inserted text anchor snippet h = elim (contains_cases anchor text) [
  | inl (a, b, e, w) ↦ rw (e, replace_first) (rw regroup (contains-append snippet _ b))
  | inr (_, e) ↦ absurd (ground arith)
]
  where
    regroup :
        (a b : Text)
        → a ++ ((anchor ++ (lf ++ snippet)) ++ b) ≡ (a ++ (anchor ++ lf)) ++ (snippet ++ b)
    regroup a b = simp append_assoc

module _ (text anchor snippet : Text) where
  ensure_after_present :
      contains snippet text ≡ true → ensure_after text anchor snippet ≡ (text, already_present)
  unfolding ensure_after
  ensure_after_present p = rw (p, ensure_after) refl

  ensure_after_applied :
      contains snippet text ≡ false
      → contains anchor text ≡ true
      → ensure_after text anchor snippet
        ≡ (replace_first text anchor (anchor ++ (lf ++ snippet)), applied)
  unfolding ensure_after
  ensure_after_applied p q = rw (p, q, ensure_after) refl

  ensure_after_missing :
      contains snippet text ≡ false
      → contains anchor text ≡ false
      → ensure_after text anchor snippet ≡ (text, missing_anchor)
  unfolding ensure_after
  ensure_after_missing p q = rw (p, q, ensure_after) refl

-- A second pass over the result changes nothing: it reports that the snippet is there already where
-- the first pass applied it or found it, and that the anchor is missing where the first pass did.
pub ensure_after-twice :
    (text anchor snippet : Text)
    → ensure_after (ensure_after text anchor snippet).0 anchor snippet
      ≡ ((ensure_after text anchor snippet).0, second_status (ensure_after text anchor snippet).1)
ensure_after-twice text anchor snippet = elim (Bool-cases (contains snippet text)) [
  | inl p ↦ let found = ensure_after_present text anchor snippet p in rw found found
  | inr p ↦ elim (Bool-cases (contains anchor text)) [
    | inl q ↦
        rw (ensure_after_applied text anchor snippet p q)
          (ensure_after_present _ anchor snippet (contains-inserted text anchor snippet q))
    | inr q ↦ let missed = ensure_after_missing text anchor snippet p q in rw missed missed
  ]
]
