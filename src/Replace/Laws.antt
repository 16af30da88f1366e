-- ===== src/Replace/Laws.antt =====
-- `replace_once` of scripts/abk_common.py: what one replacement does, and a second pass.
use abk_5_15_backport.Prelude.{
  true, false, [], ◌++◌, if◌then◌else◌, ◌≡◌, refl, arith, ◌⊎◌, inl, inr, Bool-cases, ◌≤◌, length,
  ◌≢◌,
}
use abk_5_15_backport.Text.{Text, contains, replace_first, replace_all}
use abk_5_15_backport.Text.Find.{contains-replace_first, contains_cases, cut_first}
use abk_5_15_backport.Text.Parts.{replace_all_self}
use abk_5_15_backport.Replace.{
  lf, StepStatus, applied, already_present, missing_anchor, to_lf, to_crlf, eol_variants, has_block,
  replace_variant, replace_once,
}

to_lf_self : (t : Text) → replace_all t lf lf ≡ t
to_lf_self t = replace_all_self 10 [] t

-- `replace_once` in the two tests that it makes on the old block.
pub replace_once_eq :
    (text old new : Text)
    → replace_once text old new ≡ (
        if has_block text new
        then (text, already_present)
        else if contains (to_lf old) text
        then (replace_first text (to_lf old) (to_lf new), applied)
        else if contains (to_crlf (to_lf old)) text
        then (replace_first text (to_crlf (to_lf old)) (to_crlf (to_lf new)), applied)
        else (text, missing_anchor))
unfolding replace_once eol_variants replace_variant
replace_once_eq text old new = rw to_lf_self (unfold to_crlf in refl)

-- Where the old block stood in the text, in one of its two forms, stands the new block in the same
-- form; it was the first place of that form.
pub record IsReplaced (text old new result : Text) : Type 0 where
  pub before : Text
  pub behind : Text
  pub old_form : Text
  pub new_form : Text
  pub same_form :
      ((old_form ≡ to_lf old) × (new_form ≡ to_lf new))
      ⊎ ((old_form ≡ to_crlf (to_lf old)) × (new_form ≡ to_crlf (to_lf new)))
  pub was : text ≡ before ++ (old_form ++ behind)
  pub is : result ≡ before ++ (new_form ++ behind)
  pub first : (a b : Text) → a ++ (old_form ++ b) ≡ text → length before ≤ length a

-- The four ways through `replace_once`.
pub data Outcome (text old new : Text) (r : Text × StepStatus) : Type 0 where
  present : has_block text new ≡ true → r ≡ (text, already_present) → Outcome text old new r
  in_lf :
      has_block text new ≡ false
      → contains (to_lf old) text ≡ true
      → r ≡ (replace_first text (to_lf old) (to_lf new), applied)
      → Outcome text old new r
  in_crlf :
      has_block text new ≡ false
      → contains (to_crlf (to_lf old)) text ≡ true
      → r ≡ (replace_first text (to_crlf (to_lf old)) (to_crlf (to_lf new)), applied)
      → Outcome text old new r
  missing :
      has_block text new ≡ false
      → has_block text old ≡ false
      → r ≡ (text, missing_anchor)
      → Outcome text old new r

pub replace_once-Outcome : (text old new : Text) → Outcome text old new (replace_once text old new)
replace_once-Outcome text old new = elim (Bool-cases (has_block text new)) [
  | inl p ↦ present p (rw (replace_once_eq, p))
  | inr p ↦ elim (Bool-cases (contains (to_lf old) text)) [
    | inl q ↦ in_lf p q (rw (replace_once_eq, p, q))
    | inr q ↦ elim (Bool-cases (contains (to_crlf (to_lf old)) text)) [
      | inl r ↦ in_crlf p r (rw (replace_once_eq, p, q, r))
      | inr r ↦ missing p (unfold has_block in rw (q, r)) (rw (replace_once_eq, p, q, r))
    ]
  ]
]

replace_first-IsReplaced :
    (text old new old_form new_form : Text)
    → ((old_form ≡ to_lf old) × (new_form ≡ to_lf new))
      ⊎ ((old_form ≡ to_crlf (to_lf old)) × (new_form ≡ to_crlf (to_lf new)))
    → contains old_form text ≡ true
    → IsReplaced text old new (replace_first text old_form new_form)
unfolding replace_first
replace_first-IsReplaced text old new old_form new_form same h =
    elim (contains_cases old_form text) [
      | inl (a, b, e, w) ↦ record {
        before = a;
        behind = b;
        old_form = old_form;
        new_form = new_form;
        same_form = same;
        was = cc w;
        is = rw (e, replace_first);
        first = λ a' b' x. cut_first old_form text a b a' b' e x;
      }
      | inr (_, e) ↦ absurd (ground arith)
    ]

IsReplaced-Outcome :
    (text old new : Text) (r : Text × StepStatus)
    → Outcome text old new r
    → r.1 ≡ applied
    → IsReplaced text old new r.0
IsReplaced-Outcome text old new r (present p e) h = absurd (ground arith)
IsReplaced-Outcome text old new r (in_lf p q e) h =
    rw e (replace_first-IsReplaced text old new _ _ (inl (refl, refl)) q)
IsReplaced-Outcome text old new r (in_crlf p q e) h =
    rw e (replace_first-IsReplaced text old new _ _ (inr (refl, refl)) q)
IsReplaced-Outcome text old new r (missing p q e) h = absurd (ground arith)

-- An applied replacement puts the new block, in the line ends of the form of the old block that it
-- found, in the place of the first occurrence of that form, and changes nothing before or behind.
pub replace_once-IsReplaced :
    (text old new : Text)
    → (replace_once text old new).1 ≡ applied
    → IsReplaced text old new (replace_once text old new).0
replace_once-IsReplaced text old new h =
    IsReplaced-Outcome text old new _ (replace_once-Outcome text old new) h

abbrev pub second_status : StepStatus → StepStatus
second_status missing_anchor = missing_anchor
second_status _ = already_present

has_block-Outcome :
    (text old new : Text) (r : Text × StepStatus)
    → Outcome text old new r
    → r.1 ≢ missing_anchor
    → has_block r.0 new ≡ true
unfolding has_block
has_block-Outcome text old new r (present p e) h = rw e p
has_block-Outcome text old new r (in_lf p q e) h =
    rw (e, contains-replace_first (to_lf old) (to_lf new) text q) refl
has_block-Outcome text old new r (in_crlf p q e) h =
    ground (arith, contains-replace_first (to_crlf (to_lf old)) (to_crlf (to_lf new)) text q)
has_block-Outcome text old new r (missing p q e) h = absurd (ground arith)

-- Unless the anchor is missing, the result holds the new block in one of its forms.
pub has_block-replace_once :
    (text old new : Text)
    → (replace_once text old new).1 ≢ missing_anchor
    → has_block (replace_once text old new).0 new ≡ true
has_block-replace_once text old new h =
    has_block-Outcome text old new _ (replace_once-Outcome text old new) h

-- A text that holds the new block is left alone.
pub replace_once_present :
    (text old new : Text)
    → has_block text new ≡ true
    → replace_once text old new ≡ (text, already_present)
replace_once_present text old new h = rw (replace_once_eq, h)

pub replace_once_missing :
    (text old new : Text)
    → (replace_once text old new).1 ≡ missing_anchor
    → replace_once text old new ≡ (text, missing_anchor)
replace_once_missing text old new h = missing_of_outcome _ (replace_once-Outcome text old new) h
  where
    missing_of_outcome :
        (r : Text × StepStatus)
        → Outcome text old new r
        → r.1 ≡ missing_anchor
        → r ≡ (text, missing_anchor)
    missing_of_outcome r (present p e) h = absurd (ground arith)
    missing_of_outcome r (in_lf p q e) h = absurd (ground arith)
    missing_of_outcome r (in_crlf p q e) h = absurd (ground arith)
    missing_of_outcome r (missing p q e) h = e

-- A second pass over the result changes nothing: it reports that the block is there already where
-- the first pass applied it or found it, and that the anchor is missing where the first pass did.
pub replace_once_twice :
    (text old new : Text)
    → replace_once (replace_once text old new).0 old new
      ≡ ((replace_once text old new).0, second_status (replace_once text old new).1)
replace_once_twice text old new = twice (replace_once text old new).1 refl
  where
    twice :
        (s : StepStatus)
        → (replace_once text old new).1 ≡ s
        → replace_once (replace_once text old new).0 old new
          ≡ ((replace_once text old new).0, second_status s)
    twice missing_anchor e =
        rw (replace_once_missing text old new e) (replace_once_missing text old new e)
    twice applied e = replace_once_present _ old new (has_block-replace_once text old new (cc))
    twice already_present e =
        replace_once_present _ old new (has_block-replace_once text old new (cc))

pub replace_once-already_present :
    (text old new : Text)
    → (replace_once text old new).1 ≡ already_present
    → replace_once text old new ≡ (text, already_present)
replace_once-already_present text old new h =
    present_of_outcome _ (replace_once-Outcome text old new) h
  where
    present_of_outcome :
        (r : Text × StepStatus)
        → Outcome text old new r
        → r.1 ≡ already_present
        → r ≡ (text, already_present)
    present_of_outcome r (present p e) h = e
    present_of_outcome r (in_lf p q e) h = absurd (ground arith)
    present_of_outcome r (in_crlf p q e) h = absurd (ground arith)
    present_of_outcome r (missing p q e) h = absurd (ground arith)
