-- ===== src/Steps/Collect.antt =====
-- The collecting loop of `apply_steps` (scripts/abk_backport_engine.py), and the edit that it collects.
use abk_5_15_backport.Prelude.{
  true, false, List, [], ◌∷◌, Option, none, some, if◌then◌else◌, ◌≡◌, refl, ◌∙◌, ap, sym, arith,
  Bool-cases, inl, inr,
}
use abk_5_15_backport.Text.{Text, text_eq}
use abk_5_15_backport.Text.Find.{text_eq_iff}
use abk_5_15_backport.Replace
use abk_5_15_backport.Replace.{StepStatus, missing_anchor, replace_once}
use abk_5_15_backport.Replace.Laws.{replace_once_missing}
use abk_5_15_backport.Result.{file_not_found, Result, ok, err}
use abk_5_15_backport.Disk.{FilePath}
use abk_5_15_backport.Context.{Context}
use abk_5_15_backport.Context.Laws.{
  view, text_of, tree, Reads, Reads-refl, Reads-trans, read_result, read-Reads, tree-Reads,
}
use abk_5_15_backport.Steps.{
  Step, PendingTexts, StepResults, lookup, insert, get_or, Round, refused, went_on, missed, judge,
  absent, take_text, one_round, collect,
}

pub one_round-Reads :
    (s : Step) (pending : PendingTexts) (results : StepResults) (c : Context)
    → Reads c (one_round s pending results c).1
unfolding one_round
one_round-Reads s pending results c = read-Reads s.rel c

-- Whatever the steps, collecting changes nothing that a reader or the disk can show.
pub collect-Reads :
    (steps : List Step) (pending : PendingTexts) (results : StepResults) (c : Context)
    → Reads c (collect steps pending results c).1
unfolding collect
collect-Reads [] pending results c = Reads-refl c
collect-Reads (s ∷ steps) pending results c =
    go (one_round s pending results c).0 refl (λ m n. collect-Reads steps m n)
  where
    go :
        (r : Result Round)
        → (one_round s pending results c).0 ≡ r
        → ((m : PendingTexts) (n : StepResults) (d : Context) → Reads d (collect steps m n d).1)
        → Reads c (collect (s ∷ steps) pending results c).1
    go (err e) h ih = rw (h, collect) (one_round-Reads s pending results c)
    go (ok (refused noted)) h ih = rw (h, collect) (one_round-Reads s pending results c)
    go (ok (went_on more noted)) h ih =
        rw (h, collect)
          (Reads-trans (one_round-Reads s pending results c)
            (ih more noted (one_round s pending results c).1))

unfoldable pub edit_one : FilePath → Step → Option Text → Option Text
edit_one p s none = none
edit_one p s (some t) = some (if text_eq s.rel p then (replace_once t s.old s.new).0 else t)

-- The edit of the text at `p` by the steps for `p`, one after the other.
unfoldable pub edit : FilePath → List Step → Option Text → Option Text
unfolding edit_one
edit p [] t = t
edit p (s ∷ steps) t = edit p steps (edit_one p s t)

-- The dict over the tree.
abbrev pub overlay : Option Text → Option Text → Option Text
overlay none t = t
overlay (some u) t = some u

pub lookup-insert :
    (p q : FilePath) (t : Text) (m : PendingTexts)
    → lookup q (insert p t m) ≡ (if text_eq p q then some t else lookup q m)
unfolding lookup insert
lookup-insert p q t [] = refl
lookup-insert p q t ((r, u) ∷ m) =
    ground (arith, text_eq_iff r p, text_eq_iff r q, text_eq_iff p q, lookup-insert p q t m)

module _ (s : Step) (pending : PendingTexts) (results : StepResults) (p : FilePath)
    (t : Option Text) where
  -- One judged step edits the collected text of `p`, if it is a step for `p`.
  judge-edit :
      (u : Text) (st : StepStatus) (more : PendingTexts) (noted : StepResults)
      → (replace_once u s.old s.new).1 ≡ st
      → (s.rel ≡ p → overlay (lookup p pending) t ≡ some u)
      → judge s pending results ((replace_once u s.old s.new).0, st) ≡ went_on more noted
      → overlay (lookup p more) t ≡ edit_one p s (overlay (lookup p pending) t)
  unfolding judge missed edit_one
  judge-edit u st more noted e same h = elim (Bool-cases (text_eq s.rel p)) [
    | inl eq ↦ here st e (same ((text_eq_iff s.rel p).0 eq)) eq h
    | inr ne ↦ other st ne h
  ]
    where
      here :
          (st : StepStatus)
          → (replace_once u s.old s.new).1 ≡ st
          → overlay (lookup p pending) t ≡ some u
          → text_eq s.rel p ≡ true
          → judge s pending results ((replace_once u s.old s.new).0, st) ≡ went_on more noted
          → overlay (lookup p more) t ≡ edit_one p s (overlay (lookup p pending) t)
      here missing_anchor e x eq h = ground (arith, replace_once_missing u s.old s.new)
      here Replace.applied e x eq h =
          ground (arith, lookup-insert s.rel p (replace_once u s.old s.new).0 pending)
      here Replace.already_present e x eq h =
          ground (arith, lookup-insert s.rel p (replace_once u s.old s.new).0 pending)

      other :
          (st : StepStatus)
          → text_eq s.rel p ≡ false
          → judge s pending results ((replace_once u s.old s.new).0, st) ≡ went_on more noted
          → overlay (lookup p more) t ≡ edit_one p s (overlay (lookup p pending) t)
      other missing_anchor ne h = ground arith
      other Replace.applied ne h =
          ground (arith, lookup-insert s.rel p (replace_once u s.old s.new).0 pending)
      other Replace.already_present ne h =
          ground (arith, lookup-insert s.rel p (replace_once u s.old s.new).0 pending)

overlay-get_or :
    (l : Option Text) (text : Text) (t : Option Text)
    → t ≡ some text
    → overlay l t ≡ some (get_or l text)
overlay-get_or none text t h = h
overlay-get_or (some u) text t h = refl

-- The dict holds texts of readable files only.
abbrev pub Backed : FilePath → PendingTexts → Option Text → Type 0
Backed p m t = t ≡ none → lookup p m ≡ none

pub one_round_eq :
    (s : Step) (pending : PendingTexts) (results : StepResults) (c : Context)
    → (one_round s pending results c).0 ≡ take_text s pending results (view c s.rel)
unfolding one_round
one_round_eq s pending results c = ap (take_text s pending results) (read_result s.rel c)

module _ (s : Step) (pending : PendingTexts) (results : StepResults) (c : Context)
    (p : FilePath) where
  same_view : (r : Result Text) → view c s.rel ≡ r → s.rel ≡ p → tree c p ≡ text_of r
  unfolding tree
  same_view r e q = rw (← q) (ap text_of e)

  missed-edit :
      (r : Result Text) (more : PendingTexts) (noted : StepResults)
      → text_of r ≡ none
      → view c s.rel ≡ r
      → Backed p pending (tree c p)
      → absent s pending results ≡ went_on more noted
      → overlay (lookup p more) (tree c p) ≡ edit_one p s (overlay (lookup p pending) (tree c p))
  unfolding absent edit_one
  missed-edit r more noted n e back h = elim (Bool-cases (text_eq s.rel p)) [
    | inl eq ↦
        let gone = same_view r e ((text_eq_iff s.rel p).0 eq) ∙ n in
        let free = back gone in ground arith
    | inr ne ↦ ground arith
  ]

  pub take_text-edit :
      (r : Result Text) (more : PendingTexts) (noted : StepResults)
      → view c s.rel ≡ r
      → Backed p pending (tree c p)
      → take_text s pending results r ≡ ok (went_on more noted)
      → overlay (lookup p more) (tree c p) ≡ edit_one p s (overlay (lookup p pending) (tree c p))
  unfolding take_text
  take_text-edit (ok text) more noted e back h =
      judge-edit s pending results p (tree c p) (get_or (lookup s.rel pending) text) _ more noted
        refl
        (λ q. rw q (overlay-get_or (lookup p pending) text (tree c p) (same_view (ok text) e q)))
        (cc h)
  take_text-edit (err (file_not_found q)) more noted e back h =
      missed-edit (err (file_not_found q)) more noted refl e back (cc h)
  take_text-edit (err _) more noted e back h = absurd (ground arith)

  -- The dict goes on holding texts of readable files only.
  judge-Backed :
      (text : Text) (rs : Text × StepStatus) (more : PendingTexts) (noted : StepResults)
      → view c s.rel ≡ ok text
      → Backed p pending (tree c p)
      → judge s pending results rs ≡ went_on more noted
      → Backed p more (tree c p)
  unfolding judge missed
  judge-Backed text (u, missing_anchor) more noted e back h gone =
      let old = back gone in ground arith
  judge-Backed text (u, st) more noted e back h gone =
      let old = back gone in
      elim (Bool-cases (text_eq s.rel p)) [
        | inl eq ↦ absurd (some_gone (same_view (ok text) e ((text_eq_iff s.rel p).0 eq)))
        | inr ne ↦ ground (arith, lookup-insert s.rel p u pending)
      ]
    where
      some_gone : tree c p ≡ some text → ⊥
      some_gone x = ground arith

  pub take_text-Backed :
      (r : Result Text) (more : PendingTexts) (noted : StepResults)
      → view c s.rel ≡ r
      → Backed p pending (tree c p)
      → take_text s pending results r ≡ ok (went_on more noted)
      → Backed p more (tree c p)
  unfolding take_text absent
  take_text-Backed (ok text) more noted e back h gone =
      judge-Backed text (replace_once (get_or (lookup s.rel pending) text) s.old s.new) more noted e
        back (cc h) gone
  take_text-Backed (err (file_not_found q)) more noted e back h gone =
      let old = back gone in ground arith
  take_text-Backed (err _) more noted e back h gone = absurd (ground arith)

-- What is collected, over the tree, is the edit of each text by its steps.
pub collect-edit :
    (steps : List Step) (pending : PendingTexts) (results : StepResults) (c : Context)
    (p : FilePath) (done : PendingTexts) (noted : StepResults)
    → Backed p pending (tree c p)
    → (collect steps pending results c).0 ≡ ok (went_on done noted)
    → overlay (lookup p done) (tree c p) ≡ edit p steps (overlay (lookup p pending) (tree c p))
unfolding collect edit
collect-edit [] pending results c p done noted back h = ground arith
collect-edit (s ∷ steps) pending results c p done noted back h =
    go (one_round s pending results c).0 refl
      (λ m n. collect-edit steps m n (one_round s pending results c).1 p done noted) h
  where
    same : tree (one_round s pending results c).1 ≡ tree c
    same = tree-Reads (one_round-Reads s pending results c)

    go :
        (r : Result Round)
        → (one_round s pending results c).0 ≡ r
        → ((m : PendingTexts) (n : StepResults)
            → Backed p m (tree (one_round s pending results c).1 p)
            → (collect steps m n (one_round s pending results c).1).0 ≡ ok (went_on done noted)
            → overlay (lookup p done) (tree (one_round s pending results c).1 p)
              ≡ edit p steps (overlay (lookup p m) (tree (one_round s pending results c).1 p)))
        → (collect (s ∷ steps) pending results c).0 ≡ ok (went_on done noted)
        → overlay (lookup p done) (tree c p)
          ≡ edit p steps (edit_one p s (overlay (lookup p pending) (tree c p)))
    go (err e) x ih h = absurd (ground arith)
    go (ok (refused n)) x ih h = absurd (ground arith)
    go (ok (went_on m n)) x ih h =
        let e = sym (one_round_eq s pending results c) ∙ x in
        rw (← take_text-edit s pending results c p (view c s.rel) m n refl back e) (
          rw same at (
            ih m n (rw same (take_text-Backed s pending results c p (view c s.rel) m n refl back e))
              (rw (x, collect) at h)))
