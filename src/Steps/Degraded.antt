-- ===== src/Steps/Degraded.antt =====
-- `apply_steps` of scripts/abk_backport_engine.py: a pass in which no step is applied.
use abk_5_15_backport.Prelude.{
  Bool, List, [], ◌∷◌, ◌++◌, Option, some, ◌≡◌, refl, ◌∙◌, ap, sym, arith, All-of, ◌+◌,
  append_assoc, append-nil,
}
use mathlib.Core.Path.{subst}
use abk_5_15_backport.Text.{Text}
use abk_5_15_backport.Replace
use abk_5_15_backport.Replace.{StepStatus, missing_anchor, replace_once}
use abk_5_15_backport.Replace.Laws.{replace_once-already_present}
use abk_5_15_backport.Result.{file_not_found, Result, ok, err}
use abk_5_15_backport.Disk.{FilePath}
use abk_5_15_backport.Context.{Context}
use abk_5_15_backport.Context.Laws.{view, text_of, tree, Reads, Reads-trans, tree-Reads}
use abk_5_15_backport.Steps.{
  Step, Status, PendingTexts, StepResults, Round, refused, went_on, collect, one_round, take_text,
  judge, missed, absent, get_or, apply_steps, lookup, count, is_applied,
}
use abk_5_15_backport.Steps.Collect.{collect-Reads, one_round-Reads, one_round_eq}
use abk_5_15_backport.Steps.Pending.{NodupKeys, insert-NodupKeys, collect_keeps}
use abk_5_15_backport.Steps.Transaction.{Run, stopped, gave_up, failed, finished, apply_steps-Run}
use abk_5_15_backport.Steps.SecondPass.{Idle, write_pending-Idle, get_or-Idle, insert-Idle}

pub count-append :
    (test : FilePath × StepStatus → Bool) (a b : StepResults)
    → count test (a ++ b) ≡ count test a + count test b
unfolding count
count-append test [] b = omega arith
count-append test (r ∷ a) b = omega (arith, count-append test a b)

-- What a round adds to the results.
module _ (s : Step) (m : PendingTexts) (n : StepResults) (more : PendingTexts)
    (noted : StepResults) where
  judge_adds :
      (rs : Text × StepStatus)
      → judge s m n rs ≡ went_on more noted
      → noted ≡ n ++ (s.rel, rs.1) ∷ []
  unfolding judge missed
  judge_adds (u, missing_anchor) e = ground arith
  judge_adds (u, Replace.applied) e = ground arith
  judge_adds (u, Replace.already_present) e = ground arith

  take_text_adds :
      (r : Result Text)
      → take_text s m n r ≡ ok (went_on more noted)
      → (st : StepStatus) × (noted ≡ n ++ (s.rel, st) ∷ [])
  unfolding take_text absent
  take_text_adds (ok t) e =
      (_, judge_adds (replace_once (get_or (lookup s.rel m) t) s.old s.new) (cc e))
  take_text_adds (err (file_not_found q)) e = (missing_anchor, ground arith)
  take_text_adds (err _) e = absurd (ground arith)

-- The results are the earlier ones, then one for each step, in the order of the steps.
abbrev pub Notes : List Step → StepResults → Type 0
Notes [] n = n ≡ []
Notes (s ∷ steps) [] = ⊥
Notes (s ∷ steps) ((p, st) ∷ n) = (s.rel ≡ p) × Notes steps n

pub collect_adds :
    (steps : List Step) (m : PendingTexts) (n : StepResults) (c : Context) (done : PendingTexts)
    (noted : StepResults)
    → (collect steps m n c).0 ≡ ok (went_on done noted)
    → (more : StepResults) × (noted ≡ n ++ more) × Notes steps more
unfolding collect
collect_adds [] m n c done noted e = ([], rw append-nil (ground arith), refl)
collect_adds (s ∷ steps) m n c done noted e =
    go (one_round s m n c).0 refl
      (λ m' n'. collect_adds steps m' n' (one_round s m n c).1 done noted) e
  where
    go :
        (r : Result Round)
        → (one_round s m n c).0 ≡ r
        → ((m' : PendingTexts) (n' : StepResults)
            → (collect steps m' n' (one_round s m n c).1).0 ≡ ok (went_on done noted)
            → (more : StepResults) × (noted ≡ n' ++ more) × Notes steps more)
        → (collect (s ∷ steps) m n c).0 ≡ ok (went_on done noted)
        → (more : StepResults) × (noted ≡ n ++ more) × Notes (s ∷ steps) more
    go (err x) q ih e = absurd (ground arith)
    go (ok (refused n')) q ih e = absurd (ground arith)
    go (ok (went_on m' n')) q ih e =
        let (st, a) = take_text_adds s m n m' n' (view c s.rel) (sym (one_round_eq s m n c) ∙ q) in
        let (more, f, g) = ih m' n' (rw (q, collect) at e) in
        (
          (s.rel, st) ∷ more,
          f ∙ ap (λ l. l ++ more) a ∙ append_assoc n ((s.rel, st) ∷ []) more,
          (refl, g),
        )

module _ (s : Step) (m : PendingTexts) (n : StepResults) (c : Context) (more : PendingTexts)
    (noted : StepResults) where
  judge-Idle :
      (t : Text) (u : Text) (st : StepStatus)
      → (st ≡ Replace.already_present → u ≡ t)
      → tree c s.rel ≡ some t
      → Idle (tree c) m
      → judge s m n (u, st) ≡ went_on more noted
      → count is_applied noted ≡ 0
      → Idle (tree c) more
  unfolding judge missed
  judge-Idle t u missing_anchor k e i h z = subst (Idle (tree c)) (ground arith) i
  judge-Idle t u Replace.applied k e i h z =
      absurd
        (unfold count in ground (arith, count-append is_applied n ((s.rel, Replace.applied) ∷ [])))
  judge-Idle t u Replace.already_present k e i h z =
      subst (Idle (tree c)) (ground arith)
        (insert-Idle (tree c) s.rel u m (e ∙ ap some (sym (k refl))) i)

  take_text-Idle :
      (r : Result Text)
      → view c s.rel ≡ r
      → Idle (tree c) m
      → take_text s m n r ≡ ok (went_on more noted)
      → count is_applied noted ≡ 0
      → Idle (tree c) more
  unfolding take_text absent tree
  take_text-Idle (ok t) v i h z =
      let e : tree c s.rel ≡ some t = ap text_of v in
      let same = get_or-Idle (tree c) s.rel m t i e in
      judge-Idle t (replace_once (get_or (lookup s.rel m) t) s.old s.new).0
        (replace_once (get_or (lookup s.rel m) t) s.old s.new).1
        (λ a.
          ap (λ (r : Text × StepStatus). r.0)
            (replace_once-already_present (get_or (lookup s.rel m) t) s.old s.new a)
          ∙ same)
        e i (cc h) z
  take_text-Idle (err (file_not_found q)) v i h z = subst (Idle (tree c)) (ground arith) i
  take_text-Idle (err _) v i h z = absurd (ground arith)

collect-Idle :
    (steps : List Step) (m : PendingTexts) (n : StepResults) (c : Context) (done : PendingTexts)
    (noted : StepResults)
    → Idle (tree c) m
    → (collect steps m n c).0 ≡ ok (went_on done noted)
    → count is_applied noted ≡ 0
    → Idle (tree c) done
unfolding collect
collect-Idle [] m n c done noted i e z = subst (Idle (tree c)) (ground arith) i
collect-Idle (s ∷ steps) m n c done noted i e z =
    go (one_round s m n c).0 refl
      (λ m' n'. collect-Idle steps m' n' (one_round s m n c).1 done noted) e
  where
    same : tree (one_round s m n c).1 ≡ tree c
    same = tree-Reads (one_round-Reads s m n c)

    go :
        (r : Result Round)
        → (one_round s m n c).0 ≡ r
        → ((m' : PendingTexts) (n' : StepResults)
            → Idle (tree (one_round s m n c).1) m'
            → (collect steps m' n' (one_round s m n c).1).0 ≡ ok (went_on done noted)
            → count is_applied noted ≡ 0
            → Idle (tree (one_round s m n c).1) done)
        → (collect (s ∷ steps) m n c).0 ≡ ok (went_on done noted)
        → Idle (tree c) done
    go (err x) q ih e = absurd (ground arith)
    go (ok (refused n')) q ih e = absurd (ground arith)
    go (ok (went_on m' n')) q ih e =
        let rest = rw (q, collect) at e in
        let (more, f, g) = collect_adds steps m' n' (one_round s m n c).1 done noted rest in
        let z' : count is_applied n' ≡ 0 =
          omega (arith, count-append is_applied n' more, ap (count is_applied) f) in
        rw same at (
          ih m' n'
            (rw same (
              take_text-Idle s m n c m' n' (view c s.rel) refl i (sym (one_round_eq s m n c) ∙ q)
                z'))
            rest z)

-- Where no step was applied, whatever the status, nothing is written to any file, and no reader
-- sees another text than before.
pub apply_steps_idle :
    (steps : List Step) (c : Context) (st : Option Status) (noted : StepResults)
    → (apply_steps steps c).0 ≡ ok (st, noted)
    → count is_applied noted ≡ 0
    → Reads c (apply_steps steps c).1
apply_steps_idle steps c st noted h z = go (apply_steps steps c) (apply_steps-Run steps c) h
  where
    go :
        (r : Result (Option Status × StepResults) × Context)
        → Run steps c r
        → r.0 ≡ ok (st, noted)
        → Reads c r.1
    go r (stopped x e f) h = absurd (ground arith)
    go r (gave_up n e f) h = rw f (collect-Reads steps [] [] c)
    go r (failed m n x e g f) h = absurd (ground arith)
    go r (finished m n e g f) h =
        let read = collect-Reads steps [] [] c in
        let keys =
          collect_keeps NodupKeys steps [] [] c m n
            (All-of _ (λ s t k. insert-NodupKeys s.rel t k) steps) tt e in
        let z' : count is_applied n ≡ 0 = ground arith in
        let idle = collect-Idle steps [] [] c m n (λ p t x. absurd (unfold lookup in cc x)) e z' in
        let (_, wrote) =
          write_pending-Idle m (collect steps [] [] c).1 keys (rw (tree-Reads read) idle) in
        rw f (Reads-trans read wrote)
