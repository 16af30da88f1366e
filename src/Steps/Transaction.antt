-- ===== src/Steps/Transaction.antt =====
-- `apply_steps` of scripts/abk_backport_engine.py as a transaction: its ways through, and its edits.
use abk_5_15_backport.Prelude.{
  List, [], Option, none, some, ◌≡◌, ◌≢◌, refl, ◌∙◌, ap, arith, All, All-of, All-imp,
}
use abk_5_15_backport.Text.{Text}
use abk_5_15_backport.Result.{Error, Result, ok, err}
use abk_5_15_backport.Disk.{FilePath, backup_path}
use abk_5_15_backport.Context.{Context}
use abk_5_15_backport.Context.Laws.{tree, Reads, tree-Reads}
use abk_5_15_backport.Steps.{
  Step, Status, PendingTexts, StepResults, Round, refused, went_on, collect, write_pending, finish,
  summary, apply_steps, lookup,
}
use abk_5_15_backport.Steps.Collect.{edit, collect-edit, collect-Reads}
use abk_5_15_backport.Steps.Pending.{
  NodupKeys, insert-NodupKeys, Apart, insert-Apart, collect_keeps, tree-write_pending,
}

-- The three ways through `apply_steps`, with the context that collecting leaves.
pub data Run (steps : List Step) (c : Context) (r : Result (Option Status × StepResults) × Context)
    : Type 0 where
  stopped :
      (x : Error)
      → (collect steps [] [] c).0 ≡ err x
      → r ≡ (err x, (collect steps [] [] c).1)
      → Run steps c r
  gave_up :
      (noted : StepResults)
      → (collect steps [] [] c).0 ≡ ok (refused noted)
      → r ≡ (ok (none, noted), (collect steps [] [] c).1)
      → Run steps c r
  failed :
      (m : PendingTexts) (noted : StepResults) (x : Error)
      → (collect steps [] [] c).0 ≡ ok (went_on m noted)
      → (write_pending m (collect steps [] [] c).1).0 ≡ err x
      → r ≡ (err x, (write_pending m (collect steps [] [] c).1).1)
      → Run steps c r
  finished :
      (m : PendingTexts) (noted : StepResults)
      → (collect steps [] [] c).0 ≡ ok (went_on m noted)
      → (write_pending m (collect steps [] [] c).1).0 ≡ ok tt
      → r ≡ (ok (some (summary noted), noted), (write_pending m (collect steps [] [] c).1).1)
      → Run steps c r

pub apply_steps-Run : (steps : List Step) (c : Context) → Run steps c (apply_steps steps c)
unfolding apply_steps finish
apply_steps-Run steps c = go (collect steps [] [] c).0 refl
  where
    wrote :
        (m : PendingTexts) (noted : StepResults)
        → (collect steps [] [] c).0 ≡ ok (went_on m noted)
        → (w : Result (Unit {0})) → (write_pending m (collect steps [] [] c).1).0 ≡ w
        → Run steps c (apply_steps steps c)
    wrote m noted e (ok u) f = finished m noted e f (rw (e, apply_steps, finish, f))
    wrote m noted e (err x) f = failed m noted x e f (rw (e, apply_steps, finish, f))

    go : (r : Result Round) → (collect steps [] [] c).0 ≡ r → Run steps c (apply_steps steps c)
    go (err x) e = stopped x e (rw (e, apply_steps))
    go (ok (refused noted)) e = gave_up noted e (rw (e, apply_steps))
    go (ok (went_on m noted)) e = wrote m noted e (write_pending m (collect steps [] [] c).1).0 refl

-- Where it gives no status, nothing is written to any file, and no reader of the context sees
-- another text than before.
pub refused-Reads :
    (steps : List Step) (c : Context) (noted : StepResults)
    → (apply_steps steps c).0 ≡ ok (none, noted)
    → Reads c (apply_steps steps c).1
refused-Reads steps c noted h = go (apply_steps steps c) (apply_steps-Run steps c) h
  where
    go :
        (r : Result (Option Status × StepResults) × Context)
        → Run steps c r
        → r.0 ≡ ok (none, noted)
        → Reads c r.1
    go r (stopped x e f) h = absurd (ground arith)
    go r (gave_up n e f) h = rw f (collect-Reads steps [] [] c)
    go r (failed m n x e g f) h = absurd (ground arith)
    go r (finished m n e g f) h = absurd (ground arith)

-- Where it returns a status, the text of every file afterwards is the one before edited by the
-- steps for that file, one after the other (for a path that is no step's backup).
pub apply_steps-edit :
    (steps : List Step) (c : Context) (p : FilePath) (st : Status) (noted : StepResults)
    → All (λ s. backup_path s.rel ≢ p) steps
    → (apply_steps steps c).0 ≡ ok (some st, noted)
    → tree (apply_steps steps c).1 p ≡ edit p steps (tree c p)
apply_steps-edit steps c p st noted apart h = go (apply_steps steps c) (apply_steps-Run steps c) h
  where
    same : tree (collect steps [] [] c).1 p ≡ tree c p
    same = ap (λ (t : FilePath → Option Text). t p) (tree-Reads (collect-Reads steps [] [] c))

    go :
        (r : Result (Option Status × StepResults) × Context)
        → Run steps c r
        → r.0 ≡ ok (some st, noted)
        → tree r.1 p ≡ edit p steps (tree c p)
    go r (stopped x e f) h = absurd (ground arith)
    go r (gave_up n e f) h = absurd (ground arith)
    go r (failed m n x e g f) h = absurd (ground arith)
    go r (finished m n e g f) h = rw f (
        tree-write_pending m (collect steps [] [] c).1 p
          (collect_keeps NodupKeys steps [] [] c m n
            (All-of _ (λ s t k. insert-NodupKeys s.rel t k) steps) tt e)
          (collect_keeps (Apart p) steps [] [] c m n
            (All-imp _ _ (λ s a t k. insert-Apart p s.rel t k a) steps apart) tt e)
          g
        ∙ rw same (
            collect-edit steps [] [] c p m n (λ _. unfold lookup in refl) e
            ∙ unfold lookup in refl))
