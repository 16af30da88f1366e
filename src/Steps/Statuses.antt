-- ===== src/Steps/Statuses.antt =====
-- What each status of `apply_steps` says of the results of the steps, and of the files.
use abk_5_15_backport.Prelude.{
  true, false, List, [], ◌∷◌, Option, some, ◌≡◌, ◌≢◌, refl, arith, ◌+◌, ◌<◌, length, any,
}
use abk_5_15_backport.Replace
use abk_5_15_backport.Replace.{StepStatus, missing_anchor}
use abk_5_15_backport.Result.{Result, ok}
use abk_5_15_backport.Context.{Context}
use abk_5_15_backport.Context.Laws.{Reads}
use abk_5_15_backport.Steps
use abk_5_15_backport.Steps.{
  Step, Status, StepResults, summary, apply_steps, count, is_applied, is_present, is_missing,
  partial, report_only, blocked_by_missing_anchor, blocked_by_shape, skip_suite_processed, collect,
}
use abk_5_15_backport.Steps.Transaction.{Run, stopped, gave_up, failed, finished, apply_steps-Run}
use abk_5_15_backport.Steps.Degraded.{Notes, collect_adds, apply_steps_idle}

counts : (n : StepResults) → count is_applied n + count is_present n + count is_missing n ≡ length n
unfolding count
counts [] = omega arith
counts ((p, Replace.applied) ∷ n) = omega (arith, counts n)
counts ((p, Replace.already_present) ∷ n) = omega (arith, counts n)
counts ((p, missing_anchor) ∷ n) = omega (arith, counts n)

any_missing : (n : StepResults) → any is_missing n ≡ false → count is_missing n ≡ 0
unfolding count
any_missing [] h = refl
any_missing ((p, Replace.applied) ∷ n) h = omega (arith, any_missing n h)
any_missing ((p, Replace.already_present) ∷ n) h = omega (arith, any_missing n h)
any_missing ((p, missing_anchor) ∷ n) h = absurd (ground arith)

some_missing : (n : StepResults) → any is_missing n ≡ true → 0 < count is_missing n
unfolding count
some_missing [] h = absurd (ground arith)
some_missing ((p, Replace.applied) ∷ n) h = omega (arith, some_missing n h)
some_missing ((p, Replace.already_present) ∷ n) h = omega (arith, some_missing n h)
some_missing ((p, missing_anchor) ∷ n) h = omega arith

-- What a status says of the number of steps applied, found present and missed.
abbrev pub Means : Status → StepResults → Type 0
Means Steps.applied n = (0 < count is_applied n) × (count is_missing n ≡ 0)
Means partial n = (0 < count is_applied n + count is_present n) × (0 < count is_missing n)
Means Steps.already_present n = count is_present n ≡ length n
Means blocked_by_missing_anchor n = count is_missing n ≡ length n
Means report_only n = ⊥
Means blocked_by_shape n = ⊥
Means skip_suite_processed n = ⊥

summary-Means : (n : StepResults) (st : Status) → summary n ≡ st → Means st n
unfolding summary
summary-Means n Steps.applied h = ground (arith, counts n, any_missing n)
summary-Means n partial h = ground (arith, counts n, some_missing n)
summary-Means n Steps.already_present h = ground (arith, counts n)
summary-Means n blocked_by_missing_anchor h = ground (arith, counts n)
summary-Means n report_only h = ground arith
summary-Means n blocked_by_shape h = ground arith
summary-Means n skip_suite_processed h = ground arith

-- The results have one entry for each step, in the order of the steps. `applied` says that a step
-- was applied and none missed, `partial` that one was missed and one was not, `already_present`
-- that every new block was there, `blocked_by_missing_anchor` that every step was missed; no other
-- status is returned.
pub apply_steps-Means :
    (steps : List Step) (c : Context) (st : Status) (noted : StepResults)
    → (apply_steps steps c).0 ≡ ok (some st, noted)
    → Notes steps noted × Means st noted
apply_steps-Means steps c st noted h = go (apply_steps steps c) (apply_steps-Run steps c) h
  where
    go :
        (r : Result (Option Status × StepResults) × Context)
        → Run steps c r
        → r.0 ≡ ok (some st, noted)
        → Notes steps noted × Means st noted
    go r (stopped x e f) h = absurd (ground arith)
    go r (gave_up n e f) h = absurd (ground arith)
    go r (failed m n x e g f) h = absurd (ground arith)
    go r (finished m n e g f) h =
        let same : n ≡ noted = ground arith in
        let status : summary n ≡ st = ground arith in
        let (more, a, b) = collect_adds steps [] [] c m n e in
        rw (← same) (rw a b, summary-Means n st status)

-- A status that tells of no edit comes with none: with `blocked_by_missing_anchor` and with
-- `already_present`, nothing is written to any file, and no reader sees another text than before.
pub apply_steps_honest :
    (steps : List Step) (c : Context) (st : Status) (noted : StepResults)
    → (apply_steps steps c).0 ≡ ok (some st, noted)
    → st ≢ Steps.applied
    → st ≢ partial
    → Reads c (apply_steps steps c).1
apply_steps_honest steps c st noted h a p =
    apply_steps_idle steps c (some st) noted h
      (none_applied st a p (apply_steps-Means steps c st noted h).1)
  where
    none_applied :
        (st : Status)
        → st ≢ Steps.applied
        → st ≢ partial
        → Means st noted
        → count is_applied noted ≡ 0
    none_applied Steps.applied a p m = absurd (a refl)
    none_applied partial a p m = absurd (p refl)
    none_applied Steps.already_present a p m = omega (arith, counts noted)
    none_applied blocked_by_missing_anchor a p m = omega (arith, counts noted)
    none_applied report_only a p m = absurd m
    none_applied blocked_by_shape a p m = absurd m
    none_applied skip_suite_processed a p m = absurd m
