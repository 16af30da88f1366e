-- ===== src/Groups/Refusals.antt =====
-- Where the guard of `run_child` (scripts/abk_backport_engine.py) stops a run of step groups.
use abk_5_15_backport.Prelude.{true, [], some, ◌≡◌, refl, ◌∙◌, ap, arith}
use abk_5_15_backport.Result.{system_exit, Result, ok, err, Exec, ◌>>=◌, continue}
use abk_5_15_backport.Context.{Context, pending_writes}
use abk_5_15_backport.Context.Laws.{Reads}
use abk_5_15_backport.Steps.{Status, partial, StepResults, apply_steps, count, is_applied}
use abk_5_15_backport.Steps.Degraded.{apply_steps_idle}
use abk_5_15_backport.Groups.{
  GroupResult, result_of, caught, run, read_all, changed_paths, judge, check, run_checked, is_edit,
  is_success,
}
use abk_5_15_backport.Groups.Guard.{or_blocked, apply_or_block, StepSpec, step_group}

module _ {S A B : Type 0} where
  bind_known :
      (m : Exec S A) (f : A → Exec S B) (s : S) (a : A) (d : S)
      → m s ≡ (ok a, d)
      → (m >>= f) s ≡ f a d
  bind_known m f s a d e = ap (λ (r : Result A × S). continue r.0 f r.1) e

run_known :
    (s : StepSpec) (c : Context) (st : Status) (noted : StepResults)
    → (apply_steps s.steps c).0 ≡ ok (some st, noted)
    → run (step_group s) c ≡ (ok (result_of (step_group s) st), (apply_steps s.steps c).1)
unfolding run caught step_group apply_or_block or_blocked
run_known s c st noted e = rw (e, run, apply_or_block)

is_edit-is_success : (st : Status) → is_edit st ≡ true → is_success st ≡ true
is_edit-is_success st e = ground arith

-- Where nothing is written, the guard refuses a report of an edit.
check_nothing :
    (g : GroupResult) (d : Context)
    → d.dirty ≡ []
    → is_edit g.status ≡ true
    → check [] g d ≡ (err system_exit, d)
unfolding check pending_writes
check_nothing g d fresh e =
    bind_known (changed_paths [] (pending_writes d)) (judge g) d [] d
      (unfold changed_paths in rw fresh refl)
    ∙ unfold judge in rw (is_edit-is_success g.status e, e) refl

-- In a context that no group has written to, a step group whose pass reports `partial` with no
-- step applied, as every step is there already or missed, raises `SystemExit` and writes
-- nothing: a second run over a tree where an optional anchor is missing stops there.
pub run_checked_rerun :
    (s : StepSpec) (c : Context) (noted : StepResults)
    → c.dirty ≡ []
    → (apply_steps s.steps c).0 ≡ ok (some partial, noted)
    → count is_applied noted ≡ 0
    → ((run_checked (step_group s) c).0 ≡ err system_exit)
      × Reads c (run_checked (step_group s) c).1
unfolding run_checked pending_writes
run_checked_rerun s c noted fresh e none_applied =
    let g = result_of (step_group s) partial in
    let d = (apply_steps s.steps c).1 in
    let reads = apply_steps_idle s.steps c (some partial) noted e none_applied in
    let whole : run_checked (step_group s) c ≡ (err system_exit, d) =
      bind_known (read_all (pending_writes c)) _ c [] c (unfold read_all in rw fresh refl)
      ∙ bind_known (run (step_group s)) (check []) c g d (run_known s c partial noted e)
      ∙ check_nothing g d (reads.dirty ∙ fresh) (unfold result_of in refl) in
    rw whole (refl, reads)
