-- ===== src/Groups/Guard.antt =====
-- Groups whose function is `apply_steps` with `blocked_by_shape` for a missing required anchor, as
-- most of the groups are, under the guard of `run_child`.
use abk_5_15_backport.Prelude.{
  true, false, List, [], ◌∷◌, Option, none, some, ◌≡◌, ◌≢◌, refl, ◌∙◌, ap, sym, arith, All,
}
use abk_5_15_backport.Text.{Text}
use abk_5_15_backport.Result.{Result, ok, err, Exec, ◌>>=◌, continue, pure}
use abk_5_15_backport.Disk.{FilePath, backup_path}
use abk_5_15_backport.Context.{Context, read, pending_writes}
use abk_5_15_backport.Context.Laws.{tree, Reads, Reads-trans, tree-Reads}
use abk_5_15_backport.Context.Coherent.{IsSound}
use abk_5_15_backport.Context.Reading.{OnlyReads, OnlyReads-pure, OnlyReads-read, OnlyReads-bind}
use abk_5_15_backport.Steps.{Step, Status, StepResults, blocked_by_shape, apply_steps}
use abk_5_15_backport.Steps.Collect.{edit}
use abk_5_15_backport.Steps.Transaction.{refused-Reads, apply_steps-edit}
use abk_5_15_backport.Steps.Statuses.{apply_steps_honest}
use abk_5_15_backport.Steps.Sound.{apply_steps-IsSound, Sees}
use abk_5_15_backport.Groups.{
  PatchGroup, GroupResult, result_of, caught, run, read_all, changed_paths, judge, check,
  run_checked, is_success, is_edit,
}

pub bind_ok :
    {S A B : Type 0} (m : Exec S A) (f : A → Exec S B) (s : S) (b : B)
    → ((m >>= f) s).0 ≡ ok b
    → (a : A) × ((m s).0 ≡ ok a) × (((m >>= f) s) ≡ f a (m s).1)
bind_ok {S} {A} {B} m f s b h = go (m s).0 refl
  where
    go : (r : Result A) → (m s).0 ≡ r → (a : A) × ((m s).0 ≡ ok a) × (((m >>= f) s) ≡ f a (m s).1)
    go (ok a) e = (a, e, ap (λ (r : Result A). continue r f (m s).1) e)
    go (err x) e = absurd (ground arith)

-- `None` becomes `blocked_by_shape`.
unfoldable pub or_blocked : Option Status × StepResults → Status
or_blocked (none, results) = blocked_by_shape
or_blocked (some st, results) = st

unfoldable pub apply_or_block : List Step → Exec Context Status
unfolding or_blocked
apply_or_block steps = do outcome ← apply_steps steps; pure (or_blocked outcome)

pub record StepSpec : Type 0 where
  pub key : Text
  pub summary : Text
  pub commits : List Text
  pub files : List FilePath
  pub steps : List Step

unfoldable pub step_group : StepSpec → PatchGroup
step_group s = record {
  key = s.key;
  summary = s.summary;
  commits = s.commits;
  files = s.files;
  apply_fn = apply_or_block s.steps;
  hard = false;
}

-- What a run of such a group may do: nothing, or its steps.
pub record Did (steps : List Step) (c : Context) (st : Status) (d : Context) : Type 0 where
  pub sound : IsSound d
  pub idle : is_edit st ≡ false → Reads c d
  pub edited :
      is_success st ≡ true
      → (p : FilePath) → All (λ s. backup_path s.rel ≢ p) steps
      → tree d p ≡ edit p steps (tree c p)

abbrev pub RunDid : StepSpec → Context → Result GroupResult × Context → Type 0
RunDid s c (ok r, d) = Did s.steps c r.status d
RunDid s c (err x, d) = ⊥

-- From a sound context, a step group always returns a result, in a sound context: with a
-- degraded or `already_present` status it has written nothing, with a status of success the text
-- at every path that is no step's backup is the one before, edited by its steps.
pub run-RunDid : (s : StepSpec) (c : Context) → IsSound c → RunDid s c (run (step_group s) c)
unfolding run caught result_of step_group apply_or_block or_blocked
run-RunDid s c h = go (apply_steps s.steps c).0 refl
  where
    kept : IsSound (apply_steps s.steps c).1
    kept = (apply_steps-IsSound s.steps c h).0

    ok_case :
        (o : Option Status × StepResults)
        → (apply_steps s.steps c).0 ≡ ok o
        → Did s.steps c (or_blocked o) (apply_steps s.steps c).1
    ok_case (none, n) e = record {
      sound = kept;
      idle = λ x. refused-Reads s.steps c n e;
      edited = λ x. absurd (ground arith);
    }
    ok_case (some st, n) e = record {
      sound = kept;
      idle = λ x.
          apply_steps_honest s.steps c st n e (λ a. ground (arith, ap is_edit a))
            (λ a. ground (arith, ap is_edit a));
      edited = λ x p a. apply_steps-edit s.steps c p st n a e;
    }

    go :
        (r : Result (Option Status × StepResults))
        → (apply_steps s.steps c).0 ≡ r
        → RunDid s c (run (step_group s) c)
    go (ok o) e = rw (e, run, apply_or_block) (ok_case o e)
    go (err x) e =
        rw (e, run, apply_or_block)
          (record {
            sound = kept;
            idle = λ y. rw (e, Sees) at (apply_steps-IsSound s.steps c h).1;
            edited = λ y. absurd (ground arith);
          })

pub read_all-OnlyReads : (paths : List FilePath) → OnlyReads (read_all paths)
unfolding read_all
read_all-OnlyReads [] = OnlyReads-pure []
read_all-OnlyReads (p ∷ paths) =
    OnlyReads-bind (read p) _ (OnlyReads-read p)
      λ t. OnlyReads-bind (read_all paths) _ (read_all-OnlyReads paths) λ rest. OnlyReads-pure _

pub changed_paths-OnlyReads :
    (before : List (FilePath × Text)) (paths : List FilePath)
    → OnlyReads (changed_paths before paths)
unfolding changed_paths
changed_paths-OnlyReads before [] = OnlyReads-pure []
changed_paths-OnlyReads before (p ∷ paths) = OnlyReads-bind (read p) _ (OnlyReads-read p) λ t.
    OnlyReads-bind (changed_paths before paths) _ (changed_paths-OnlyReads before paths)
      λ rest. OnlyReads-pure _

-- The guard lets a result pass unchanged.
pub judge_ok :
    (r : GroupResult) (changed : List FilePath) (c : Context) (r' : GroupResult)
    → (judge r changed c).0 ≡ ok r'
    → (r ≡ r') × ((judge r changed c).1 ≡ c)
unfolding judge
judge_ok r changed c r' h = ground arith

pub check_ok :
    (before : List (FilePath × Text)) (r : GroupResult) (c : Context) (r' : GroupResult)
    → IsSound c
    → (check before r c).0 ≡ ok r'
    → (r ≡ r') × Reads c (check before r c).1 × IsSound (check before r c).1
unfolding check
check_ok before r c r' h e =
    let paths = pending_writes c in
    let (changed, _, step) = bind_ok (changed_paths before paths) (judge r) c r' e in
    let d = (changed_paths before paths c).1 in
    let rules = changed_paths-OnlyReads before paths in
    let (same, still) =
      judge_ok r changed d r' (ap (λ (x : Result GroupResult × Context). x.0) (sym step) ∙ e) in
    (same, rw (step, still) (rules.reads c), rw (step, still) (rules.sound c h))

Did-before :
    {steps : List Step} {c d e : Context} {st : Status}
    → Reads c d
    → Did steps d st e
    → Did steps c st e
Did-before {steps} r did = record {
  sound = did.sound;
  idle = λ x. Reads-trans r (did.idle x);
  edited = λ x p a.
      did.edited x p a ∙ ap (λ (t : FilePath → Option Text). edit p steps (t p)) (tree-Reads r);
}

Did-after :
    {steps : List Step} {c d e : Context} {st : Status}
    → Did steps c st d
    → Reads d e
    → IsSound e
    → Did steps c st e
Did-after did r h = record {
  sound = h;
  idle = λ x. Reads-trans (did.idle x) r;
  edited = λ x p a. ap (λ (t : FilePath → Option Text). t p) (tree-Reads r) ∙ did.edited x p a;
}

-- A checked step group that returns, from a sound context, leaves a sound one: with a degraded
-- or `already_present` status it has written nothing, with a status of success the text at every
-- path that is no step's backup is the one before, edited by its steps.
pub run_checked-Did :
    (s : StepSpec) (c : Context) (r : GroupResult)
    → IsSound c
    → (run_checked (step_group s) c).0 ≡ ok r
    → Did s.steps c r.status (run_checked (step_group s) c).1
unfolding run_checked
run_checked-Did s c r h e =
    let paths = pending_writes c in
    let rules = read_all-OnlyReads paths in
    let (before, _, step) = bind_ok (read_all paths) _ c r e in
    let d = (read_all paths c).1 in
    let e' = ap (λ (x : Result GroupResult × Context). x.0) (sym step) ∙ e in
    let (result, f, step') = bind_ok (run (step_group s)) (check before) d r e' in
    let e'' = ap (λ (x : Result GroupResult × Context). x.0) (sym step') ∙ e' in
    let did : Did s.steps d result.status (run (step_group s) d).1 =
      rw (f, RunDid) at (run-RunDid s d (rules.sound c h)) in
    let (same, reads, sound) = check_ok before result (run (step_group s) d).1 r did.sound e'' in
    rw (step, step', ← ap (λ (g : GroupResult). g.status) same)
      (Did-before (rules.reads c) (Did-after did reads sound))
