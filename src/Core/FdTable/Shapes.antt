-- ===== src/Core/FdTable/Shapes.antt =====
-- What the file descriptor table group does to a tree, by the shape of fs/file.c.
use abk_5_15_backport.Prelude.{
  Bool, true, false, List, [], Option, none, some, if◌then◌else◌, ◌≡◌, ◌≢◌, refl, ◌∙◌, ap, arith,
  Bool-cases, inl, inr, All,
}
use abk_5_15_backport.Text.{Text}
use abk_5_15_backport.Result.{Result, ok, err, Exec, ◌>>=◌, continue, pure}
use abk_5_15_backport.Disk.{FilePath, backup_path}
use abk_5_15_backport.Context.{Context, fs_file, read, fdtable_upstream_shape, suite_touched}
use abk_5_15_backport.Context.Laws.{tree, Reads, Reads-refl, Reads-trans, tree-Reads, read_result}
use abk_5_15_backport.Context.Coherent.{IsSound}
use abk_5_15_backport.Context.Reading.{OnlyReads, OnlyReads-pure, OnlyReads-read, OnlyReads-bind}
use abk_5_15_backport.Steps
use abk_5_15_backport.Steps.{Step, Status, StepResults, apply_steps}
use abk_5_15_backport.Steps.Collect.{edit}
use abk_5_15_backport.Steps.Transaction.{refused-Reads, apply_steps-edit}
use abk_5_15_backport.Steps.Statuses.{apply_steps_honest}
use abk_5_15_backport.Steps.Sound.{apply_steps-IsSound, Sees}
use abk_5_15_backport.Groups.{is_edit}
use abk_5_15_backport.Groups.Acting.{edits}
use abk_5_15_backport.Core.FdTable.{
  suite_fallback_shape, has_aosp_dup_fd, suite_composed_steps, pristine_steps, composed_status,
  pristine_status, fdtable_pristine, fdtable_probed, fdtable_apply,
}

-- The steps for a shape.
abbrev pub plan : Option Text → List Step
plan none = []
plan (some t) =
    if suite_fallback_shape t
    then suite_composed_steps (has_aosp_dup_fd t)
    else pristine_steps (has_aosp_dup_fd t)

-- Unless it reports an edit, the group has written nothing, raised or not; with an edit, every file
-- is as before, edited by the steps.
pub record Acted (steps : List Step) (c : Context) (r : Result Status × Context) : Type 0 where
  pub sound : IsSound r.1
  pub idle : edits r.0 ≡ false → Reads c r.1
  pub edited :
      edits r.0 ≡ true
      → (p : FilePath) → backup_path fs_file ≢ p
      → tree r.1 p ≡ edit p steps (tree c p)

Acted-idle :
    (steps : List Step) (c d : Context) (r : Result Status)
    → edits r ≡ false
    → Reads c d
    → IsSound d
    → Acted steps c (r, d)
Acted-idle steps c d r no_edit reads h = record {
  sound = h;
  idle = λ _. reads;
  edited = λ e. absurd (ground arith);
}

Acted-before :
    {steps : List Step} {c d : Context} {r : Result Status × Context}
    → Reads c d
    → Acted steps d r
    → Acted steps c r
Acted-before {steps} reads did = record {
  sound = did.sound;
  idle = λ x. Reads-trans reads (did.idle x);
  edited = λ x p a.
      did.edited x p a ∙ ap (λ (t : FilePath → Option Text). edit p steps (t p)) (tree-Reads reads);
}

-- Reading first.
Acted-bind :
    {A : Type 0} (steps : List Step) (m : Exec Context A) (f : A → Exec Context Status)
    (c : Context)
    → OnlyReads m
    → IsSound c
    → ((a : A) (d : Context) → (m c).0 ≡ ok a → Reads c d → IsSound d → Acted steps c (f a d))
    → Acted steps c ((m >>= f) c)
Acted-bind {A} steps m f c rules h k = go (m c).0 refl
  where
    go : (r : Result A) → (m c).0 ≡ r → Acted steps c (continue r f (m c).1)
    go (ok a) e = k a (m c).1 e (rules.reads c) (rules.sound c h)
    go (err x) e = Acted-idle steps c (m c).1 (err x) refl (rules.reads c) (rules.sound c h)

-- `apply_steps`, and a last word that writes nothing.
Acted-apply_steps :
    (steps : List Step) (last : Option Status × StepResults → Exec Context Status) (c : Context)
    → IsSound c
    → ((p : FilePath) → backup_path fs_file ≢ p → All (λ s. backup_path s.rel ≢ p) steps)
    → ((n : StepResults)
        → (r : Result Status) × (edits r ≡ false) × ((d : Context) → last (none, n) d ≡ (r, d)))
    → ((st : Status) (n : StepResults) (d : Context) → last (some st, n) d ≡ (ok st, d))
    → Acted steps c ((apply_steps steps >>= last) c)
Acted-apply_steps steps last c h apart refused returned = go (apply_steps steps c).0 refl
  where
    d : Context
    d = (apply_steps steps c).1

    kept : IsSound d
    kept = (apply_steps-IsSound steps c h).0

    some_case :
        (st : Status) (n : StepResults)
        → (apply_steps steps c).0 ≡ ok (some st, n)
        → Acted steps c (ok st, d)
    some_case st n e = record {
      sound = kept;
      idle = λ x.
          apply_steps_honest steps c st n e (λ a. ground (arith, ap is_edit a))
            (λ a. ground (arith, ap is_edit a));
      edited = λ x p a. apply_steps-edit steps c p st n (apart p a) e;
    }

    go :
        (r : Result (Option Status × StepResults))
        → (apply_steps steps c).0 ≡ r
        → Acted steps c (continue r last d)
    go (ok (none, n)) e =
        let (r, no_edit, same) = refused n in
        rw (same d) (Acted-idle steps c d r no_edit (refused-Reads steps c n e) kept)
    go (ok (some st, n)) e = rw (returned st n d) (some_case st n e)
    go (err x) e =
        Acted-idle steps c d (err x) refl (rw (e, Sees) at (apply_steps-IsSound steps c h).1) kept

-- All steps are for fs/file.c.
composed_apart :
    (b : Bool) (p : FilePath)
    → backup_path fs_file ≢ p
    → All (λ s. backup_path s.rel ≢ p) (suite_composed_steps b)
unfolding suite_composed_steps
composed_apart true p a = (a, (a, (a, (a, (a, (a, (a, (a, tt))))))))
composed_apart false p a = (a, (a, (a, (a, (a, (a, (a, (a, (a, tt)))))))))

pristine_apart :
    (b : Bool) (p : FilePath)
    → backup_path fs_file ≢ p
    → All (λ s. backup_path s.rel ≢ p) (pristine_steps b)
unfolding pristine_steps
pristine_apart true p a = (a, (a, (a, (a, (a, (a, (a, (a, tt))))))))
pristine_apart false p a = (a, (a, (a, (a, (a, (a, (a, (a, (a, tt)))))))))

pub upstream-OnlyReads : OnlyReads fdtable_upstream_shape
unfolding fdtable_upstream_shape
upstream-OnlyReads = OnlyReads-bind (read fs_file) _ (OnlyReads-read fs_file) λ t. OnlyReads-pure _

touched-OnlyReads : OnlyReads (suite_touched fs_file)
unfolding suite_touched
touched-OnlyReads = OnlyReads-bind (read fs_file) _ (OnlyReads-read fs_file) λ t. OnlyReads-pure _

pristine-Acted :
    (t : Text) (c : Context)
    → IsSound c
    → Acted (pristine_steps (has_aosp_dup_fd t)) c (fdtable_pristine t c)
unfolding fdtable_pristine pristine_status
pristine-Acted t c h =
    Acted-bind steps (suite_touched fs_file) _ c touched-OnlyReads h
      λ touched d e reads sound. Acted-before reads (branch touched d sound)
  where
    steps : List Step
    steps = pristine_steps (has_aosp_dup_fd t)

    branch :
        (touched : Bool) (d : Context)
        → IsSound d
        → Acted steps d (
            (if touched
                then pure Steps.skip_suite_processed
                else (do outcome ← apply_steps steps; pristine_status outcome))
              d)
    branch true d sound = Acted-idle steps d d _ refl (Reads-refl d) sound
    branch false d sound =
        Acted-apply_steps steps pristine_status d sound (pristine_apart (has_aosp_dup_fd t))
          (λ n. (_, refl, λ d. refl)) (λ st n d. refl)

probed-Acted : (t : Text) (c : Context) → IsSound c → Acted (plan (some t)) c (fdtable_probed t c)
unfolding fdtable_probed composed_status
probed-Acted t c h = elim (Bool-cases (suite_fallback_shape t)) [
  | inl composed ↦
      rw (composed, fdtable_probed)
        (Acted-apply_steps (suite_composed_steps (has_aosp_dup_fd t)) composed_status c h
          (composed_apart (has_aosp_dup_fd t)) (λ n. (_, refl, λ d. refl)) (λ st n d. refl))
  | inr other ↦ rw (other, fdtable_probed) (pristine-Acted t c h)
]

-- The group over fs/file.c leaves a sound context sound. Where it reports no edit, or raises, it
-- has written nothing. Where it reports one, every file but the backup of fs/file.c is as
-- before, edited by the steps for the shape that fs/file.c had: those over the suite's fallback,
-- or those for the pristine file, each for its form of dup_fd.
pub fdtable_apply-Acted :
    (c : Context) → IsSound c → Acted (plan (tree c fs_file)) c (fdtable_apply c)
unfolding fdtable_apply tree
fdtable_apply-Acted c h =
    Acted-bind steps fdtable_upstream_shape _ c upstream-OnlyReads h
      λ upstream d e reads sound. Acted-before reads (branch upstream d reads sound)
  where
    steps : List Step
    steps = plan (tree c fs_file)

    found :
        (t : Text) (d e : Context)
        → (read fs_file d).0 ≡ ok t
        → Reads c d
        → IsSound e
        → Acted steps e (fdtable_probed t e)
    found t d e same reads sound =
        rw (← reads.views fs_file, ← read_result fs_file d, same) (probed-Acted t e sound)

    branch :
        (upstream : Bool) (d : Context)
        → Reads c d
        → IsSound d
        → Acted steps d (
            (if upstream
                then pure Steps.already_present
                else (do text ← read fs_file; fdtable_probed text))
              d)
    branch true d reads sound = Acted-idle steps d d _ refl (Reads-refl d) sound
    branch false d reads sound =
        Acted-bind steps (read fs_file) fdtable_probed d (OnlyReads-read fs_file) sound
          λ t e same reads' sound'. Acted-before reads' (found t d e same reads sound')
