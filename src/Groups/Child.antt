-- ===== src/Groups/Child.antt =====
-- `run_child` of scripts/abk_backport_engine.py over step groups.
use abk_5_15_backport.Prelude.{
  true, false, List, [], ◌∷◌, ◌++◌, Option, if◌then◌else◌, ◌≡◌, ◌≢◌, refl, ◌∙◌, ap, sym, arith,
  Bool-cases, inl, inr, All, map,
}
use abk_5_15_backport.Text.{Text}
use abk_5_15_backport.Result.{Result, ok}
use abk_5_15_backport.Disk.{FilePath, backup_path}
use abk_5_15_backport.Context.{Context}
use abk_5_15_backport.Context.Laws.{tree, tree-Reads}
use abk_5_15_backport.Context.Coherent.{IsSound}
use abk_5_15_backport.Steps
use abk_5_15_backport.Steps.{Step, Status}
use abk_5_15_backport.Steps.Collect.{edit}
use abk_5_15_backport.Groups.{GroupResult, is_success, is_edit, run_group, run_groups}
use abk_5_15_backport.Groups.Guard.{bind_ok, StepSpec, step_group, Did, run_checked-Did}

-- The steps of the groups that report a success.
abbrev pub accepted : List StepSpec → List GroupResult → List Step
accepted [] results = []
accepted (s ∷ specs) [] = []
accepted (s ∷ specs) (r ∷ results) =
    (if is_success r.status then s.steps else []) ++ accepted specs results

edit-append :
    (p : FilePath) (a b : List Step) (t : Option Text) → edit p (a ++ b) t ≡ edit p b (edit p a t)
unfolding edit
edit-append p [] b t = refl
edit-append p (s ∷ a) b t = edit-append p a b _

Did-edit :
    (steps : List Step) (c d : Context) (st : Status) (p : FilePath)
    → Did steps c st d
    → All (λ s. backup_path s.rel ≢ p) steps
    → tree d p ≡ edit p (if is_success st then steps else []) (tree c p)
Did-edit steps c d st p did a = elim (Bool-cases (is_success st)) [
  | inl yes_success ↦ rw yes_success (did.edited yes_success p a)
  | inr failed ↦ rw failed (
      ap (λ (t : FilePath → Option Text). t p) (tree-Reads (did.idle (not_edit st failed)))
      ∙ unfold edit in refl)
]
  where
    not_edit : (st : Status) → is_success st ≡ false → is_edit st ≡ false
    not_edit Steps.applied h = absurd (ground arith)
    not_edit Steps.partial h = absurd (ground arith)
    not_edit _ h = refl

-- An enabled run over a child's step groups that returns, from a sound context, has edited the
-- text at every path that is not the backup of a step's file by the steps of the groups that
-- report success, in the order of the groups, and by nothing else.
pub run_groups-edit :
    (specs : List StepSpec) (c : Context) (results : List GroupResult) (p : FilePath)
    → IsSound c
    → All (λ (s : StepSpec). All (λ (x : Step). backup_path x.rel ≢ p) s.steps) specs
    → (run_groups true (map step_group specs) c).0 ≡ ok results
    → tree (run_groups true (map step_group specs) c).1 p
      ≡ edit p (accepted specs results) (tree c p)
unfolding run_groups
run_groups-edit [] c results p h a e = unfold edit in refl
run_groups-edit (s ∷ specs) c results p h (a, rest_apart) e =
    let one = run_group true (step_group s) in
    let (r, f, step) = bind_ok one _ c results e in
    let d = (one c).1 in
    let e' = ap (λ (x : Result (List GroupResult) × Context). x.0) (sym step) ∙ e in
    let (rest, g, step') = bind_ok (run_groups true (map step_group specs)) _ d results e' in
    let did : Did s.steps c r.status d = unfold run_group in run_checked-Did s c r h f in
    let whole : ◌≡◌ {A = Result (List GroupResult)} (ok (r ∷ rest)) (ok results) =
      ap (λ (x : Result (List GroupResult) × Context). x.0) (sym step') ∙ e' in
    let same : r ∷ rest ≡ results = cc whole in
    rw
      (
        step,
        step',
        ← same,
        edit-append p (if is_success r.status then s.steps else []) (accepted specs rest)
            (tree c p),
        ← Did-edit s.steps c d r.status p did a,
      )
      (run_groups-edit specs d rest p did.sound rest_apart g)
