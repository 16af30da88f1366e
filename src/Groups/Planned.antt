-- ===== src/Groups/Planned.antt =====
-- A child of `run_child` (scripts/abk_backport_engine.py) whose groups each come with the change
-- that they make.
use abk_5_15_backport.Prelude.{
  true, List, [], ◌∷◌, if◌then◌else◌, ◌≡◌, refl, ◌∙◌, ap, sym, map, Bool-cases, inl, inr,
}
use abk_5_15_backport.Result.{Result, ok, err}
use abk_5_15_backport.Context.{Context, pending_writes}
use abk_5_15_backport.Context.Laws.{Tree, Reads}
use abk_5_15_backport.Context.Coherent.{IsSound}
use abk_5_15_backport.Context.Sources.{sources, sources-Reads}
use abk_5_15_backport.Steps.{Status}
use abk_5_15_backport.Groups.{
  PatchGroup, GroupResult, result_of, caught, run, read_all, check, run_checked, is_edit, run_group,
  run_groups,
}
use abk_5_15_backport.Groups.Acting.{edit_all, Acts, Acts-idle, Acts-before, Acts-after}
use abk_5_15_backport.Groups.Guard.{bind_ok, read_all-OnlyReads, check_ok, StepSpec, step_group}
use abk_5_15_backport.Groups.Probes.Acts.{ActsAs, ActsAs-apply_or_block}

-- A group, and the change that it makes where it reports an edit.
pub record Planned : Type 0 where
  pub group : PatchGroup
  pub change : Tree → Tree
  pub acts : (c : Context) → IsSound c → Acts change c (group.apply_fn c)

-- The changes of the groups that report an edit, one after the other.
unfoldable pub changes : List Planned → List GroupResult → Tree → Tree
changes [] results t = t
changes (g ∷ groups) [] t = t
changes (g ∷ groups) (r ∷ results) t =
    changes groups results (if is_edit r.status then g.change t else t)

abbrev pub groups_of : List Planned → List PatchGroup
groups_of = map (λ (g : Planned). g.group)

abbrev RunActs : Planned → Context → Result GroupResult × Context → Type 0
RunActs g c (ok r, d) = Acts g.change c (ok r.status, d)
RunActs g c (err x, d) = Reads c d

-- A hard group raises what it raises, and any other reports it, with nothing written.
pub run-RunActs : (g : Planned) (c : Context) → IsSound c → RunActs g c (run g.group c)
unfolding run
run-RunActs g c h = go (g.group.apply_fn c) (g.acts c h)
  where
    go : (r : Result Status × Context) → Acts g.change c r → RunActs g c (caught g.group r)
    go (ok st, d) a = unfold caught result_of in a
    go (err x, d) a = elim (Bool-cases g.group.hard) [
      | inl hard ↦ unfold caught in rw hard (a.idle refl)
      | inr soft ↦
          unfold caught result_of in rw soft (Acts-idle g.change c d _ refl (a.idle refl) a.sound)
    ]

run_checked-Acts :
    (g : Planned) (c : Context) (r : GroupResult)
    → IsSound c
    → (run_checked g.group c).0 ≡ ok r
    → Acts g.change c (ok r.status, (run_checked g.group c).1)
unfolding run_checked
run_checked-Acts g c r h e =
    let paths = pending_writes c in
    let rules = read_all-OnlyReads paths in
    let (before, _, step) = bind_ok (read_all paths) _ c r e in
    let d = (read_all paths c).1 in
    let e' = ap (λ (x : Result GroupResult × Context). x.0) (sym step) ∙ e in
    let (result, f, step') = bind_ok (run g.group) (check before) d r e' in
    let e'' = ap (λ (x : Result GroupResult × Context). x.0) (sym step') ∙ e' in
    let did : Acts g.change d (ok result.status, (run g.group d).1) =
      rw (f, RunActs) at (run-RunActs g d (rules.sound c h)) in
    let (same, reads, sound) = check_ok before result (run g.group d).1 r did.sound e'' in
    rw (step, step', ← ap (λ (x : GroupResult). x.status) same)
      (Acts-before g.change (rules.reads c) (Acts-after g.change did reads sound))

Acts-sources :
    {change : Tree → Tree} {c d : Context} (st : Status)
    → Acts change c (ok st, d)
    → sources d ≡ (if is_edit st then change (sources c) else sources c)
Acts-sources {change} {c} {d} st a = elim (Bool-cases (is_edit st)) [
  | inl e ↦ rw e (a.edited e)
  | inr e ↦ rw e (sources-Reads (a.idle e))
]

-- An enabled run over the groups that returns, from a sound context, leaves the sources of the tree
-- as the changes of the groups that report an edit make them, in the order of the groups, and the
-- context sound: nothing else is changed.
pub run_groups-changes :
    (groups : List Planned) (c : Context) (results : List GroupResult)
    → IsSound c
    → (run_groups true (groups_of groups) c).0 ≡ ok results
    → (sources (run_groups true (groups_of groups) c).1 ≡ changes groups results (sources c))
      × IsSound (run_groups true (groups_of groups) c).1
unfolding run_groups
run_groups-changes [] c results h e = (unfold changes in refl, h)
run_groups-changes (g ∷ groups) c results h e =
    let one = run_group true g.group in
    let (r, f, step) = bind_ok one _ c results e in
    let d = (one c).1 in
    let e' = ap (λ (x : Result (List GroupResult) × Context). x.0) (sym step) ∙ e in
    let (rest, k, step') = bind_ok (run_groups true (groups_of groups)) _ d results e' in
    let did : Acts g.change c (ok r.status, d) = unfold run_group in run_checked-Acts g c r h f in
    let whole : ◌≡◌ {A = Result (List GroupResult)} (ok (r ∷ rest)) (ok results) =
      ap (λ (x : Result (List GroupResult) × Context). x.0) (sym step') ∙ e' in
    let same : r ∷ rest ≡ results = cc whole in
    let (later, sound) = run_groups-changes groups d rest did.sound k in
    rw (step, step', ← same)
      (later ∙ unfold changes in ap (changes groups rest) (Acts-sources r.status did), sound)

-- A group that is a plain list of steps.
abbrev pub planned_steps : StepSpec → Planned
unfolding step_group
planned_steps s = record {
  group = step_group s;
  change = edit_all s.steps;
  acts = (ActsAs-apply_or_block s.steps).acts;
}

-- A group with its own function.
abbrev pub planned_as : (g : PatchGroup) (change : Tree → Tree) → ActsAs change g.apply_fn → Planned
planned_as g change law = record { group = g; change = change; acts = law.acts }
