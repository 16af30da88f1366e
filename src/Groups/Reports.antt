-- ===== src/Groups/Reports.antt =====
-- The report of `run_child` (scripts/abk_backport_engine.py).
use abk_5_15_backport.Prelude.{
  ℕ, ◌+◌, true, false, List, [], ◌∷◌, none, if◌then◌else◌, ◌≡◌, refl, ap, arith, map, Bool-cases,
  inl, inr,
}
use abk_5_15_backport.Text.{Text}
use abk_5_15_backport.Result.{Result, ok, continue, pure}
use abk_5_15_backport.Context.{Context}
use abk_5_15_backport.Steps.{Status, report_only}
use abk_5_15_backport.Groups.{
  PatchGroup, GroupResult, result_of, run_group, run_groups, status_eq, Summary, bump, summarise,
  shapes_if, report_of, run_child,
}

-- How often the summary says that the status was reported.
abbrev pub reported : Status → Summary → ℕ
reported st [] = 0
reported st ((s, n) ∷ m) = (if status_eq s st then n else 0) + reported st m

-- How often it was.
abbrev pub occurrences : Status → List GroupResult → ℕ
occurrences st [] = 0
occurrences st (r ∷ results) = (if status_eq r.status st then 1 else 0) + occurrences st results

status_eq_sound : (a b : Status) → status_eq a b ≡ true → a ≡ b
unfolding status_eq
status_eq_sound a b h = ground arith

reported-bump :
    (st s : Status) (m : Summary)
    → reported st (bump s m) ≡ (if status_eq s st then 1 else 0) + reported st m
unfolding bump
reported-bump st s [] = omega arith
reported-bump st s ((k, n) ∷ m) = elim (Bool-cases (status_eq k s)) [
  | inl e ↦ let same : k ≡ s = status_eq_sound k s e in rw (e, same) (ground arith)
  | inr e ↦ rw (e, reported-bump st s m) (omega arith)
]

reported-summarise :
    (st : Status) (results : List GroupResult) (m : Summary)
    → reported st (summarise results m) ≡ occurrences st results + reported st m
unfolding summarise
reported-summarise st [] m = omega arith
reported-summarise st (r ∷ results) m =
    omega (arith, reported-summarise st results (bump r.status m), reported-bump st r.status m)

-- The summary of the report counts every status as often as a group has reported it.
pub summarise-occurrences :
    (st : Status) (results : List GroupResult)
    → reported st (summarise results []) ≡ occurrences st results
summarise-occurrences st results = omega (arith, reported-summarise st results [])

run_groups_disabled :
    (groups : List PatchGroup) (c : Context)
    → run_groups false groups c ≡ (ok (map (λ g. result_of g report_only) groups), c)
unfolding run_groups run_group
run_groups_disabled [] c = refl
run_groups_disabled (g ∷ groups) c =
    ap
      (λ (r : Result (List GroupResult) × Context).
        continue r.0 (λ rest. pure (result_of g report_only ∷ rest)) r.1)
      (run_groups_disabled groups c)

-- A child that is not enabled, as for a family that is not supported, returns a report in which
-- every group is `report_only`, whatever the groups are, and leaves the context as it was.
pub run_child_disabled :
    (child : Text) (groups : List PatchGroup) (c : Context)
    → run_child child groups false c
      ≡ (ok (report_of child none (map (λ g. result_of g report_only) groups) c), c)
unfolding run_child shapes_if
run_child_disabled child groups c =
    ap
      (λ (r : Result (List GroupResult) × Context).
        continue r.0 (λ results d. (ok (report_of child none results d), d)) r.1)
      (run_groups_disabled groups c)
