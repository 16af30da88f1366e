-- ===== src/Groups/Watched.antt =====
-- The guard of `run_child` (scripts/abk_backport_engine.py), over a group with any function: what a
-- group that gets past it may have changed.
use abk_5_15_backport.Prelude.{
  true, false, List, [], ◌∷◌, none, some, ◌≡◌, refl, ◌∙◌, ap, sym, arith, All, All-imp, Option,
}
use mathlib.Core.Path.{subst}
use mathlib.Core.List.{Memᴰ}
use abk_5_15_backport.Text.{Text}
use abk_5_15_backport.Text.Find.{text_eq_iff}
use abk_5_15_backport.Result.{Result, ok}
use abk_5_15_backport.Disk.{FilePath}
use abk_5_15_backport.Context.{Context, pending_writes}
use abk_5_15_backport.Context.Laws.{tree, Reads, tree-Reads}
use abk_5_15_backport.Steps.{Status, applied, partial, already_present}
use abk_5_15_backport.Groups.{
  PatchGroup, GroupResult, run, read_all, lookup, differs, changed_paths, judge, check, run_checked,
  is_nil,
}
use abk_5_15_backport.Groups.Compared.{Holds, read_all-Holds, Compared, changed_paths-Compared}
use abk_5_15_backport.Groups.Guard.{bind_ok, changed_paths-OnlyReads, judge_ok}

-- The path was written before, and shows the same text since.
abbrev pub IsKept : Context → Context → FilePath → Type 0
IsKept c d p = Memᴰ p (pending_writes c) × (tree d p ≡ tree c p)

-- No path is written for the first time, and none that was written shows another text.
abbrev pub Kept : Context → Context → Type 0
Kept c d = All (IsKept c d) (pending_writes d)

-- Some path is written for the first time, or shows another text.
abbrev pub Moved : Context → Context → Type 0
Moved c d = (p : FilePath) × Memᴰ p (pending_writes d) × (¬ (IsKept c d p))

-- What the guard lets a group report.
abbrev pub Told : Status → Context → Context → Type 0
Told applied c d = Moved c d
Told partial c d = Moved c d
Told already_present c d = Unit
Told _ c d = Kept c d

-- The guard passes on what it is given, an edit only where it has seen a change, and a degraded
-- report only where it has seen none.
abbrev Passes : Status → List FilePath → Type 0
Passes applied changed = is_nil changed ≡ false
Passes partial changed = is_nil changed ≡ false
Passes already_present changed = Unit
Passes _ changed = is_nil changed ≡ true

judge-Passes :
    (g : GroupResult) (changed : List FilePath) (c : Context) (r : GroupResult)
    → (judge g changed c).0 ≡ ok r
    → Passes g.status changed
unfolding judge
judge-Passes g changed c r e = go g.status refl
  where
    go : (st : Status) → g.status ≡ st → Passes st changed
    go already_present x = tt
    go st x = ground arith

module _ (c d : Context) (before : List (FilePath × Text))
    (h : Holds (tree c) (pending_writes c) before) where
  Kept-of : Compared before (tree d) (pending_writes d) [] → Kept c d
  Kept-of =
      All-imp _ _ (λ p (u, x, e). let (m, f) = h.found p u x in (m, e ∙ sym f)) (pending_writes d)

  -- A path that differs from its text in the dict, or has none there, is not kept.
  not-IsKept :
      (p : FilePath) (u : Text) (o : Option Text)
      → lookup p before ≡ o
      → tree d p ≡ some u
      → differs u o ≡ true
      → ¬ (IsKept c d p)
  not-IsKept p u none x e y (m, same) = h.lost p x m
  not-IsKept p u (some v) x e y (m, same) =
      let (_, f) = h.found p v x in ground (arith, text_eq_iff u v)

  Moved-of :
      (changed : List FilePath)
      → is_nil changed ≡ false
      → Compared before (tree d) (pending_writes d) changed
      → Moved c d
  Moved-of [] n k = absurd (ground arith)
  Moved-of (q ∷ qs) n (p, u, m, e, y) = (p, m, not-IsKept p u (lookup p before) refl e y)

  Told-of :
      (st : Status) (changed : List FilePath)
      → Passes st changed
      → Compared before (tree d) (pending_writes d) changed
      → Told st c d
  Told-of applied changed n k = Moved-of changed n k
  Told-of partial changed n k = Moved-of changed n k
  Told-of already_present changed n k = tt
  Told-of st [] n k = Kept-of k
  Told-of st (q ∷ qs) n k = absurd (ground arith)

Told-after : (st : Status) (c d d' : Context) → Reads d d' → Told st c d → Told st c d'
unfolding pending_writes
Told-after st c d d' r told = go st told
  where
    kept : Kept c d → Kept c d'
    kept k =
        subst (All (IsKept c d')) (sym r.dirty)
          (All-imp (IsKept c d) (IsKept c d') (λ p (m, e). (m, rw (tree-Reads r) e)) d.dirty k)

    moved : Moved c d → Moved c d'
    moved (p, m, n) = (p, subst (Memᴰ p) (sym r.dirty) m, λ (k, e). n (k, rw (tree-Reads r) at e))

    go : (st : Status) → Told st c d → Told st c d'
    go applied t = moved t
    go partial t = moved t
    go already_present t = tt
    go st t = kept t

check-Told :
    (before : List (FilePath × Text)) (g r : GroupResult) (c d : Context)
    → Holds (tree c) (pending_writes c) before
    → (check before g d).0 ≡ ok r
    → Told r.status c (check before g d).1
unfolding check
check-Told before g r c d h e =
    let paths = pending_writes d in
    let (changed, e1, step) = bind_ok (changed_paths before paths) (judge g) d r e in
    let d' = (changed_paths before paths d).1 in
    let e' = ap (λ (x : Result GroupResult × Context). x.0) (sym step) ∙ e in
    let (same, still) = judge_ok g changed d' r e' in
    let reads = (changed_paths-OnlyReads before paths).reads d in
    let told =
      Told-of c d before h g.status changed (judge-Passes g changed d' r e')
        (changed_paths-Compared before paths d changed e1) in
    rw (step, still, ← same) (Told-after g.status c d d' reads told)

-- Whatever the function of the group does, if a checked run of it returns, then with a degraded
-- status every path that counts as written was so before the group, and shows the same text as then;
-- and with `applied` or `partial` some path is written for the first time, or shows another text.
pub run_checked-Told :
    (g : PatchGroup) (c : Context) (r : GroupResult)
    → (run_checked g c).0 ≡ ok r
    → Told r.status c (run_checked g c).1
unfolding run_checked
run_checked-Told g c r e =
    let paths = pending_writes c in
    let (before, e1, step) = bind_ok (read_all paths) _ c r e in
    let c' = (read_all paths c).1 in
    let e' = ap (λ (x : Result GroupResult × Context). x.0) (sym step) ∙ e in
    let (result, f, step') = bind_ok (run g) (check before) c' r e' in
    let e'' = ap (λ (x : Result GroupResult × Context). x.0) (sym step') ∙ e' in
    rw (step, step')
      (check-Told before result r c (run g c').1 (read_all-Holds paths c before e1) e'')
