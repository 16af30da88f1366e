-- ===== src/Core/FdTable/Changed.antt =====
-- The file descriptor table group as a group with a change of the tree.
use abk_5_15_backport.Prelude.{◌≡◌, refl, ◌∙◌, ap, sym}
use abk_5_15_backport.Context.{Context, fs_file}
use abk_5_15_backport.Context.Laws.{Tree, tree}
use abk_5_15_backport.Context.Coherent.{IsSound}
use abk_5_15_backport.Context.Sources.{
  is_snapshot, sources, sources-ext, sources-none, sources-tree, backup_path-ne,
}
use abk_5_15_backport.Steps.Collect.{edit}
use abk_5_15_backport.Groups.Acting.{edit_all, edit-none, Acts}
use abk_5_15_backport.Groups.Planned.{Planned}
use abk_5_15_backport.Core.FdTable.{fdtable_apply, fdtable_alloc_conventions}
use abk_5_15_backport.Core.FdTable.Shapes.{plan, fdtable_apply-Acted}

-- Every file is edited by the steps for the shape of fs/file.c.
abbrev pub fdtable_change : Tree → Tree
fdtable_change t = edit_all (plan (t fs_file)) t

pub fdtable_apply-Acts : (c : Context) → IsSound c → Acts fdtable_change c (fdtable_apply c)
unfolding is_snapshot
fdtable_apply-Acts c h =
    let did = fdtable_apply-Acted c h in
    let steps = plan (tree c fs_file) in
    let same : plan (sources c fs_file) ≡ steps = ap plan (sources-tree c fs_file refl) in
    record {
      sound = did.sound;
      idle = did.idle;
      edited = λ x.
          sources-ext (fdtable_apply c).1 (edit_all steps (sources c))
            (λ p s. ap (edit p steps) (sources-none c p s) ∙ edit-none p steps)
            (λ p s.
              did.edited x p (backup_path-ne p fs_file s)
              ∙ ap (edit p steps) (sym (sources-tree c p s)))
          ∙ ap (λ l. edit_all l (sources c)) (sym same);
    }

abbrev pub planned_fdtable : Planned
unfolding fdtable_alloc_conventions
planned_fdtable = record {
  group = fdtable_alloc_conventions;
  change = fdtable_change;
  acts = fdtable_apply-Acts;
}
