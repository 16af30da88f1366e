-- ===== src/Groups/DryRun.antt =====
-- A dry run of the groups of a child (scripts/abk_backport_engine.py).
use abk_5_15_backport.Prelude.{Bool, true, List, ◌≡◌, refl, ◌∙◌, arith, All}
use abk_5_15_backport.Text.{Text}
use abk_5_15_backport.Disk.{FilePath, Disk}
use abk_5_15_backport.Context.{Context, write, mark_dirty}
use abk_5_15_backport.Context.Laws.{Reads}
use abk_5_15_backport.Groups.{PatchGroup, run_groups}
use abk_5_15_backport.Groups.Aims.{Aims, Aims-run_groups}

-- A dry run, with the disk as given.
record IsDry (disk : Disk) (c : Context) : Type 0 where
  same : c.disk ≡ disk
  dry : c.dry_run ≡ true

module _ (disk : Disk) where
  Reads-IsDry : (c d : Context) → Reads c d → IsDry disk c → IsDry disk d
  Reads-IsDry c d r h = record { same = r.disk ∙ h.same; dry = r.dry_run ∙ h.dry }

  write-IsDry :
      (rel : FilePath) (text : Text) (c : Context)
      → Unit {0}
      → IsDry disk c
      → IsDry disk (write rel text c).1
  unfolding write mark_dirty
  write-IsDry rel text c t h = record {
    same = ground (arith, h.same, h.dry);
    dry = ground (arith, h.dry);
  }

-- In a dry run, a run over the groups of a child, whose functions are built of readings of the tree
-- and of writes, leaves the whole disk as it was, whether it is enabled or not, returns or raises.
pub run_groups_dry :
    (enabled : Bool) (groups : List PatchGroup) (c : Context)
    → c.dry_run ≡ true
    → All (λ (g : PatchGroup). Aims (λ _. Unit {0}) g.apply_fn) groups
    → (run_groups enabled groups c).1.disk ≡ c.disk
run_groups_dry enabled groups c dry hs =
    let whole = Aims-run_groups (λ _. Unit {0}) enabled groups hs in
    let kept = whole.law (IsDry c.disk) (Reads-IsDry c.disk) (write-IsDry c.disk) in
    (kept.keeps c (record { same = refl; dry = dry })).same
