-- ===== src/Rollback/Child.antt =====
-- A child of `run_child` (scripts/abk_backport_engine.py) and a rollback
-- (scripts/abk_rollback.sh) behind it.
use abk_5_15_backport.Prelude.{Bool, false, List, some, ◌≡◌, sym, All, arith, Bool-cases, inl, inr}
use mathlib.Core.Path.{subst}
use abk_5_15_backport.Text.{Text, codes}
use abk_5_15_backport.Result.{ok}
use abk_5_15_backport.Disk.{FilePath, File, Disk}
use abk_5_15_backport.Context.{Context, write, mark_dirty}
use abk_5_15_backport.Context.Laws.{Reads}
use abk_5_15_backport.Context.Coherent.{write_real}
use abk_5_15_backport.Context.Sources.{IsSource}
use abk_5_15_backport.Groups.{PatchGroup, run_groups}
use abk_5_15_backport.Groups.Aims.{Aims, Aims-run_groups}
use abk_5_15_backport.Rollback.{is_new_file, roll_back}
use abk_5_15_backport.Rollback.Reached.{Reached, untouched, wrote, HasNone}
use abk_5_15_backport.Rollback.Restores.{roll_back_restores}
use abk_5_15_backport.Rollback.PutBack.{Lists}

record ReachedIn (d0 : Disk) (c : Context) : Type 0 where
  reached : Reached d0 c.disk

module _ (d0 : Disk) where
  Reads-ReachedIn : (c d : Context) → Reads c d → ReachedIn d0 c → ReachedIn d0 d
  Reads-ReachedIn c d r h = record { reached = subst (Reached d0) (sym r.disk) h.reached }

  write-ReachedIn :
      (rel : FilePath) (text : Text) (c : Context)
      → IsSource rel
      → ReachedIn d0 c
      → ReachedIn d0 (write rel text c).1
  write-ReachedIn rel text c s h = elim (Bool-cases c.dry_run) [
    | inl dry ↦
        let same : (write rel text c).1.disk ≡ c.disk =
          unfold write mark_dirty in ground (arith, dry) in
        record { reached = subst (Reached d0) (sym same) h.reached }
    | inr real ↦ record {
      reached =
          subst (Reached d0) (sym (write_real rel text c real).1)
            (wrote c.disk rel text h.reached s);
    }
  ]

-- From a tree without snapshots, in which no path is locked and no file begins with the sentinel:
-- after a run over the groups of a child, whose functions are built of readings of the tree and of
-- writes to files that are not snapshots, enabled or not, dry or not, returned or raised, a rollback
-- with `--apply` over the list of the snapshots, each once, in any order, succeeds and gives back
-- every file of the tree as it was.
pub run_groups_rolled_back :
    (enabled : Bool) (groups : List PatchGroup) (c : Context) (backups : List FilePath)
    → ((p : FilePath) → c.disk.locked p ≡ false)
    → HasNone c.disk
    → ((p : FilePath) (f : File) → c.disk.file p ≡ some f → is_new_file (some f) ≡ false)
    → All (λ (g : PatchGroup). Aims IsSource g.apply_fn) groups
    → Lists (run_groups enabled groups c).1.disk backups
    → ((roll_back (codes "--apply") backups (run_groups enabled groups c).1.disk).0 ≡ ok tt)
      × ((q : FilePath)
          → (roll_back (codes "--apply") backups (run_groups enabled groups c).1.disk).1.file q
            ≡ c.disk.file q)
run_groups_rolled_back enabled groups c backups free clean unmarked aimed l =
    let whole = Aims-run_groups IsSource enabled groups aimed in
    let kept = whole.law (ReachedIn c.disk) (Reads-ReachedIn c.disk) (write-ReachedIn c.disk) in
    let h = kept.keeps c (record { reached = untouched }) in
    roll_back_restores c.disk _ backups free clean unmarked h.reached l
