-- ===== src/Context/Sources.antt =====
-- The texts of the tree that a build reads: those of all files but the snapshots.
use abk_5_15_backport.Prelude.{
  Bool, true, false, none, if◌then◌else◌, ◌≡◌, ◌≢◌, refl, ◌∙◌, ap, sym, fun_ext, Bool-cases, inl,
  inr,
}
use abk_5_15_backport.Text.{ends_with}
use abk_5_15_backport.Text.Find.{ends_with-append}
use abk_5_15_backport.Disk.{FilePath, backup_path, backup_suffix}
use abk_5_15_backport.Context.{Context}
use abk_5_15_backport.Context.Laws.{Tree, tree, Reads, tree-Reads}

-- `*.abk-orig`
unfoldable pub is_snapshot : FilePath → Bool
unfolding ends_with
is_snapshot p = ends_with backup_suffix p

-- A file that is not a snapshot.
abbrev pub IsSource : FilePath → Type 0
IsSource p = is_snapshot p ≡ false

unfoldable pub sources : Context → Tree
sources c p = if is_snapshot p then none else tree c p

pub sources-Reads : {c d : Context} → Reads c d → sources d ≡ sources c
unfolding sources
sources-Reads r = fun_ext λ p. rw (tree-Reads r)

-- A path that is no snapshot is no file's backup.
pub backup_path-ne : (p q : FilePath) → is_snapshot p ≡ false → backup_path q ≢ p
unfolding backup_path is_snapshot
backup_path-ne p q h e =
    let suffix : ends_with backup_suffix (backup_path q) ≡ true =
      ends_with-append backup_suffix q in
    let same : ends_with backup_suffix p ≡ true = ap (ends_with backup_suffix) (sym e) ∙ suffix in
    true-ne-false (sym same ∙ h)
  where
    true-ne-false : true ≡ false → ⊥
    true-ne-false x = cc

pub sources-ext :
    (c : Context) (t : Tree)
    → ((p : FilePath) → is_snapshot p ≡ true → t p ≡ none)
    → ((p : FilePath) → is_snapshot p ≡ false → tree c p ≡ t p)
    → sources c ≡ t
unfolding sources
sources-ext c t snapshots others = fun_ext λ p. elim (Bool-cases (is_snapshot p)) [
  | inl e ↦ rw e (sym (snapshots p e))
  | inr e ↦ rw e (others p e)
]

pub sources-none : (c : Context) (p : FilePath) → is_snapshot p ≡ true → sources c p ≡ none
unfolding sources
sources-none c p e = rw e refl

pub sources-tree : (c : Context) (p : FilePath) → is_snapshot p ≡ false → sources c p ≡ tree c p
unfolding sources
sources-tree c p e = rw e refl
