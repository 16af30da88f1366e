-- ===== src/Rollback/Restores.antt =====
-- A rollback with `--apply` gives back the tree that the writes started from.
use abk_5_15_backport.Prelude.{
  Bool, true, false, List, [], ◌∷◌, none, some, ◌≡◌, refl, ◌∙◌, ap, sym, arith, inl, inr,
  Bool-cases, Option-cases, is_some,
}
use mathlib.Core.List.{Memᴰ}
use mathlib.Core.List.Memᴰ
use mathlib.Core.Path.{subst}
use abk_5_15_backport.Text.{codes}
use abk_5_15_backport.Result.{ok}
use abk_5_15_backport.Disk.{FilePath, File, Disk, backup_path}
use abk_5_15_backport.Context.Sources.{is_snapshot}
use abk_5_15_backport.Rollback.{original_of, is_new_file, roll_back}
use abk_5_15_backport.Rollback.Suffix.{backup_path-original_of, backup_path-is_snapshot}
use abk_5_15_backport.Rollback.Reached.{
  Reached, Standing, intact, saved, IsBackedUp, HasNone, Reached-IsBackedUp,
}
use abk_5_15_backport.Rollback.PutBack.{
  Lists, put_back, restore_one, put_back-IsBackedUp, put_back-Lists,
}

module _ (d0 : Disk) (free : (p : FilePath) → d0.locked p ≡ false) (clean : HasNone d0)
    (unmarked : (p : FilePath) (f : File) → d0.file p ≡ some f → is_new_file (some f) ≡ false) where
  none_left : (d : Disk) → IsBackedUp d0 d → Lists d [] → (q : FilePath) → d.file q ≡ d0.file q
  none_left d h l q = elim (Bool-cases (is_snapshot q)) [
    | inl sq ↦ absent q sq ∙ sym (clean q sq)
    | inr sq ↦ standing sq (h.stands q sq)
  ]
    where
      absent : (q : FilePath) → is_snapshot q ≡ true → d.file q ≡ none
      absent q sq = elim (Option-cases (d.file q)) [
        | inl e ↦ e
        | inr (f, e) ↦ absurd (Memᴰ.not-nil (l.found q sq (ap is_some e)))
      ]

      standing : is_snapshot q ≡ false → Standing d0 d q → d.file q ≡ d0.file q
      standing sq (intact a b) = b
      standing sq (saved f r a b) =
          absurd (Memᴰ.not-nil (l.found (backup_path q) (backup_path-is_snapshot q) (ap is_some a)))

  abbrev Restored : List FilePath → Disk → Type 0
  Restored backups d =
      ((roll_back (codes "--apply") backups d).0 ≡ ok tt)
      × ((q : FilePath) → (roll_back (codes "--apply") backups d).1.file q ≡ d0.file q)

  put_back_first :
      (p : FilePath) (rest : List FilePath) (d : Disk)
      → ((d' : Disk) → IsBackedUp d0 d' → Lists d' rest → Restored rest d')
      → is_snapshot p ≡ false
      → IsBackedUp d0 d
      → Lists d (backup_path p ∷ rest)
      → Standing d0 d p
      → Restored (backup_path p ∷ rest) d
  unfolding roll_back
  put_back_first p rest d ih s h l (intact a b) =
      absurd (ground (arith, ap is_some a, (l.listed (backup_path p) (Memᴰ.head refl)).1))
  put_back_first p rest d ih s h l (saved f r a b) =
      let step =
        restore_one p f d r (ap (λ (g : FilePath → Bool). g p) h.locked ∙ free p) a
          (unmarked p f b) in
      rw step (
        ih (put_back p f d) (put_back-IsBackedUp d0 d p f s b h) (put_back-Lists d0 d p f s rest l))

  put_back_each :
      (backups : List FilePath) (d : Disk) → IsBackedUp d0 d → Lists d backups → Restored backups d
  unfolding roll_back
  put_back_each [] d h l = (refl, none_left d h l)
  put_back_each (q ∷ rest) d h l = elim (Bool-cases (is_snapshot (original_of q))) [
    | inl nested ↦
        let (sq, there) = l.listed q (Memᴰ.head refl) in
        absurd (ground (arith, ap is_some (h.strays q sq nested), there))
    | inr plain ↦
        let (sq, there) = l.listed q (Memᴰ.head refl) in
        let e = backup_path-original_of q sq in
        subst (λ b. Restored (b ∷ rest) d) e
          (put_back_first (original_of q) rest d (put_back_each rest) plain h
            (subst (λ b. Lists d (b ∷ rest)) (sym e) l) (h.stands (original_of q) plain))
  ]

-- From a tree without snapshots, in which no path is locked and no file begins with the sentinel,
-- whatever texts are written with a backup, each to a path that is no snapshot, raised or not: a
-- rollback with `--apply` over the list of the snapshots, each once, in any order, succeeds and
-- gives back every file of the tree as it was.
pub roll_back_restores :
    (d0 d : Disk) (backups : List FilePath)
    → ((p : FilePath) → d0.locked p ≡ false)
    → HasNone d0
    → ((p : FilePath) (f : File) → d0.file p ≡ some f → is_new_file (some f) ≡ false)
    → Reached d0 d
    → Lists d backups
    → ((roll_back (codes "--apply") backups d).0 ≡ ok tt)
      × ((q : FilePath) → (roll_back (codes "--apply") backups d).1.file q ≡ d0.file q)
roll_back_restores d0 d backups free clean unmarked r l =
    put_back_each d0 free clean unmarked backups d (Reached-IsBackedUp d0 d clean r) l
