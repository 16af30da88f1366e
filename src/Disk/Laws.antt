-- ===== src/Disk/Laws.antt =====
-- What `write_text` with its backup does to the tree, path by path.
use abk_5_15_backport.Prelude.{
  true, false, Option, some, ◌≡◌, refl, ◌≢◌, arith, is_some, inl, inr, ◌∙◌, ap, sym, Bool-cases,
}
use abk_5_15_backport.Text.{Text, text_eq}
use abk_5_15_backport.Text.Find.{text_eq_iff, text_eq_refl}
use abk_5_15_backport.Result.{Result, ok, err}
use abk_5_15_backport.Disk.{
  FilePath, File, utf8, Disk, update, backup_path, snapshot, write_text, write_bytes, copy_to,
  read_bytes,
}

pub update_self {ℓ} :
    {A : Type ℓ} (f : FilePath → Option A) (p : FilePath) (a : A) → update f p a p ≡ some a
unfolding update
update_self f p a = rw (text_eq_refl p)

pub update_ne {ℓ} :
    {A : Type ℓ} (f : FilePath → Option A) (p q : FilePath) (a : A) → p ≢ q → update f p a q ≡ f q
unfolding update
update_ne f p q a h = ground (arith, text_eq_iff p q)

copy_to_frame :
    (p q : FilePath) (r : Result File) (d : Disk) → p ≢ q → (copy_to p r d).1.file q ≡ d.file q
unfolding copy_to write_bytes update
copy_to_frame p q (ok f) d h = ground (arith, text_eq_iff p q)
copy_to_frame p q (err e) d h = refl

pub snapshot_frame :
    (p q : FilePath) (d : Disk) → backup_path p ≢ q → (snapshot p d).1.file q ≡ d.file q
unfolding snapshot
snapshot_frame p q d h = ground (arith, copy_to_frame (backup_path p) q (read_bytes p (d.file p)) d)

-- Whether it raises or not, a write with backup touches the file and its backup, and no other
-- path.
pub write_text_frame :
    (p q : FilePath) (text : Text) (d : Disk)
    → p ≢ q
    → backup_path p ≢ q
    → (write_text p text true d).1.file q ≡ d.file q
unfolding write_text write_bytes update
write_text_frame p q text d h k = ground (arith, snapshot_frame p q d, text_eq_iff p q)

pub write_text_self :
    (p : FilePath) (text : Text) (d : Disk)
    → (write_text p text true d).0 ≡ ok tt
    → (write_text p text true d).1.file p ≡ some (utf8 text)
unfolding write_text write_bytes update
write_text_self p text d h = ground (arith, text_eq_refl p)

is_some_of : (o : Option File) (f : File) → o ≡ some f → is_some o ≡ true
is_some_of o f h = ap is_some h

-- A write with backup replaces no file but its own: other files that are there, backups among
-- them, stay as they are, whether it raises or not.
pub write_text_keeps :
    (p q : FilePath) (text : Text) (d : Disk) (f : File)
    → p ≢ q
    → d.file q ≡ some f
    → (write_text p text true d).1.file q ≡ some f
write_text_keeps p q text d f h e = elim (Bool-cases (text_eq (backup_path p) q)) [
  | inl eq ↦
      let same = (text_eq_iff (backup_path p) q).0 eq in
      let there = is_some_of (d.file (backup_path p)) f (rw same e) in
      unfold write_text snapshot write_bytes update in ground (arith, text_eq_iff p q)
  | inr ne ↦
      write_text_frame p q text d h
        (λ x. true-ne-false (sym ((text_eq_iff (backup_path p) q).1 x) ∙ ne))
      ∙ e
]
  where
    true-ne-false : true ≡ false → ⊥
    true-ne-false x = cc

-- Nothing is raised where nothing is locked and the file holds a text.
pub write_text_succeeds :
    (p : FilePath) (text u : Text) (d : Disk)
    → ((q : FilePath) → d.locked q ≡ false)
    → d.file p ≡ some (utf8 u)
    → (write_text p text true d).0 ≡ ok tt
unfolding write_text snapshot copy_to write_bytes read_bytes
write_text_succeeds p text u d free e = ground (arith, free p, free (backup_path p))

copy_to-locked : (p : FilePath) (r : Result File) (d : Disk) → (copy_to p r d).1.locked ≡ d.locked
unfolding copy_to write_bytes
copy_to-locked p (ok f) d = ground arith
copy_to-locked p (err e) d = refl

-- Writing locks and unlocks nothing.
pub write_text-locked :
    (p : FilePath) (text : Text) (d : Disk) → (write_text p text true d).1.locked ≡ d.locked
unfolding write_text snapshot write_bytes
write_text-locked p text d =
    ground (arith, copy_to-locked (backup_path p) (read_bytes p (d.file p)) d)
