-- ===== src/Rollback/Reached.antt =====
-- The trees that writes of the engine (scripts/abk_common.py) lead to from a tree without snapshots:
-- every file is as it was and has no snapshot, or has the old file as its snapshot.
use abk_5_15_backport.Prelude.{
  true, false, Option, none, some, ◌≡◌, ◌≢◌, refl, ◌∙◌, ap, sym, arith, inl, inr, Bool-cases,
  is_some,
}
use abk_5_15_backport.Text.{Text, text_eq}
use abk_5_15_backport.Text.Find.{text_eq_iff}
use abk_5_15_backport.Result.{ok}
use abk_5_15_backport.Disk.{
  FilePath, File, utf8, binary, unreadable, Disk, update, backup_path, write_text, snapshot,
  copy_to, write_bytes, read_bytes,
}
use abk_5_15_backport.Disk.Laws.{write_text_frame, write_text-locked}
use abk_5_15_backport.Context.Sources.{is_snapshot, backup_path-ne}
use abk_5_15_backport.Rollback.{original_of}
use abk_5_15_backport.Rollback.Suffix.{original_of-backup_path, backup_path-is_snapshot}

-- What writes with a backup make of the disk `d0`, raised or not.
pub data Reached (d0 : Disk) : Disk → Type 0 where
  untouched : Reached d0 d0
  wrote :
      (d : Disk) (p : FilePath) (text : Text)
      → Reached d0 d
      → is_snapshot p ≡ false
      → Reached d0 (write_text p text true d).1

-- Where a path stands that is no snapshot.
pub data Standing (d0 d : Disk) (p : FilePath) : Type 0 where
  intact : d.file (backup_path p) ≡ none → d.file p ≡ d0.file p → Standing d0 d p
  saved :
      (f : File)
      → f ≢ unreadable
      → d.file (backup_path p) ≡ some f
      → d0.file p ≡ some f
      → Standing d0 d p

pub record IsBackedUp (d0 d : Disk) : Type 0 where
  pub locked : d.locked ≡ d0.locked
  pub stands : (p : FilePath) → is_snapshot p ≡ false → Standing d0 d p
  -- No snapshot has a snapshot.
  pub strays :
      (q : FilePath) → is_snapshot q ≡ true → is_snapshot (original_of q) ≡ true → d.file q ≡ none

abbrev pub HasNone : Disk → Type 0
HasNone d = (q : FilePath) → is_snapshot q ≡ true → d.file q ≡ none

IsBackedUp-refl : (d0 : Disk) → HasNone d0 → IsBackedUp d0 d0
IsBackedUp-refl d0 h = record {
  locked = refl;
  stands = λ p s. intact (h (backup_path p) (backup_path-is_snapshot p)) refl;
  strays = λ q s o. h q s;
}

pub backup_path-injective : (p q : FilePath) → backup_path p ≡ backup_path q → p ≡ q
backup_path-injective p q e =
    sym (original_of-backup_path p) ∙ ap original_of e ∙ original_of-backup_path q

-- A path that is no snapshot differs from one that is.
pub snapshot-ne : (p q : FilePath) → is_snapshot p ≡ false → is_snapshot q ≡ true → p ≢ q
snapshot-ne p q hp hq e = true-ne-false (sym hq ∙ ap is_snapshot (sym e) ∙ hp)
  where
    true-ne-false : true ≡ false → ⊥
    true-ne-false x = cc

pub Standing-frame :
    (d0 d d' : Disk) (p : FilePath)
    → d'.file (backup_path p) ≡ d.file (backup_path p)
    → d'.file p ≡ d.file p
    → Standing d0 d p
    → Standing d0 d' p
Standing-frame d0 d d' p eb ep (intact a b) = intact (eb ∙ a) (ep ∙ b)
Standing-frame d0 d d' p eb ep (saved f r a b) = saved f r (eb ∙ a) b

module _ (d0 d : Disk) (p : FilePath) (text : Text) (s : is_snapshot p ≡ false) where
  ne : p ≢ backup_path p
  ne e = snapshot-ne p (backup_path p) s (backup_path-is_snapshot p) e

  -- The file that is written has its snapshot, old or new.
  wrote-Standing : Standing d0 d p → Standing d0 (write_text p text true d).1 p
  unfolding read_bytes
  wrote-Standing (saved f r a b) =
      saved f r
        (unfold write_text snapshot write_bytes update in
          ground (arith, text_eq_iff p (backup_path p), ne, a, ap is_some a))
        b
  wrote-Standing (intact a b) = go (d.file p) refl
    where
      readable :
          (f : File)
          → d.file p ≡ some f
          → read_bytes p (some f) ≡ ok f
          → f ≢ unreadable
          → Standing d0 (write_text p text true d).1 p
      readable f e r n = elim (Bool-cases (d.locked (backup_path p))) [
        | inl barred ↦
            let same : (write_text p text true d).1 ≡ d =
              unfold write_text snapshot copy_to write_bytes in
              ground (arith, ap is_some e, ap is_some a, e) in
            rw same (intact a b)
        | inr free ↦
            saved f n
              (unfold write_text snapshot copy_to write_bytes update in
                ground (
                  arith,
                  text_eq_iff p (backup_path p),
                  text_eq_iff (backup_path p) (backup_path p),
                  ne,
                  ap is_some e,
                  ap is_some a,
                ))
              (sym b ∙ e)
      ]

      go : (o : Option File) → d.file p ≡ o → Standing d0 (write_text p text true d).1 p
      go none e =
          let same : (write_text p text true d).1 ≡ d =
            unfold write_text in ground (arith, ap is_some e) in
          rw same (intact a b)
      go (some unreadable) e =
          let same : (write_text p text true d).1 ≡ d =
            unfold write_text snapshot copy_to read_bytes in
            ground (arith, ap is_some e, ap is_some a) in
          rw same (intact a b)
      go (some (utf8 t)) e = readable (utf8 t) e refl (λ x. absurd (ground arith))
      go (some (binary bytes)) e = readable (binary bytes) e refl (λ x. absurd (ground arith))

  wrote-IsBackedUp : IsBackedUp d0 d → IsBackedUp d0 (write_text p text true d).1
  wrote-IsBackedUp h = record {
    locked = write_text-locked p text d ∙ h.locked;
    stands = λ q sq. elim (Bool-cases (text_eq p q)) [
      | inl e ↦ rw (← (text_eq_iff p q).0 e) (wrote-Standing (h.stands p s))
      | inr e ↦
          let other : p ≢ q = λ x. true-ne-false (sym ((text_eq_iff p q).1 x) ∙ e) in
          Standing-frame d0 d _ q
            (write_text_frame p (backup_path q) text d
              (λ x. snapshot-ne p (backup_path q) s (backup_path-is_snapshot q) x)
              (λ x. other (backup_path-injective p q x)))
            (write_text_frame p q text d other (backup_path-ne q p sq)) (h.stands q sq)
    ];
    strays = λ q sq o.
        write_text_frame p q text d (λ x. snapshot-ne p q s sq x)
          (λ x. true-ne-false (
            sym o
            ∙ ap (λ r. is_snapshot (original_of r)) (sym x)
            ∙ ap is_snapshot (original_of-backup_path p)
            ∙ s))
        ∙ h.strays q sq o;
  }
    where
      true-ne-false : true ≡ false → ⊥
      true-ne-false x = cc

pub Reached-IsBackedUp : (d0 d : Disk) → HasNone d0 → Reached d0 d → IsBackedUp d0 d
Reached-IsBackedUp d0 d h untouched = IsBackedUp-refl d0 h
Reached-IsBackedUp d0 d' h (wrote d p text r s) =
    wrote-IsBackedUp d0 d p text s (Reached-IsBackedUp d0 d h r)
