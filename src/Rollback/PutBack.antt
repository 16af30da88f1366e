-- ===== src/Rollback/PutBack.antt =====
-- One round of the rollback with `--apply` (scripts/abk_rollback.sh).
use abk_5_15_backport.Prelude.{
  true, false, List, ◌∷◌, none, some, if◌then◌else◌, ◌≡◌, ◌≢◌, refl, ◌∙◌, ap, sym, arith, ◌⊎◌, inl,
  inr, Bool-cases, is_some,
}
use mathlib.Core.List.{Memᴰ, Mem, Nodup, Nodup-cons}
use mathlib.Core.List.Memᴰ
use abk_5_15_backport.Text.{codes, text_eq}
use abk_5_15_backport.Text.Find.{text_eq_iff, text_eq_refl}
use abk_5_15_backport.Result.{ok}
use abk_5_15_backport.Disk.{
  FilePath, File, utf8, binary, unreadable, Disk, update, backup_path, copy_to, write_bytes,
  read_bytes,
}
use abk_5_15_backport.Context.Sources.{is_snapshot, backup_path-ne}
use abk_5_15_backport.Rollback.{original_of, is_new_file, remove, restore, roll_back_one}
use abk_5_15_backport.Rollback.Suffix.{original_of-backup_path, backup_path-is_snapshot}
use abk_5_15_backport.Rollback.Reached.{
  intact, IsBackedUp, Standing-frame, snapshot-ne, backup_path-injective,
}

-- The list that `find` gives: every snapshot, once.
pub record Lists (d : Disk) (backups : List FilePath) : Type 0 where
  pub listed :
      (q : FilePath) → Memᴰ q backups → (is_snapshot q ≡ true) × (is_some (d.file q) ≡ true)
  pub found : (q : FilePath) → is_snapshot q ≡ true → is_some (d.file q) ≡ true → Memᴰ q backups
  pub once : Nodup backups

read_bytes_of : (p : FilePath) (f : File) → f ≢ unreadable → read_bytes p (some f) ≡ ok f
unfolding read_bytes
read_bytes_of p (utf8 t) r = refl
read_bytes_of p (binary bytes) r = refl
read_bytes_of p unreadable r = absurd (r refl)

copy_to_ok :
    (target : FilePath) (f : File) (d : Disk)
    → d.locked target ≡ false
    → copy_to target (ok f) d ≡ (ok tt, record d { file = update d.file target f })
unfolding copy_to write_bytes
copy_to_ok target f d free = rw free

-- The disk with a file put back and its snapshot removed.
pub put_back : FilePath → File → Disk → Disk
unfolding text_eq update
put_back p f d = record d {
  file = λ q. if text_eq (backup_path p) q then none else update d.file p f q;
}

text_eq_ne : (p q : FilePath) → p ≢ q → text_eq p q ≡ false
text_eq_ne p q h = ground (arith, text_eq_iff p q)

pub restore_one :
    (p : FilePath) (f : File) (d : Disk)
    → f ≢ unreadable
    → d.locked p ≡ false
    → d.file (backup_path p) ≡ some f
    → is_new_file (some f) ≡ false
    → roll_back_one (codes "--apply") (backup_path p) d ≡ (ok tt, put_back p f d)
unfolding roll_back_one restore remove put_back
restore_one p f d r free e n =
    rw (e, n, original_of-backup_path p, read_bytes_of (backup_path p) f r, copy_to_ok p f d free)

module _ (d0 d : Disk) (p : FilePath) (f : File) (s : is_snapshot p ≡ false) where
  put_back_self : (put_back p f d).file p ≡ some f
  unfolding put_back
  put_back_self =
      let ne : text_eq (backup_path p) p ≡ false =
        text_eq_ne (backup_path p) p (backup_path-ne p p s) in
      rw (ne, text_eq_refl p)

  put_back_backup : (put_back p f d).file (backup_path p) ≡ none
  unfolding put_back
  put_back_backup = rw (text_eq_refl (backup_path p))

  put_back_frame : (q : FilePath) → p ≢ q → backup_path p ≢ q → (put_back p f d).file q ≡ d.file q
  unfolding put_back
  put_back_frame q a b = rw (text_eq_ne (backup_path p) q b, text_eq_ne p q a)

  pub put_back-IsBackedUp : d0.file p ≡ some f → IsBackedUp d0 d → IsBackedUp d0 (put_back p f d)
  unfolding put_back
  put_back-IsBackedUp e h = record {
    locked = h.locked;
    stands = λ q sq. elim (Bool-cases (text_eq p q)) [
      | inl same ↦ rw (← (text_eq_iff p q).0 same) (intact put_back_backup (put_back_self ∙ sym e))
      | inr other ↦
          let ne : p ≢ q = λ x. ground (arith, text_eq_iff p q, x) in
          Standing-frame d0 d (put_back p f d) q
            (put_back_frame (backup_path q)
              (snapshot-ne p (backup_path q) s (backup_path-is_snapshot q))
              (λ x. ne (backup_path-injective p q x)))
            (put_back_frame q ne (backup_path-ne q p sq)) (h.stands q sq)
    ];
    strays = λ q sq o.
        put_back_frame q (snapshot-ne p q s sq) (λ x. original-ne q o x) ∙ h.strays q sq o;
  }
    where
      original-ne : (q : FilePath) → is_snapshot (original_of q) ≡ true → backup_path p ≢ q
      original-ne q o x =
          snapshot-ne p (original_of q) s o (sym (original_of-backup_path p) ∙ ap original_of x)

  -- What is listed behind the snapshot stays listed.
  pub put_back-Lists :
      (rest : List FilePath) → Lists d (backup_path p ∷ rest) → Lists (put_back p f d) rest
  put_back-Lists rest l = record {
    listed = λ q m.
        let (sq, there) = l.listed q (Memᴰ.tail m) in
        (
          sq,
          ap is_some (put_back_frame q (snapshot-ne p q s sq) (λ x. fresh.0 (Mem_of (sym x) m)))
              ∙ there,
        );
    found = λ q sq there. later q sq there (Bool-cases (text_eq (backup_path p) q));
    once = fresh.1;
  }
    where
      fresh : (¬ Mem (backup_path p) rest) × Nodup rest
      fresh = Nodup-cons.0 l.once

      Mem_of : {q : FilePath} → q ≡ backup_path p → Memᴰ q rest → Mem (backup_path p) rest
      Mem_of x m = ∣ Memᴰ.cast (sym x) m ∣₁

      later :
          (q : FilePath)
          → is_snapshot q ≡ true
          → is_some ((put_back p f d).file q) ≡ true
          → (text_eq (backup_path p) q ≡ true) ⊎ (text_eq (backup_path p) q ≡ false)
          → Memᴰ q rest
      later q sq there (inl same) = absurd (gone q ((text_eq_iff (backup_path p) q).0 same) there)
        where
          gone : (q : FilePath) → backup_path p ≡ q → is_some ((put_back p f d).file q) ≡ true → ⊥
          gone q x t = ground (arith, put_back_backup, ap (λ r. (put_back p f d).file r) x)
      later q sq there (inr other) =
          let ne : backup_path p ≢ q = λ x. ground (arith, text_eq_iff (backup_path p) q, x) in
          let was =
            l.found q sq (ap is_some (sym (put_back_frame q (snapshot-ne p q s sq) ne)) ∙ there) in
          elim (Memᴰ.cases_cons was) [ inl x ↦ absurd (ne (sym x)) | inr m ↦ m ]
