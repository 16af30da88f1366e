-- ===== src/Rollback/Suffix.antt =====
-- A backup's name and the name of its original.
use abk_5_15_backport.Prelude.{
  true, false, ℕ, [], ◌∷◌, ◌++◌, ◌≡◌, refl, ap, arith, length, length-append, inl, inr, Bool-cases,
}
use abk_5_15_backport.Text.{Text, codes, text_eq, ends_with}
use abk_5_15_backport.Text.Find.{text_eq_iff, text_eq_refl, ends_with-append}
use abk_5_15_backport.Disk.{FilePath, backup_path, backup_suffix}
use abk_5_15_backport.Context.Sources.{is_snapshot}
use abk_5_15_backport.Rollback.{strip_suffix, original_of}

text_eq_longer : (s t : Text) (c : ℕ) → text_eq s (c ∷ t ++ s) ≡ false
text_eq_longer s t c = elim (Bool-cases (text_eq s (c ∷ t ++ s))) [
  | inl e ↦
      let same = ap length ((text_eq_iff s (c ∷ t ++ s)).0 e) in
      absurd (omega (arith, length-append t s, same))
  | inr e ↦ e
]

strip_suffix-append : (s : ℕ) (ss t : Text) → strip_suffix (s ∷ ss) (t ++ s ∷ ss) ≡ t
unfolding strip_suffix
strip_suffix-append s ss [] = rw (text_eq_refl (s ∷ ss)) refl
strip_suffix-append s ss (c ∷ t) =
    rw (text_eq_longer (s ∷ ss) t c) (ap (λ r. c ∷ r) (strip_suffix-append s ss t))

append-strip_suffix :
    (s : ℕ) (ss t : Text) → ends_with (s ∷ ss) t ≡ true → strip_suffix (s ∷ ss) t ++ s ∷ ss ≡ t
unfolding strip_suffix ends_with
append-strip_suffix s ss [] h = absurd (ground arith)
append-strip_suffix s ss (c ∷ t) h = elim (Bool-cases (text_eq (s ∷ ss) (c ∷ t))) [
  | inl e ↦ rw e ((text_eq_iff (s ∷ ss) (c ∷ t)).0 e)
  | inr e ↦ rw e (ap (λ r. c ∷ r) (append-strip_suffix s ss t (rw e at h)))
]

pub original_of-backup_path : (p : FilePath) → original_of (backup_path p) ≡ p
unfolding original_of backup_path
original_of-backup_path p = strip_suffix-append 46 (codes "abk-orig") p

pub backup_path-original_of :
    (q : FilePath) → is_snapshot q ≡ true → backup_path (original_of q) ≡ q
unfolding original_of backup_path is_snapshot
backup_path-original_of q h = append-strip_suffix 46 (codes "abk-orig") q h

pub backup_path-is_snapshot : (p : FilePath) → is_snapshot (backup_path p) ≡ true
unfolding is_snapshot backup_path
backup_path-is_snapshot p = ends_with-append backup_suffix p
