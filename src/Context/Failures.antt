-- ===== src/Context/Failures.antt =====
-- `GraftContext.write` of scripts/abk_backport_engine.py where it raises.
use abk_5_15_backport.Prelude.{
  true, false, ◌++◌, Option, some, ◌≡◌, ◌≢◌, refl, ◌∙◌, ap, arith, if◌then◌else◌, length,
  length-append, Bool-cases, inl, inr,
}
use abk_5_15_backport.Text.{Text}
use abk_5_15_backport.Result.{Error, Result, ok, err}
use abk_5_15_backport.Disk.{
  FilePath, Disk, backup_path, backup_suffix, update, write_bytes, write_text,
}
use abk_5_15_backport.Disk.Laws.{snapshot_frame, update_self}
use abk_5_15_backport.Context.{Context, read, write, written, mark_dirty}
use abk_5_15_backport.Context.Laws.{view, read_result}
use abk_5_15_backport.Context.Coherent.{write-texts}

backup_path-ne : (p : FilePath) → backup_path p ≢ p
unfolding backup_path
backup_path-ne p e =
    let sizes : length (p ++ backup_suffix) ≡ length p = ap length e in
    absurd (omega (arith, sizes, length-append p backup_suffix))

-- The file is as before, though its backup may be new.
pub write_text_failed :
    (p : FilePath) (text : Text) (d : Disk) (x : Error)
    → (write_text p text true d).0 ≡ err x
    → (write_text p text true d).1.file p ≡ d.file p
unfolding write_text write_bytes
write_text_failed p text d x h = ground (arith, snapshot_frame p p d (backup_path-ne p))

written_failed :
    (rel : FilePath) (c : Context) (r : Result (Unit {0}) × Disk) (x : Error)
    → (written rel c r).0 ≡ err x
    → (r.0 ≡ err x) × ((written rel c r).1 ≡ record c { disk = r.1 })
unfolding written
written_failed rel c (ok u, d) x h = absurd (ground arith)
written_failed rel c (err e, d) x h = (h, refl)

write-written :
    (rel : FilePath) (text : Text) (c : Context)
    → c.dry_run ≡ false
    → write rel text c
      ≡ written rel (record c { texts = update c.texts rel text }) (write_text rel text true c.disk)
unfolding write
write-written rel text c real =
    let cached = record c { texts = update c.texts rel text } in
    ap
      (λ b.
        if b
        then (ok tt, mark_dirty rel cached)
        else written rel cached (write_text rel text true c.disk))
      real

-- Where a write raises, the file holds what it held and counts as written only if it did before, but
-- a read of it through the context that the write leaves gives the text that was not written.
pub write_failed :
    (rel : FilePath) (text : Text) (c : Context) (x : Error)
    → (write rel text c).0 ≡ err x
    → ((write rel text c).1.disk.file rel ≡ c.disk.file rel)
      × ((write rel text c).1.dirty ≡ c.dirty)
      × ((read rel (write rel text c).1).0 ≡ ok text)
write_failed rel text c x h =
    (kept.0, kept.1, read_result rel (write rel text c).1 ∙ unfold view in rw (shown, view) refl)
  where
    shown : (write rel text c).1.texts rel ≡ some text
    shown =
        ap (λ (f : FilePath → Option Text). f rel) (write-texts rel text c)
        ∙ update_self c.texts rel text

    kept :
        ((write rel text c).1.disk.file rel ≡ c.disk.file rel)
        × ((write rel text c).1.dirty ≡ c.dirty)
    kept = elim (Bool-cases c.dry_run) [
      | inl dry ↦ absurd (unfold write in ground arith)
      | inr real ↦
          let cached = record c { texts = update c.texts rel text } in
          let wrote = write_text rel text true c.disk in
          let same = write-written rel text c real in
          let (failed, left) = written_failed rel cached wrote x (rw same at h) in
          rw (same, left) (write_text_failed rel text c.disk x failed, refl)
    ]
