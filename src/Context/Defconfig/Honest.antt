-- ===== src/Context/Defconfig/Honest.antt =====
-- What the two edits of the defconfig do to the tree.
use abk_5_15_backport.Prelude.{
  Bool, true, false, not, ◌&&◌, List, Option, none, some, if◌then◌else◌, ◌==◌, ◌≡◌, ◌≢◌, refl, ◌∙◌,
  ap, arith, Bool-cases, Option-cases, inl, inr,
}
use abk_5_15_backport.Text.{Text, join}
use abk_5_15_backport.Result.{Result, ok, err, Exec, ◌>>=◌, ◌>>◌, continue, pure}
use abk_5_15_backport.Disk.{FilePath, Disk, backup_path, update, write_text}
use abk_5_15_backport.Disk.Laws.{update_ne}
use abk_5_15_backport.Context.{Context, read, write, written, mark_dirty}
use abk_5_15_backport.Context.Laws.{tree, Reads, Reads-refl, tree-Reads, read-Reads, tree-write}
use abk_5_15_backport.Context.Coherent.{
  IsSound, read-IsSound, write-IsSound, write_succeeds, read_cached,
}
use abk_5_15_backport.Steps.{
  Status, applied, already_present, report_only, blocked_by_missing_anchor,
}
use abk_5_15_backport.Context.Defconfig.{
  Config, Edited, Dropped, write_edited, enable_in, enable_configs, write_dropped, drop_token_in,
  defconfig_drop_cmdline_token, ended,
}

abbrev pub reports_edit : Result Status → Bool
reports_edit (ok applied) = true
reports_edit _ = false

-- Unless it reports `applied`, it has written nothing, and in any case no file but the one at `rel`
-- and its backup.
pub record Touches (rel : Option FilePath) (c : Context) (r : Result Status × Context)
    : Type 0 where
  pub sound : IsSound r.1
  pub defconfig : r.1.defconfig_rel ≡ c.defconfig_rel
  pub idle : reports_edit r.0 ≡ false → Reads c r.1
  pub other :
      (p : FilePath)
      → rel ≢ some p
      → ((q : FilePath) → rel ≡ some q → backup_path q ≢ p)
      → tree r.1 p ≡ tree c p

Touches-idle :
    (rel : Option FilePath) (c d : Context) (r : Result Status)
    → Reads c d
    → IsSound d
    → Touches rel c (r, d)
Touches-idle rel c d r reads h = record {
  sound = h;
  defconfig = reads.defconfig_rel;
  idle = λ _. reads;
  other = λ p a b. ap (λ (t : FilePath → Option Text). t p) (tree-Reads reads);
}

write-defconfig_rel :
    (rel : FilePath) (u : Text) (c : Context) → (write rel u c).1.defconfig_rel ≡ c.defconfig_rel
unfolding write mark_dirty written
write-defconfig_rel rel u c = go c.dry_run (write_text rel u true c.disk)
  where
    go :
        (b : Bool) (w : Result (Unit {0}) × Disk)
        → (if b
            then (ok tt, mark_dirty rel (record c { texts = update c.texts rel u }))
            else written rel (record c { texts = update c.texts rel u }) w).1.defconfig_rel
          ≡ c.defconfig_rel
    go true w = refl
    go false (ok x, d) = refl
    go false (err x, d) = refl

-- The two things that may follow the reading of the file.
data Choice (rel : FilePath) (m : Exec Context Status) : Type 0 where
  leaves : (st : Status) → m ≡ pure st → Choice rel m
  writes : (u : Text) → m ≡ (do write rel u; pure applied) → Choice rel m

module _ (rel : FilePath) (u : Text) (c d : Context) (reads : Reads c d) (h : IsSound d)
    (done : (write rel u d).0 ≡ ok tt) where
  Touches-write : Touches (some rel) c ((do write rel u; pure applied) d)
  Touches-write = rw done (record {
    sound = write-IsSound rel u d h done;
    defconfig = write-defconfig_rel rel u d ∙ reads.defconfig_rel;
    idle = λ e. absurd (ground arith);
    other = λ p a b.
        tree-write rel p u d (b rel refl) done
        ∙ update_ne (tree d) rel p u (λ e. a (ap some e))
        ∙ ap (λ (t : FilePath → Option Text). t p) (tree-Reads reads);
  })

Touches-read :
    (rel : FilePath) (f : Text → Exec Context Status) (c : Context)
    → IsSound c
    → ((t : Text) → Choice rel (f t))
    → Touches (some rel) c ((read rel >>= f) c)
Touches-read rel f c h choice = go (read rel c).0 refl
  where
    d : Context
    d = (read rel c).1

    kept : IsSound d
    kept = read-IsSound rel c h

    cached : (t : Text) → (read rel c).0 ≡ ok t → (u : Text) → (write rel u d).0 ≡ ok tt
    cached t e u = elim (Option-cases (d.texts rel)) [
      | inl x ↦ absurd (ground (arith, read_cached rel t c e))
      | inr (old, x) ↦ write_succeeds rel u old d kept.coherent kept.free x
    ]

    chosen :
        (t : Text)
        → (read rel c).0 ≡ ok t
        → (m : Exec Context Status) → Choice rel m
        → Touches (some rel) c (m d)
    chosen t e m (leaves st x) = rw x (Touches-idle (some rel) c d (ok st) (read-Reads rel c) kept)
    chosen t e m (writes u x) =
        rw x (Touches-write rel u c d (read-Reads rel c) kept (cached t e u))

    go : (r : Result Text) → (read rel c).0 ≡ r → Touches (some rel) c (continue r f d)
    go (ok t) e = chosen t e (f t) (choice t)
    go (err x) e = Touches-idle (some rel) c d (err x) (read-Reads rel c) kept

-- With no defconfig below the tree, nothing is done.
Touches-defconfig :
    (f : FilePath → Exec Context Status) (c : Context)
    → IsSound c
    → ((rel : FilePath) → Touches (some rel) c (f rel c))
    → (o : Option FilePath)
    → Touches o c (elim o [ none ↦ (ok report_only, c) | some rel ↦ f rel c ])
Touches-defconfig f c h touches none = Touches-idle none c c (ok report_only) (Reads-refl c) h
Touches-defconfig f c h touches (some rel) = touches rel

edited-Choice :
    (rel : FilePath) (joiner : Text) (e : Edited) → Choice rel (write_edited rel joiner e)
unfolding write_edited
edited-Choice rel joiner e = elim (Bool-cases ((e.appended == 0) && (e.rewritten == 0))) [
  | inl same ↦ leaves already_present (rw (same, write_edited) refl)
  | inr changed ↦ writes (ended joiner e.text) (rw (changed, write_edited) refl)
]

dropped-Choice :
    (rel : FilePath) (joiner : Text) (d : Dropped) → Choice rel (write_dropped rel joiner d)
unfolding write_dropped
dropped-Choice rel joiner d = go d.seen d.dropped d.lines
  where
    go :
        (seen dropped : Bool) (lines : List Text)
        → Choice rel (
            if not seen
            then pure blocked_by_missing_anchor
            else if not dropped
            then pure already_present
            else (do write rel (join joiner lines); pure applied))
    go false dropped lines = leaves blocked_by_missing_anchor refl
    go true false lines = leaves already_present refl
    go true true lines = writes (join joiner lines) refl

-- `enable_configs` leaves a sound context sound, and the path of the defconfig as it is; unless
-- it reports `applied`, raised or not, it has written nothing; and it changes the text of no
-- file but the defconfig and its backup.
pub enable_configs-Touches :
    (configs : List Config) (c : Context)
    → IsSound c
    → Touches c.defconfig_rel c (enable_configs configs c)
unfolding enable_configs
enable_configs-Touches configs c h =
    Touches-defconfig (enable_in configs) c h
      (λ rel. unfold enable_in in Touches-read rel _ c h (λ t. edited-Choice rel _ _))
      c.defconfig_rel

-- `defconfig_drop_cmdline_token` leaves a sound context sound, and the path of the defconfig as
-- it is; unless it reports `applied`, raised or not, it has written nothing; and it changes the
-- text of no file but the defconfig and its backup.
pub drop_cmdline_token-Touches :
    (token : Text) (c : Context)
    → IsSound c
    → Touches c.defconfig_rel c (defconfig_drop_cmdline_token token c)
unfolding defconfig_drop_cmdline_token
drop_cmdline_token-Touches token c h =
    Touches-defconfig (drop_token_in token) c h
      (λ rel. unfold drop_token_in in Touches-read rel _ c h (λ t. dropped-Choice rel _ _))
      c.defconfig_rel
