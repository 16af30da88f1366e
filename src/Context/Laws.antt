-- ===== src/Context/Laws.antt =====
-- What the context shows of the tree, and how `read` and `write` change it.
use abk_5_15_backport.Prelude.{
  true, Option, none, some, ◌≡◌, refl, ◌∙◌, ap, arith, fun_ext, ◌≢◌, Option-cases, Bool-cases, inl,
  inr, sym,
}
use mathlib.Core.Path.{subst}
use abk_5_15_backport.Text.{Text, text_eq}
use abk_5_15_backport.Text.Find.{text_eq_iff}
use abk_5_15_backport.Result.{Result, ok, err}
use abk_5_15_backport.Disk.Laws.{write_text_frame}
use abk_5_15_backport.Disk.{backup_path, FilePath, Disk, update, read_text, write_text}
use abk_5_15_backport.Context.{Context, read, keep_text, write, written, mark_dirty}

-- What `read` returns: the cached text, or that of the file.
unfoldable pub view : Context → FilePath → Result Text
unfolding read_text
view c rel = elim (c.texts rel) [ none ↦ read_text c.disk rel | some text ↦ ok text ]

abbrev pub text_of : Result Text → Option Text
text_of (ok t) = some t
text_of (err e) = none

abbrev pub Tree : Type 0
Tree = FilePath → Option Text

-- The texts that a reader of the context can get.
unfoldable pub tree : Context → Tree
unfolding view
tree c rel = text_of (view c rel)

-- The later context differs from the earlier one by cached texts only, and no reader sees it.
pub record Reads (c d : Context) : Type 0 where
  pub disk : d.disk ≡ c.disk
  pub dirty : d.dirty ≡ c.dirty
  pub dry_run : d.dry_run ≡ c.dry_run
  pub defconfig_rel : d.defconfig_rel ≡ c.defconfig_rel
  pub views : (p : FilePath) → view d p ≡ view c p

pub Reads-refl : (c : Context) → Reads c c
Reads-refl c = record {
  disk = refl;
  dirty = refl;
  dry_run = refl;
  defconfig_rel = refl;
  views = λ p. refl;
}

pub Reads-trans : {c d e : Context} → Reads c d → Reads d e → Reads c e
Reads-trans r s = record {
  disk = s.disk ∙ r.disk;
  dirty = s.dirty ∙ r.dirty;
  dry_run = s.dry_run ∙ r.dry_run;
  defconfig_rel = s.defconfig_rel ∙ r.defconfig_rel;
  views = λ p. s.views p ∙ r.views p;
}

pub tree-Reads : {c d : Context} → Reads c d → tree d ≡ tree c
unfolding tree
tree-Reads r = fun_ext λ p. ap text_of (r.views p)

view-keep_text :
    (rel : FilePath) (r : Result Text) (c : Context) (p : FilePath)
    → c.texts rel ≡ none
    → read_text c.disk rel ≡ r
    → view (keep_text rel r c).1 p ≡ view c p
unfolding view keep_text update
view-keep_text rel (ok t) c p h e = elim (Bool-cases (text_eq rel p)) [
  | inl same ↦
      rw (same, view)
        (subst (λ q. ok t ≡ view c q) ((text_eq_iff rel p).0 same) (rw (h, view) (sym e)))
  | inr other ↦ rw (other, view) refl
]
view-keep_text rel (err x) c p h e = refl

pub read_result : (rel : FilePath) (c : Context) → (read rel c).0 ≡ view c rel
unfolding read view keep_text
read_result rel c = elim (Option-cases (c.texts rel)) [
  | inl e ↦ rw (e, read, view) (go (read_text c.disk rel))
  | inr (t, e) ↦ rw (e, read, view)
]
  where
    go : (r : Result Text) → (keep_text rel r c).0 ≡ r
    go (ok t) = refl
    go (err x) = refl

keep_text-Reads :
    (rel : FilePath) (r : Result Text) (c : Context)
    → c.texts rel ≡ none
    → read_text c.disk rel ≡ r
    → Reads c (keep_text rel r c).1
unfolding keep_text
keep_text-Reads rel (ok t) c h e = record {
  disk = refl;
  dirty = refl;
  dry_run = refl;
  defconfig_rel = refl;
  views = λ p. view-keep_text rel (ok t) c p h e;
}
keep_text-Reads rel (err x) c h e = Reads-refl c

-- Reading changes nothing that a reader or the disk can show.
pub read-Reads : (rel : FilePath) (c : Context) → Reads c (read rel c).1
unfolding read
read-Reads rel c = elim (Option-cases (c.texts rel)) [
  | inl e ↦ rw (e, read) (keep_text-Reads rel _ c e refl)
  | inr (t, e) ↦ rw (e, read) (Reads-refl c)
]

pub written_fields :
    (rel : FilePath) (c : Context) (r : Result (Unit {0}) × Disk)
    → ((written rel c r).0 ≡ r.0)
      × ((written rel c r).1.disk ≡ r.1)
      × ((written rel c r).1.texts ≡ c.texts)
      × ((written rel c r).1.dry_run ≡ c.dry_run)
unfolding written mark_dirty
written_fields rel c (ok u, d) = (refl, refl, refl, refl)
written_fields rel c (err e, d) = (refl, refl, refl, refl)

-- After a write that raises nothing, the tree shows the new text there, and the old one elsewhere
-- (the backup of the file apart, which may be new).
pub tree-write :
    (rel p : FilePath) (text : Text) (c : Context)
    → backup_path rel ≢ p
    → (write rel text c).0 ≡ ok tt
    → tree (write rel text c).1 p ≡ update (tree c) rel text p
unfolding tree view write update read_text
tree-write rel p text c k h = ground (
  arith,
  write_text_frame rel p text c.disk,
  text_eq_iff rel p,
  written_fields rel (record c { texts = update c.texts rel text })
      (write_text rel text true c.disk),
)
