-- ===== src/Context.antt =====
-- `GraftContext` of scripts/abk_backport_engine.py: the cache of texts over the tree, the set of the
-- files written, and the shape tests. `Path.resolve` is not code of the repository: the defconfig's
-- path below the tree, if it has one, is given with the context.
pub mod Laws
pub mod Coherent
pub mod Reading
pub mod Failures
pub mod Defconfig
pub mod Sources
use abk_5_15_backport.Prelude.{
  Bool, true, false, not, ◌&&◌, ◌||◌, List, [], ◌∷◌, Option, none, some, if◌then◌else◌, ltb, ◌==◌,
  ℕ,
}
use abk_5_15_backport.Text.{Text, codes, text_eq, contains}
use abk_5_15_backport.Replace.{has_any}
use abk_5_15_backport.Result.{Result, ok, err, Exec, ◌>>=◌, pure}
use abk_5_15_backport.Disk.{FilePath, Disk, update, read_text, write_text}

pub record Context : Type 0 where
  pub disk : Disk
  pub texts : FilePath → Option Text
  pub dirty : List FilePath
  pub block_shape : Option Bool
  pub dry_run : Bool
  pub family : Text
  pub defconfig : Option FilePath
  pub defconfig_rel : Option FilePath

-- Python's order on texts: by code points, a prefix first.
unfoldable pub text_lt : Text → Text → Bool
text_lt [] [] = false
text_lt [] (d ∷ t) = true
text_lt (c ∷ s) [] = false
text_lt (c ∷ s) (d ∷ t) = let rest = text_lt s t in if c == d then rest else ltb c d

-- `self._dirty.add(rel)`: the set is kept as its sorted list.
unfoldable pub add_path : FilePath → List FilePath → List FilePath
unfolding text_eq text_lt
add_path p [] = p ∷ []
add_path p (q ∷ qs) =
    let rest = add_path p qs in
    if text_eq p q then q ∷ qs else if text_lt p q then p ∷ q ∷ qs else q ∷ rest

-- `sorted(self._dirty)`
unfoldable pub pending_writes : Context → List FilePath
pending_writes c = c.dirty

unfoldable pub keep_text : FilePath → Result Text → Exec Context Text
unfolding update
keep_text rel (ok text) c = (ok text, record c { texts = update c.texts rel text })
keep_text rel (err e) c = (err e, c)

unfoldable pub read : FilePath → Exec Context Text
unfolding keep_text read_text
read rel c = elim (c.texts rel) [
  | none ↦ keep_text rel (read_text c.disk rel) c
  | some text ↦ (ok text, c)
]

unfoldable pub mark_dirty : FilePath → Context → Context
unfolding add_path
mark_dirty rel c = record c { dirty = add_path rel c.dirty }

unfoldable pub written : FilePath → Context → Result (Unit {0}) × Disk → Result (Unit {0}) × Context
unfolding mark_dirty
written rel c (ok u, d) = (ok u, mark_dirty rel (record c { disk = d }))
written rel c (err e, d) = (err e, record c { disk = d })

-- The cache changes first, then the disk, and the file counts as written if nothing was raised.
unfoldable pub write : FilePath → Text → Exec Context (Unit {0})
unfolding update written mark_dirty
write rel text c =
    let cached = record c { texts = update c.texts rel text } in
    if c.dry_run
    then (ok tt, mark_dirty rel cached)
    else written rel cached (write_text rel text true c.disk)

abbrev pub suite_feature_marker : Text
suite_feature_marker = codes "/* ABK feature_porting:"

abbrev pub suite_security_marker : Text
suite_security_marker = codes "/* ABK security_update_backport:"

abbrev pub suite_fd_fallback_align : Text
suite_fd_fallback_align = codes "nr = ALIGN(slots_wanted, BITS_PER_LONG)"

abbrev pub suite_fd_helper : Text
suite_fd_helper = codes "abk_fdtable_slots_wanted"

abbrev pub f2fs_block_monthly_sentinel : Text
f2fs_block_monthly_sentinel = codes "delayed_work_pending(&hctx->run_work)"

abbrev pub fs_file : FilePath
fs_file = codes "fs/file.c"

unfoldable pub suite_touched : FilePath → Exec Context Bool
unfolding read has_any
suite_touched rel = do
  text ← read rel
  pure (has_any text (suite_feature_marker ∷ suite_security_marker ∷ suite_fd_helper ∷ []))

unfoldable pub suite_fdtable_fallback : Exec Context Bool
unfolding read contains
suite_fdtable_fallback = do
  text ← read fs_file
  pure (contains suite_fd_fallback_align text || contains suite_fd_helper text)

unfoldable pub keep_block_shape : Bool → Exec Context Bool
keep_block_shape b c = (ok b, record c { block_shape = some b })

unfoldable pub block_rolled_back : Exec Context Bool
unfolding read contains keep_block_shape
block_rolled_back c = elim c.block_shape [
  | none ↦
      (do
        text ← read (codes "block/blk-mq.c")
        keep_block_shape (not (contains f2fs_block_monthly_sentinel text)))
        c
  | some b ↦ (ok b, c)
]

unfoldable pub fdtable_upstream_shape : Exec Context Bool
unfolding read contains
fdtable_upstream_shape = do
  text ← read fs_file
  pure (
      if not (contains (codes "alloc_fdtable(unsigned int slots_wanted)") text)
      then false
      else if contains suite_fd_fallback_align text
      then false
      else contains (codes "roundup_pow_of_two(slots_wanted)") text)
