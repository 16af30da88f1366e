-- ===== src/Tests/RollingBack.antt =====
-- A write, a child, and a rollback on the small tree.
use abk_5_15_backport.Prelude.{
  true, false, List, [], ◌∷◌, Option, none, some, ◌≡◌, refl, sym, ◌∙◌, ap, arith, inl, inr,
  Bool-cases, is_some,
}
use mathlib.Core.List.{Memᴰ, not-mem-nil, Nodup-cons, Nodup-nil}
use mathlib.Core.List.Memᴰ
use mathlib.Core.Path.{subst}
use abk_5_15_backport.Text.{
  codes, text_eq, strip_prefix, cut, contains, replace_first, split_from, split, join, replace_all,
  ends_with,
}
use abk_5_15_backport.Text.Find.{text_eq_iff}
use abk_5_15_backport.Replace.{
  to_lf, to_crlf, eol_variants, replace_variant, has_block, replace_once,
}
use abk_5_15_backport.Result.{ok}
use abk_5_15_backport.Disk.{
  FilePath, File, utf8, Disk, backup_path, update, read_bytes, decode, read_text, write_bytes,
  copy_to, snapshot, write_text,
}
use abk_5_15_backport.Context.{
  pending_writes, text_lt, add_path, keep_text, read, mark_dirty, written, write,
}
use abk_5_15_backport.Context.Sources.{is_snapshot, IsSource}
use abk_5_15_backport.Steps.{
  lookup, insert, missed, judge, absent, take_text, one_round, collect, write_changed,
  write_pending, count, summary, finish, apply_steps,
}
use abk_5_15_backport.Groups
use abk_5_15_backport.Groups.{
  result_of, caught, run, read_all, changed_paths, check, run_checked, run_group, run_groups,
}
use abk_5_15_backport.Groups.Guard.{or_blocked, apply_or_block, step_group}
use abk_5_15_backport.Rollback.{first_line, is_new_file, roll_back}
use abk_5_15_backport.Rollback.Reached.{untouched, wrote, HasNone}
use abk_5_15_backport.Rollback.Restores.{roll_back_restores}
use abk_5_15_backport.Rollback.PutBack.{Lists}
use abk_5_15_backport.Groups.Aims.{Aims, Aims-apply_or_block}
use abk_5_15_backport.Rollback.Child.{run_groups_rolled_back}
use abk_5_15_backport.Tests.{file_a, old_text, new_text, small_disk, only_a, small, small_spec}

abbrev backups : List FilePath
backups = codes "a.abk-orig" ∷ []

-- The file, and its snapshot behind it.
abbrev saved_disk : Disk
saved_disk = (write_text file_a new_text true small_disk).1

abbrev saved_files : FilePath → Option File
saved_files = update (update only_a (codes "a.abk-orig") (utf8 old_text)) file_a (utf8 new_text)

saved_same : saved_disk.file ≡ saved_files
unfolding write_text snapshot copy_to write_bytes read_bytes backup_path text_eq only_a update
saved_same = refl

small_free : (p : FilePath) → small_disk.locked p ≡ false
small_free p = refl

small_clean : HasNone small_disk
unfolding only_a is_snapshot ends_with text_eq
small_clean q s = ground (arith, text_eq_iff file_a q, ap is_snapshot)

text_of_only_a : (p : FilePath) (f : File) → only_a p ≡ some f → utf8 old_text ≡ f
unfolding only_a
text_of_only_a p f e = elim (Bool-cases (text_eq file_a p)) [
  | inl same ↦ some-injective (rw same at e)
  | inr other ↦ absurd (none-some (rw other at e))
]
  where
    some-injective : some (utf8 old_text) ≡ some f → utf8 old_text ≡ f
    some-injective x = cc

    none-some : none ≡ some f → ⊥
    none-some x = cc

small_unmarked :
    (p : FilePath) (f : File) → small_disk.file p ≡ some f → is_new_file (some f) ≡ false
unfolding is_new_file first_line text_eq
small_unmarked p f e = subst (λ g. is_new_file (some g) ≡ false) (text_of_only_a p f e) refl

saved-is_some :
    (q : FilePath) → is_snapshot q ≡ true → is_some (saved_files q) ≡ true → codes "a.abk-orig" ≡ q
unfolding update only_a is_snapshot ends_with text_eq
saved-is_some q s there =
    ground (arith, text_eq_iff file_a q, text_eq_iff (codes "a.abk-orig") q, ap is_snapshot)

snapshot_listed :
    (is_snapshot (codes "a.abk-orig") ≡ true) × (is_some (saved_files (codes "a.abk-orig")) ≡ true)
unfolding update is_snapshot ends_with text_eq
snapshot_listed = (refl, refl)

Lists-saved : (d : Disk) → d.file ≡ saved_files → Lists d backups
Lists-saved d e = record {
  listed = λ q m. elim (Memᴰ.cases_cons m) [
    | inl same ↦
        subst (λ r. (is_snapshot r ≡ true) × (is_some (d.file r) ≡ true)) (sym same)
          (rw e snapshot_listed)
    | inr none_left ↦ absurd (Memᴰ.not-nil none_left)
  ];
  found = λ q s there. Memᴰ.head (
      sym (saved-is_some q s (ap (λ (f : FilePath → Option File). is_some (f q)) (sym e) ∙ there)));
  once = Nodup-cons.1 (not-mem-nil, Nodup-nil);
}

aimed : is_snapshot file_a ≡ false
unfolding is_snapshot ends_with text_eq
aimed = refl

roll_back_restores_example :
    ((roll_back (codes "--apply") backups saved_disk).0 ≡ ok tt)
    × ((q : FilePath)
        → (roll_back (codes "--apply") backups saved_disk).1.file q ≡ small_disk.file q)
roll_back_restores_example =
    roll_back_restores small_disk saved_disk backups small_free small_clean small_unmarked
      (wrote small_disk file_a new_text untouched aimed) (Lists-saved saved_disk saved_same)

abbrev after_run : Disk
after_run = (run_groups true (step_group small_spec ∷ []) small).1.disk

run_same : after_run.file ≡ saved_files
unfolding strip_prefix cut contains replace_first split_from split join replace_all text_eq to_lf
    to_crlf eol_variants replace_variant has_block replace_once backup_path update read_bytes decode
    read_text write_bytes copy_to snapshot write_text text_lt add_path keep_text read mark_dirty
    written write lookup insert missed judge absent take_text one_round collect write_changed
    write_pending count summary finish apply_steps only_a pending_writes or_blocked apply_or_block
    step_group result_of caught run read_all Groups.lookup changed_paths Groups.judge check
    run_checked run_group run_groups
run_same = refl

Aims-small : Aims IsSource (step_group small_spec).apply_fn
unfolding step_group
Aims-small = Aims-apply_or_block IsSource small_spec.steps (aimed, (aimed, tt))

run_groups_rolled_back_example :
    ((roll_back (codes "--apply") backups after_run).0 ≡ ok tt)
    × ((q : FilePath)
        → (roll_back (codes "--apply") backups after_run).1.file q ≡ small.disk.file q)
run_groups_rolled_back_example =
    run_groups_rolled_back true (step_group small_spec ∷ []) small backups small_free small_clean
      small_unmarked (Aims-small, tt) (Lists-saved after_run run_same)
