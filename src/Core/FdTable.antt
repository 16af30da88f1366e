-- ===== src/Core/FdTable.antt =====
-- The group `fdtable_alloc_conventions` of scripts/abk_stable_core.py, the one that stops the run
-- where the shape of fs/file.c is not known.
pub mod Blocks
pub mod Shapes
pub mod Changed
use abk_5_15_backport.Prelude.{
  Bool, true, false, ◌&&◌, String, List, [], ◌∷◌, ◌++◌, Option, none, some, if◌then◌else◌,
}
use abk_5_15_backport.Text.{Text, codes, block, contains}
use abk_5_15_backport.Result.{Error, system_exit, Result, ok, err, Exec, ◌>>=◌, pure, raise}
use abk_5_15_backport.Disk.{FilePath}
use abk_5_15_backport.Context.{
  Context, fs_file, read, suite_touched, fdtable_upstream_shape, suite_fd_fallback_align,
}
use abk_5_15_backport.Steps.{
  Step, step, Status, already_present, skip_suite_processed, StepResults, apply_steps,
}
use abk_5_15_backport.Groups.{PatchGroup}
use abk_5_15_backport.Core.FdTable.Blocks.*

unfoldable pub suite_fallback_shape : Text → Bool
unfolding contains
suite_fallback_shape text =
    contains (codes "alloc_fdtable(unsigned int nr)") text
    && (contains (codes "unsigned int slots_wanted = abk_fdtable_slots_wanted(nr);") text
        && contains suite_fd_fallback_align text)

-- `"sane_fdtable_size(old_fdt, max_fds)" in text_probe`
unfoldable pub has_aosp_dup_fd : Text → Bool
unfolding contains
has_aosp_dup_fd text = contains (codes "sane_fdtable_size(old_fdt, max_fds)") text

abbrev pub fd_step : List String → List String → Step
fd_step old new = step "fs/file.c" old new true

unfoldable pub suite_composed_steps : Bool → List Step
suite_composed_steps dup_fd_aosp =
    fd_step fd_suite_doc_tail_old fd_doc_tail_new
    ∷ fd_step fd_suite_size_math_old fd_suite_size_math_new
    ∷ fd_step fd_suite_clamp_old fd_clamp_new
    ∷ fd_step fd_tail_old fd_tail_new
    ∷ fd_step fd_expand_call_old fd_expand_call_new
    ∷ fd_step fd_expand_check_old fd_expand_check_new
    ∷ (if dup_fd_aosp
        then fd_step fd_dupfd_aosp_old fd_dupfd_aosp_new
        else fd_step fd_dupfd_vanilla_old fd_dupfd_vanilla_new)
    ∷ (if dup_fd_aosp
        then fd_step fd_dupfd_label_old fd_dupfd_label_new
        else fd_step fd_dupfd_label_vanilla_old fd_dupfd_label_vanilla_new)
    ∷ (if dup_fd_aosp then [] else fd_step fd_dupfd_err_decl_old fd_dupfd_err_decl_new ∷ [])

-- The list `steps` with its two replaced entries and its inserted one.
unfoldable pub pristine_steps : Bool → List Step
pristine_steps dup_fd_aosp =
    fd_step fd_doc_tail_old fd_doc_tail_new
    ∷ fd_step fd_size_math_old fd_size_math_new
    ∷ fd_step fd_clamp_old fd_clamp_new
    ∷ fd_step fd_tail_old fd_tail_new
    ∷ fd_step fd_expand_call_old fd_expand_call_new
    ∷ fd_step fd_expand_check_old fd_expand_check_new
    ∷ (if dup_fd_aosp
        then fd_step fd_dupfd_aosp_old fd_dupfd_aosp_new
          ∷ fd_step fd_dupfd_label_old fd_dupfd_label_new
          ∷ []
        else fd_step fd_dupfd_vanilla_old fd_dupfd_vanilla_new
          ∷ fd_step fd_dupfd_label_vanilla_old fd_dupfd_label_vanilla_new
          ∷ fd_step fd_dupfd_err_decl_old fd_dupfd_err_decl_new
          ∷ [])

unfoldable pub composed_status : Option Status × StepResults → Exec Context Status
composed_status (none, results) = pure skip_suite_processed
composed_status (some st, results) = pure st

unfoldable pub pristine_status : Option Status × StepResults → Exec Context Status
pristine_status (none, results) = raise system_exit
pristine_status (some st, results) = pure st

-- What follows the two tests on the shape.
unfoldable pub fdtable_pristine : Text → Exec Context Status
fdtable_pristine text = do
  touched ← suite_touched fs_file
  if touched then pure skip_suite_processed else (do
    outcome ← apply_steps (pristine_steps (has_aosp_dup_fd text))
    pristine_status outcome)

unfoldable pub fdtable_probed : Text → Exec Context Status
fdtable_probed text =
    if suite_fallback_shape text
    then (do
      outcome ← apply_steps (suite_composed_steps (has_aosp_dup_fd text))
      composed_status outcome)
    else fdtable_pristine text

unfoldable pub fdtable_apply : Exec Context Status
fdtable_apply = do
  upstream ← fdtable_upstream_shape
  if upstream then pure already_present else (do text ← read fs_file; fdtable_probed text)

unfoldable pub fdtable_alloc_conventions : PatchGroup
fdtable_alloc_conventions = record {
  key = codes "fdtable_alloc_conventions";
  summary =
      block
        ("alloc_fdtable() slots_wanted/ERR_PTR conventions " ∷ "+ INT_MAX guard (5.15.191)" ∷ []);
  commits = codes "04a2c4b4511d (5.15.191)" ∷ codes "1d3b4bec3ce5 (5.15.191)" ∷ [];
  files = fs_file ∷ [];
  apply_fn = fdtable_apply;
  hard = true;
}
