-- ===== src/Tests/Grouping.antt =====
-- A child of one group on the small tree.
use abk_5_15_backport.Prelude.{
  true, false, List, [], ◌∷◌, none, some, ◌≡◌, ◌≢◌, refl, ◌++◌, arith, map, if◌then◌else◌, String,
}
use abk_5_15_backport.Text.{
  Text, codes, block, text_eq, strip_prefix, cut, contains, replace_first, split_from, split, join,
  replace_all,
}
use abk_5_15_backport.Replace
use abk_5_15_backport.Replace.{
  to_lf, to_crlf, eol_variants, replace_variant, has_block, replace_once,
}
use abk_5_15_backport.Result.{system_exit, ok, err}
use abk_5_15_backport.Disk.{
  backup_path, utf8, update, read_bytes, decode, read_text, write_bytes, copy_to, snapshot,
  write_text,
}
use abk_5_15_backport.Context.{
  Context, pending_writes, text_lt, add_path, keep_text, read, mark_dirty, written, write, fs_file,
}
use abk_5_15_backport.Context.Laws.{tree, Reads}
use abk_5_15_backport.Steps
use abk_5_15_backport.Steps.{
  StepResults, is_applied, lookup, insert, missed, judge, absent, take_text, one_round, collect,
  write_changed, write_pending, count, summary, finish, apply_steps,
}
use abk_5_15_backport.Steps.Collect.{edit}
use abk_5_15_backport.Groups
use abk_5_15_backport.Groups.{
  report_of, run_child, summarise, PatchGroup, GroupResult, result_of, caught, run, read_all,
  changed_paths, check, run_checked, run_group, run_groups,
}
use abk_5_15_backport.Groups.Guard.{
  StepSpec, or_blocked, apply_or_block, step_group, RunDid, run-RunDid,
}
use abk_5_15_backport.Groups.Watched.{Told, run_checked-Told}
use abk_5_15_backport.Groups.Refusals.{run_checked_rerun}
use abk_5_15_backport.Batch.Aimed.{batch_groups, batch_groups-Aims}
use abk_5_15_backport.Groups.Aims.{Aims, Aims-apply_or_block}
use abk_5_15_backport.Groups.DryRun.{run_groups_dry}
use abk_5_15_backport.Groups.Reports.{
  reported, occurrences, summarise-occurrences, run_child_disabled,
}
use abk_5_15_backport.Groups.Child.{accepted, run_groups-edit}
use abk_5_15_backport.Groups.Acting.{edit_all}
use abk_5_15_backport.Groups.Probes.{or_empty, read_or_empty, probed_apply}
use abk_5_15_backport.Groups.Probes.Acts.{ActsAs-probed_apply}
use abk_5_15_backport.Groups.Planned.{
  Planned, planned_steps, planned_as, groups_of, changes, run_groups-changes,
}
use abk_5_15_backport.Context.Sources.{sources}
use abk_5_15_backport.Context.Coherent.{IsSound}
use abk_5_15_backport.Core.FdTable.Blocks.{
  fd_doc_tail_old, fd_size_math_old, fd_clamp_old, fd_tail_old, fd_expand_call_old,
  fd_expand_check_old, fd_dupfd_aosp_old, fd_dupfd_label_old,
}
use abk_5_15_backport.Core.FdTable.{fdtable_apply}
use abk_5_15_backport.Core.FdTable.Shapes.{plan, Acted, fdtable_apply-Acted}
use abk_5_15_backport.Tests.{
  file_a, done_step, optional_step, small, only_a, small_spec, small-IsSound, unread-IsSound,
}

abbrev small_result : GroupResult
small_result = record {
  key = codes "k";
  summary = codes "s";
  commits = [];
  files = file_a ∷ [];
  status = Steps.partial;
}

runs :
    ((run_checked (step_group small_spec) small).0 ≡ ok small_result)
    × ((run_groups true (map step_group (small_spec ∷ [])) small).0 ≡ ok (small_result ∷ []))
unfolding strip_prefix cut contains replace_first split_from split join replace_all text_eq to_lf
    to_crlf eol_variants replace_variant has_block replace_once backup_path update read_bytes decode
    read_text write_bytes copy_to snapshot write_text text_lt add_path keep_text read mark_dirty
    written write lookup insert missed judge absent take_text one_round collect write_changed
    write_pending count summary finish apply_steps only_a pending_writes or_blocked apply_or_block
    step_group result_of caught run read_all Groups.lookup changed_paths Groups.judge check
    run_checked run_group run_groups
runs = (refl, refl)

ne : backup_path file_a ≢ file_a
unfolding backup_path
ne x = absurd (ground arith)

run-RunDid_example : RunDid small_spec small (run (step_group small_spec) small)
run-RunDid_example = run-RunDid small_spec small small-IsSound

run_checked-Told_example : Told Steps.partial small (run_checked (step_group small_spec) small).1
run_checked-Told_example = run_checked-Told (step_group small_spec) small small_result runs.0

run_groups-edit_example :
    tree (run_groups true (map step_group (small_spec ∷ [])) small).1 file_a
    ≡ edit file_a (accepted (small_spec ∷ []) (small_result ∷ [])) (tree small file_a)
run_groups-edit_example =
    run_groups-edit (small_spec ∷ []) small (small_result ∷ []) file_a small-IsSound
      ((ne, (ne, tt)), tt) runs.1

-- One new block is there, and one optional anchor is missing.
abbrev done_spec : StepSpec
done_spec = record {
  key = codes "k";
  summary = codes "s";
  commits = [];
  files = file_a ∷ [];
  steps = done_step ∷ optional_step ∷ [];
}

abbrev done_notes : StepResults
done_notes = (file_a, Replace.already_present) ∷ (file_a, Replace.missing_anchor) ∷ []

done_run : (apply_steps done_spec.steps small).0 ≡ ok (some Steps.partial, done_notes)
unfolding strip_prefix cut contains replace_first split_from split join replace_all text_eq to_lf
    to_crlf eol_variants replace_variant has_block replace_once update read_bytes decode read_text
    keep_text read lookup insert missed judge absent take_text one_round collect write_changed
    write_pending count summary finish apply_steps only_a
done_run = refl

none_applied : count is_applied done_notes ≡ 0
unfolding count
none_applied = refl

run_checked_rerun_example :
    ((run_checked (step_group done_spec) small).0 ≡ err system_exit)
    × Reads small (run_checked (step_group done_spec) small).1
run_checked_rerun_example = run_checked_rerun done_spec small done_notes refl done_run none_applied

-- The pristine file, as far as the steps read it.
abbrev fd_text : Text
fd_text = block (
    fd_doc_tail_old
    ++ (fd_size_math_old
        ++ (fd_clamp_old
            ++ (fd_tail_old ++ (fd_expand_call_old ++ (fd_expand_check_old ++ fd_tail))))))
  where
    fd_tail : List String
    fd_tail = fd_dupfd_aosp_old ++ fd_dupfd_label_old

abbrev fd_tree : Context
fd_tree = record small {
  disk = record {
    file = λ p. if text_eq fs_file p then some (utf8 fd_text) else none;
    locked = λ p. false;
  };
}

fd_tree-IsSound : IsSound fd_tree
fd_tree-IsSound = unread-IsSound fd_tree (λ p. refl) (λ p. refl)

fdtable_apply-Acted_example : Acted (plan (tree fd_tree fs_file)) fd_tree (fdtable_apply fd_tree)
fdtable_apply-Acted_example = fdtable_apply-Acted fd_tree fd_tree-IsSound

abbrev dry : Context
dry = record small { dry_run = true }

Aims-small : Aims (λ _. Unit {0}) (step_group small_spec).apply_fn
unfolding step_group
Aims-small = Aims-apply_or_block (λ _. Unit {0}) small_spec.steps (tt, (tt, tt))

run_groups_dry_example :
    (run_groups true (step_group small_spec ∷ batch_groups) dry).1.disk ≡ dry.disk
run_groups_dry_example =
    run_groups_dry true (step_group small_spec ∷ batch_groups) dry refl
      (Aims-small, batch_groups-Aims (λ _. Unit {0}) tt tt tt)

run_child_disabled_example : run_child (codes "c") (step_group small_spec ∷ []) false small ≡ (
  ok (
      report_of
        (codes "c")
        none
        (map (λ g. result_of g Steps.report_only) (step_group small_spec ∷ []))
        small),
  small,
)
run_child_disabled_example = run_child_disabled (codes "c") (step_group small_spec ∷ []) small

summarise-occurrences_example :
    reported Steps.partial (summarise (small_result ∷ small_result ∷ []) [])
    ≡ occurrences Steps.partial (small_result ∷ small_result ∷ [])
summarise-occurrences_example =
    summarise-occurrences Steps.partial (small_result ∷ small_result ∷ [])

-- A group that is there already, once the first group has put in its marker.
abbrev marked_group : PatchGroup
marked_group = record {
  key = codes "m";
  summary = codes "s";
  commits = [];
  files = file_a ∷ [];
  apply_fn = probed_apply file_a (codes "z") (optional_step ∷ []);
  hard = false;
}

abbrev marked_result : GroupResult
marked_result = record {
  key = codes "m";
  summary = codes "s";
  commits = [];
  files = file_a ∷ [];
  status = Steps.already_present;
}

abbrev planned : List Planned
planned =
    planned_steps small_spec
    ∷ planned_as marked_group (edit_all (optional_step ∷ []))
        (ActsAs-probed_apply file_a (codes "z") (optional_step ∷ []))
    ∷ []

planned_run : (run_groups true (groups_of planned) small).0 ≡ ok (small_result ∷ marked_result ∷ [])
unfolding strip_prefix cut contains replace_first split_from split join replace_all text_eq to_lf
    to_crlf eol_variants replace_variant has_block replace_once backup_path update read_bytes decode
    read_text write_bytes copy_to snapshot write_text text_lt add_path keep_text read mark_dirty
    written write lookup insert missed judge absent take_text one_round collect write_changed
    write_pending count summary finish apply_steps only_a pending_writes or_blocked apply_or_block
    step_group result_of caught run read_all Groups.lookup changed_paths Groups.judge check
    run_checked run_group run_groups or_empty read_or_empty probed_apply
planned_run = refl

run_groups-changes_example :
    (sources (run_groups true (groups_of planned) small).1
      ≡ changes planned (small_result ∷ marked_result ∷ []) (sources small))
    × IsSound (run_groups true (groups_of planned) small).1
run_groups-changes_example =
    run_groups-changes planned small (small_result ∷ marked_result ∷ []) small-IsSound planned_run
