-- ===== src/Lib.antt =====
-- A model of the backport engine of this repository, and of the groups of edits that it applies.
--
-- The scripts edit a kernel tree by anchors. A step names a file, an old block of text and a new
-- one; `apply_steps` (scripts/abk_backport_engine.py) looks for all of them, and writes the files
-- that changed only if no required block is missing. A group is a list of steps with a title, and a
-- child runs its groups one after the other, under a guard that compares each group's report with
-- the files that it has changed, and returns a report.
--
-- Text        Python's `str`: `in`, `startswith`, `replace`, `split`, `join`
-- Replace     scripts/abk_common.py: `_eol_variants`, `replace_once`, `ensure_after`, `has_any`
-- Result      the exceptions, and actions on a state that may raise one
-- Disk        scripts/abk_common.py: `read_text`, `write_text` with its `.abk-orig` snapshots
-- Context     scripts/abk_backport_engine.py: `GraftContext`, its cache, its dirty set, its tests
--             (Context/Defconfig: its edits of the defconfig)
-- Steps       scripts/abk_backport_engine.py: `apply_steps`
-- Groups      scripts/abk_backport_engine.py: `PatchGroup.run`, `shape_report`, `run_child`
-- Core        scripts/abk_stable_core.py: the groups over fs/file.c and over the defconfig, groups
--             that are lists of steps, and groups that look for a marker first or after
-- Perf        scripts/abk_stable_perf.py: groups that are lists of steps, some behind a marker
-- Display     scripts/abk_stable_display.py: its group
-- Batch       groups of scripts/batch14, 30, 32, 47 and 71
-- Rollback    scripts/abk_rollback.sh: the snapshots are copied back
-- Hunks       tools/hunks.py: `parse_patch`
-- Installer   scripts/ak3_bundle_ksu_module.py: `inject_script`, `_check_anykernel_text`
-- KsuModule   scripts/build_ksu_module.py: the manifest of embedded files, `module_entries`
-- Tests       runs on small trees, and each result below at such an input
--
-- A text is the list of its code points. The tree on disk is a function from paths to files: a file
-- holds the UTF-8 encoding of a text, or bytes that are none, or cannot be read. A path may be
-- locked, and writing it raises then. An action takes the context and gives back a result or an
-- exception, and the context in both cases, so that what was done before a raise stays done. The
-- dicts of the source are association lists in insertion order, the dirty set its sorted list.
-- Most loops of the source run over a list that is there when they start, and are structural
-- recursion on it. `parse_loop` of Hunks runs on fuel, one round for each line and one more, which
-- is proved to be enough; `sub_blocks` and `count_from` of Installer have one round for each
-- character and one more, as every match takes at least one.
--
-- `tree c p` is the text at the path `p` that a reader of the context `c` gets, and `edit p steps`
-- the edit of a text by the steps for `p`, one `replace_once` after the other, with no notion of a
-- cache, of a file or of an order of writing. A context is sound where its cache agrees with the
-- disk (unless it is a dry run) and no path is locked. Two contexts agree for readers where the
-- disk, the dirty set and all texts are the same.
--
-- A group that comes with a change of the tree is a `Planned` one, whatever its function does to
-- find out whether to apply its steps. `sources c` is `tree c` without the snapshots. `Reached d0 d`
-- says that writes with a backup have made the disk `d` of `d0`, and `Lists d` that a list holds
-- every snapshot on `d` once. `Aims Target m` says that the action `m` is built of readings
-- and of writes to paths in `Target`: what both of them keep, it keeps. `lacks_anchor steps t` tells
-- from the tree `t` alone whether a required step misses its blocks or its file, and `Told st c d`
-- what the guard asks of a group that reports `st` between the contexts `c` and `d`.
--
-- Not modelled: the modes and times of files, the texts of the details and messages, the report
-- files, the printing, the parsing of arguments, the resolving of paths, a write that is cut off in
-- its middle, the groups that choose or check their steps in other ways, most of the batch modules,
-- the zip format, the shell scripts but the rollback, and the sources for the kernel.
pub mod Prelude
pub mod Text
pub mod Replace
pub mod Result
pub mod Disk
pub mod Context
pub mod Steps
pub mod Groups
pub mod Core
pub mod Perf
pub mod Display
pub mod Batch
pub mod Rollback
pub mod Hunks
pub mod Installer
pub mod KsuModule
pub mod Tests
