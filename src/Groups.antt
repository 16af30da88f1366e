-- ===== src/Groups.antt =====
-- `PatchGroup`, `shape_report` and `run_child` of scripts/abk_backport_engine.py. The report is the
-- returned value; its texts of details, its time stamp, the printing and the report files are not
-- modelled.
pub mod Guard
pub mod Child
pub mod Refusals
pub mod Compared
pub mod Watched
pub mod Preserve
pub mod DryRun
pub mod Reports
pub mod Acting
pub mod Probes
pub mod Aims
pub mod Planned
use abk_5_15_backport.Prelude.{
  Bool, true, false, not, ◌&&◌, ◌||◌, List, [], ◌∷◌, ◌++◌, Option, none, some, if◌then◌else◌, ℕ,
  ◌+◌, map, is_some,
}
use abk_5_15_backport.Text.{Text, text_eq}
use abk_5_15_backport.Result.{Error, system_exit, Result, ok, err, Exec, ◌>>=◌, pure, raise}
use abk_5_15_backport.Disk.{FilePath}
use abk_5_15_backport.Context.{
  Context, read, pending_writes, fdtable_upstream_shape, suite_fdtable_fallback, block_rolled_back,
}
use abk_5_15_backport.Steps.{
  Status, applied, partial, already_present, report_only, blocked_by_missing_anchor,
  blocked_by_shape, skip_suite_processed,
}

pub record PatchGroup : Type 0 where
  pub key : Text
  pub summary : Text
  pub commits : List Text
  pub files : List FilePath
  pub apply_fn : Exec Context Status
  pub hard : Bool

pub record GroupResult : Type 0 where
  pub key : Text
  pub summary : Text
  pub commits : List Text
  pub files : List FilePath
  pub status : Status

unfoldable pub result_of : PatchGroup → Status → GroupResult
result_of g st = record {
  key = g.key;
  summary = g.summary;
  commits = g.commits;
  files = g.files;
  status = st;
}

-- Every modelled exception is a `SystemExit`, an `OSError` or a `ValueError`.
unfoldable pub caught : PatchGroup → Result Status × Context → Result GroupResult × Context
unfolding result_of
caught g (ok st, c) = (ok (result_of g st), c)
caught g (err e, c) = if g.hard then (err e, c) else (ok (result_of g blocked_by_shape), c)

unfoldable pub run : PatchGroup → Exec Context GroupResult
run g c = caught g (g.apply_fn c)

-- `{rel: ctx.read(rel) for rel in paths}`
unfoldable pub read_all : List FilePath → Exec Context (List (FilePath × Text))
read_all [] = pure []
read_all (p ∷ paths) = do text ← read p; rest ← read_all paths; pure ((p, text) ∷ rest)

unfoldable pub lookup : FilePath → List (FilePath × Text) → Option Text
unfolding text_eq
lookup p [] = none
lookup p ((q, t) ∷ m) = if text_eq q p then some t else lookup p m

abbrev pub differs : Text → Option Text → Bool
differs t none = true
differs t (some u) = not (text_eq t u)

-- `[rel for rel in paths if ctx.read(rel) != before.get(rel, None)]`
unfoldable pub changed_paths : List (FilePath × Text) → List FilePath → Exec Context (List FilePath)
unfolding lookup
changed_paths before [] = pure []
changed_paths before (p ∷ paths) = do
  text ← read p
  rest ← changed_paths before paths
  pure (if differs text (lookup p before) then p ∷ rest else rest)

abbrev pub is_success : Status → Bool
is_success applied = true
is_success partial = true
is_success already_present = true
is_success _ = false

abbrev pub is_edit : Status → Bool
is_edit applied = true
is_edit partial = true
is_edit _ = false

abbrev pub is_nil : List FilePath → Bool
is_nil [] = true
is_nil (p ∷ ps) = false

-- A degraded group must not have written; an applied one must have.
unfoldable pub judge : GroupResult → List FilePath → Exec Context GroupResult
judge g changed c =
    if not (is_success g.status)
    then (if is_nil changed then (ok g, c) else (err system_exit, c))
    else if is_edit g.status && is_nil changed
    then (err system_exit, c)
    else (ok g, c)

unfoldable pub check : List (FilePath × Text) → GroupResult → Exec Context GroupResult
check before result c =
    (do changed ← changed_paths before (pending_writes c); judge result changed) c

-- One round of the loop over an enabled child.
unfoldable pub run_checked : PatchGroup → Exec Context GroupResult
run_checked g c = (do before ← read_all (pending_writes c); result ← run g; check before result) c

unfoldable pub run_group : Bool → PatchGroup → Exec Context GroupResult
unfolding result_of
run_group enabled g c = if enabled then run_checked g c else (ok (result_of g report_only), c)

unfoldable pub run_groups : Bool → List PatchGroup → Exec Context (List GroupResult)
run_groups enabled [] = pure []
run_groups enabled (g ∷ groups) = do
  result ← run_group enabled g
  rest ← run_groups enabled groups
  pure (result ∷ rest)

-- `[r["key"] for r in results if r["status"] in (…)]`
unfoldable pub applied_keys : List GroupResult → List Text
applied_keys [] = []
applied_keys (r ∷ results) =
    let rest = applied_keys results in if is_success r.status then r.key ∷ rest else rest

unfoldable pub status_eq : Status → Status → Bool
status_eq applied applied = true
status_eq partial partial = true
status_eq already_present already_present = true
status_eq report_only report_only = true
status_eq blocked_by_missing_anchor blocked_by_missing_anchor = true
status_eq blocked_by_shape blocked_by_shape = true
status_eq skip_suite_processed skip_suite_processed = true
status_eq _ _ = false

abbrev pub Summary : Type 0
Summary = List (Status × ℕ)

-- `summary[st] = summary.get(st, 0) + 1`
unfoldable pub bump : Status → Summary → Summary
unfolding status_eq
bump st [] = (st, 1) ∷ []
bump st ((s, n) ∷ m) =
    let rest = bump st m in if status_eq s st then (s, n + 1) ∷ m else (s, n) ∷ rest

unfoldable pub summarise : List GroupResult → Summary → Summary
unfolding bump
summarise [] m = m
summarise (r ∷ results) m = summarise results (bump r.status m)

pub record Shapes : Type 0 where
  pub fdtable_upstream : Bool
  pub suite_fallback : Bool
  pub block_is_rolled_back : Bool

unfoldable pub shape_report : Exec Context Shapes
shape_report = do
  upstream ← fdtable_upstream_shape
  suite ← suite_fdtable_fallback
  block ← block_rolled_back
  pure
      (record { fdtable_upstream = upstream; suite_fallback = suite; block_is_rolled_back = block })

unfoldable pub shapes_if : Bool → Exec Context (Option Shapes)
shapes_if true = do shapes ← shape_report; pure (some shapes)
shapes_if false = pure none

pub record Report : Type 0 where
  pub child : Text
  pub family : Text
  pub dry_run : Bool
  pub defconfig_writable : Bool
  pub shapes : Option Shapes
  pub pending : List FilePath
  pub applied_groups : List Text
  pub status_summary : Summary
  pub groups : List GroupResult

unfoldable pub report_of : Text → Option Shapes → List GroupResult → Context → Report
unfolding pending_writes applied_keys summarise
report_of child shapes results c = record {
  child = child;
  family = c.family;
  dry_run = c.dry_run;
  defconfig_writable = is_some c.defconfig_rel;
  shapes = shapes;
  pending = pending_writes c;
  applied_groups = applied_keys results;
  status_summary = summarise results [];
  groups = results;
}

unfoldable pub run_child : Text → List PatchGroup → Bool → Exec Context Report
run_child child groups enabled = do
  results ← run_groups enabled groups
  shapes ← shapes_if enabled
  λ c. (ok (report_of child shapes results c), c)
