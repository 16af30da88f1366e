-- ===== src/Groups/Probes.antt =====
-- The ways in which the functions of the groups in scripts/abk_stable_core.py and
-- scripts/abk_stable_perf.py look at the tree before they apply their steps, and after a required
-- anchor is missing.
pub mod Acts
use abk_5_15_backport.Prelude.{
  Bool, true, false, ◌&&◌, List, [], ◌∷◌, Option, none, some, if◌then◌else◌,
}
use abk_5_15_backport.Text.{Text, contains}
use abk_5_15_backport.Result.{Error, file_not_found, Result, ok, err, Exec, ◌>>=◌, pure}
use abk_5_15_backport.Disk.{FilePath}
use abk_5_15_backport.Context.{Context, read}
use abk_5_15_backport.Steps.{
  Step, Status, already_present, blocked_by_shape, StepResults, apply_steps,
}
use abk_5_15_backport.Groups.Guard.{apply_or_block}

unfoldable pub or_empty : Result Text → Result Text
or_empty (ok text) = ok text
or_empty (err (file_not_found p)) = ok []
or_empty (err e) = err e

-- `try: … ctx.read(rel)`, and `except FileNotFoundError: … ""`
unfoldable pub read_or_empty : FilePath → Exec Context Text
unfolding or_empty read
read_or_empty rel c = let (r, c') = read rel c in (or_empty r, c')

-- A group that is there already where its marker is.
unfoldable pub probed_apply : FilePath → Text → List Step → Exec Context Status
unfolding read_or_empty contains apply_or_block
probed_apply rel marker steps = do
  text ← read_or_empty rel
  if contains marker text then pure already_present else apply_or_block steps

unfoldable pub has_all : List Text → Text → Bool
unfolding contains
has_all [] text = true
has_all (needle ∷ needles) text = contains needle text && has_all needles text

unfoldable pub superseded : FilePath → List Text → Option Status × StepResults → Exec Context Status
unfolding read has_all
superseded rel needles (none, results) = do
  text ← read rel
  pure (if has_all needles text then already_present else blocked_by_shape)
superseded rel needles (some st, results) = pure st

-- A group whose anchors a later one has replaced, where the traces of that one are in a file.
unfoldable pub superseded_apply : FilePath → List Text → List Step → Exec Context Status
unfolding superseded
superseded_apply rel needles steps = do outcome ← apply_steps steps; superseded rel needles outcome

-- A read of which an absent file is a refusal, and of which any other exception is one too.
abbrev pub Refusal : Type 0
Refusal = Error → Bool

abbrev pub is_absent : Refusal
is_absent (file_not_found p) = true
is_absent e = false

unfoldable pub read_result_or_block :
    Refusal → (Text → Exec Context Status) → Result Text → Exec Context Status
read_result_or_block refusal body (ok text) c = body text c
read_result_or_block refusal body (err e) c =
    if refusal e then (ok blocked_by_shape, c) else (err e, c)

-- `try: text = ctx.read(rel)`, with `except …: return "blocked_by_shape", …`, and what follows.
unfoldable pub read_or_block :
    Refusal → FilePath → (Text → Exec Context Status) → Exec Context Status
unfolding read read_result_or_block
read_or_block refusal rel body c =
    let (r, c') = read rel c in read_result_or_block refusal body r c'

-- A list of probes that must be in the text.
unfoldable pub requiring : Text → List Text → Exec Context Status → Exec Context Status
unfolding has_all
requiring text probes body = if has_all probes text then body else pure blocked_by_shape
