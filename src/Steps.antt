-- ===== src/Steps.antt =====
-- `apply_steps` of scripts/abk_backport_engine.py: the collecting loop, the writing loop, and the
-- status from the counts. The dict `pending` is an association list in insertion order. The texts
-- of the details are not modelled, the lists of results are.
pub mod Collect
pub mod Pending
pub mod Transaction
pub mod SecondPass
pub mod Degraded
pub mod Statuses
pub mod Sound
pub mod Refusal
use abk_5_15_backport.Prelude.{
  Bool, true, false, ◌&&◌, List, [], ◌∷◌, ◌++◌, Option, none, some, String, if◌then◌else◌, ℕ, zero,
  ◌+◌, ◌==◌, length, any,
}
use abk_5_15_backport.Text.{Text, text_eq, codes, block}
use abk_5_15_backport.Replace
use abk_5_15_backport.Replace.{StepStatus, missing_anchor, replace_once}
use abk_5_15_backport.Result.{Error, file_not_found, Result, ok, err, Exec, ◌>>=◌, ◌>>◌, pure}
use abk_5_15_backport.Disk.{FilePath}
use abk_5_15_backport.Context.{Context, read, write}

pub record Step : Type 0 where
  pub rel : FilePath
  pub old : Text
  pub new : Text
  pub required : Bool

-- A step with its blocks written line by line.
abbrev pub step : String → List String → List String → Bool → Step
step rel old new required = record {
  rel = codes rel;
  old = block old;
  new = block new;
  required = required;
}

pub data Status : Type 0 where
  applied partial already_present report_only : Status
  blocked_by_missing_anchor blocked_by_shape skip_suite_processed : Status

abbrev pub PendingTexts : Type 0
PendingTexts = List (FilePath × Text)

abbrev pub StepResults : Type 0
StepResults = List (FilePath × StepStatus)

unfoldable pub lookup : FilePath → PendingTexts → Option Text
unfolding text_eq
lookup p [] = none
lookup p ((q, t) ∷ m) = if text_eq q p then some t else lookup p m

-- `pending[rel] = text`
unfoldable pub insert : FilePath → Text → PendingTexts → PendingTexts
unfolding text_eq
insert p t [] = (p, t) ∷ []
insert p t ((q, u) ∷ m) =
    let rest = insert p t m in if text_eq q p then (q, t) ∷ m else (q, u) ∷ rest

abbrev pub get_or : Option Text → Text → Text
get_or none t = t
get_or (some t) u = t

-- What one round of the loop leaves: a return, or the dict and the results.
pub data Round : Type 0 where
  refused : StepResults → Round
  went_on : PendingTexts → StepResults → Round

unfoldable pub missed : Step → PendingTexts → StepResults → Round
missed s pending results =
    let noted = results ++ (s.rel, missing_anchor) ∷ [] in
    if s.required then refused noted else went_on pending noted

unfoldable pub judge : Step → PendingTexts → StepResults → Text × StepStatus → Round
judge s pending results (text, missing_anchor) = missed s pending results
judge s pending results (text, status) =
    went_on (insert s.rel text pending) (results ++ (s.rel, status) ∷ [])

-- An absent file returns with the results so far if the step is required.
unfoldable pub absent : Step → PendingTexts → StepResults → Round
absent s pending results =
    if s.required
    then refused results
    else went_on pending (results ++ (s.rel, missing_anchor) ∷ [])

unfoldable pub take_text : Step → PendingTexts → StepResults → Result Text → Result Round
take_text s pending results (ok text) =
    ok (judge s pending results (replace_once (get_or (lookup s.rel pending) text) s.old s.new))
take_text s pending results (err (file_not_found p)) = ok (absent s pending results)
take_text s pending results (err e) = err e

unfoldable pub one_round : Step → PendingTexts → StepResults → Exec Context Round
one_round s pending results c = let (r, c') = read s.rel c in (take_text s pending results r, c')

unfoldable pub collect : List Step → PendingTexts → StepResults → Exec Context Round
collect [] pending results c = (ok (went_on pending results), c)
collect (s ∷ steps) pending results c =
    let (r, c') = one_round s pending results c in
    elim r [
      | err e ↦ (err e, c')
      | ok round ↦ elim round [
        | refused noted ↦ (ok (refused noted), c')
        | went_on more noted ↦ collect steps more noted c'
      ]
    ]

-- `if text != ctx.read(rel): ctx.write(rel, text)`
unfoldable pub write_changed : FilePath → Text → Exec Context (Unit {0})
write_changed rel text = do
  current ← read rel
  if text_eq text current then pure tt else write rel text

unfoldable pub write_pending : PendingTexts → Exec Context (Unit {0})
write_pending [] c = (ok tt, c)
write_pending ((rel, text) ∷ pending) c =
    let (r, c') = write_changed rel text c in
    elim r [ err e ↦ (err e, c') | ok u ↦ write_pending pending c' ]

abbrev pub is_applied : FilePath × StepStatus → Bool
is_applied (p, Replace.applied) = true
is_applied (p, s) = false

abbrev pub is_present : FilePath × StepStatus → Bool
is_present (p, Replace.already_present) = true
is_present (p, s) = false

abbrev pub is_missing : FilePath × StepStatus → Bool
is_missing (p, missing_anchor) = true
is_missing (p, s) = false

unfoldable pub count : (FilePath × StepStatus → Bool) → StepResults → ℕ
count test [] = 0
count test (r ∷ results) = (if test r then 1 else 0) + count test results

unfoldable pub summary : StepResults → Status
unfolding count
summary results =
    if (count is_applied results == 0) && (count is_present results == 0)
    then blocked_by_missing_anchor
    else if (count is_applied results == 0) && (count is_present results == length results)
    then already_present
    else if any is_missing results
    then partial
    else applied

-- `None` is the status of a missing required anchor.
unfoldable pub finish : Round → Exec Context (Option Status × StepResults)
finish (refused results) = pure (none, results)
finish (went_on pending results) = do write_pending pending; pure (some (summary results), results)

unfoldable pub apply_steps : List Step → Exec Context (Option Status × StepResults)
apply_steps steps = do round ← collect steps [] []; finish round
