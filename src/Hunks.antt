-- ===== src/Hunks.antt =====
-- tools/hunks.py: `parse_patch`, which lists the two sides of every hunk of a patch. The text is that
-- of the file; reading it and the printing of `main` are not modelled.
pub mod Fuel
pub mod Print
pub mod Parses
pub mod RoundTrip
use abk_5_15_backport.Prelude.{
  Bool, true, false, ◌||◌, ℕ, zero, suc, List, [], ◌∷◌, ◌++◌, Option, none, some, if◌then◌else◌,
  length, drop,
}
use abk_5_15_backport.Text.{Text, codes, starts_with, join}
use abk_5_15_backport.Text.Words.{words_from}
use abk_5_15_backport.Text.Lines.{splitlines}
use abk_5_15_backport.Replace.{lf}

pub record Hunk : Type 0 where
  pub file_path : Option Text
  pub header : Text
  pub old : Text
  pub new : Text

-- `none` of a missing `parts[2]` is an `IndexError`.
pub data Parsed : Type 0 where
  parsed : List Hunk → Parsed
  index_error out_of_fuel : Parsed

abbrev pub diff_head : Text
diff_head = codes "diff --git "

abbrev pub hunk_head : Text
hunk_head = codes "@@"

-- `line.split()[2]`
unfoldable pub third : List Text → Option Text
third (a ∷ b ∷ c ∷ parts) = some c
third _ = none

unfoldable pub path_of : Text → Text
unfolding starts_with
path_of part = if starts_with (codes "a/") part then drop 2 part else part

unfoldable pub ends_hunk : Text → Bool
unfolding starts_with
ends_hunk line = starts_with (codes "diff --git") line || starts_with hunk_head line

unfoldable pub note_old : Text → List Text → List Text
unfolding starts_with
note_old raw old =
    if starts_with (codes "+") raw
    then old
    else if starts_with (codes "-") raw
    then old ++ drop 1 raw ∷ []
    else if starts_with (codes " ") raw
    then old ++ drop 1 raw ∷ []
    else old

unfoldable pub note_new : Text → List Text → List Text
unfolding starts_with
note_new raw new =
    if starts_with (codes "+") raw
    then new ++ drop 1 raw ∷ []
    else if starts_with (codes "-") raw
    then new
    else if starts_with (codes " ") raw
    then new ++ drop 1 raw ∷ []
    else new

-- The inner loop: the lines of the two sides, and the lines that are left.
unfoldable pub take_body : List Text → List Text → List Text → (List Text × List Text) × List Text
unfolding ends_hunk note_old note_new
take_body old new [] = ((old, new), [])
take_body old new (raw ∷ lines) =
    let rest = take_body (note_old raw old) (note_new raw new) lines in
    if ends_hunk raw then ((old, new), raw ∷ lines) else rest

unfoldable pub hunk_of : Option Text → Text → List Text × List Text → Hunk
unfolding join
hunk_of file_path header (old, new) = record {
  file_path = file_path;
  header = header;
  old = join lf old;
  new = join lf new;
}

-- The loop over the lines that are left, `lines[i:]`.
unfoldable pub parse_loop : ℕ → Option Text → List Hunk → List Text → Parsed
unfolding starts_with third words_from path_of take_body hunk_of
parse_loop zero file_path hunks lines = out_of_fuel
parse_loop (suc fuel) file_path hunks [] = parsed hunks
parse_loop (suc fuel) file_path hunks (line ∷ lines) =
    let (sides, left) = take_body [] [] lines in
    let behind = parse_loop fuel file_path (hunks ++ hunk_of file_path line sides ∷ []) left in
    let next = parse_loop fuel file_path hunks lines in
    if starts_with diff_head line
    then elim (third (words_from [] line)) [
      | none ↦ index_error
      | some part ↦ parse_loop fuel (some (path_of part)) hunks lines
    ]
    else if starts_with hunk_head line
    then behind
    else next

-- One round for each line is enough.
unfoldable pub parse_patch : Text → Parsed
unfolding splitlines parse_loop
parse_patch text = let lines = splitlines text in parse_loop (suc (length lines)) none [] lines
