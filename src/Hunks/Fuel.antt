-- ===== src/Hunks/Fuel.antt =====
-- `parse_patch` of tools/hunks.py returns.
use abk_5_15_backport.Prelude.{
  Bool, true, false, ℕ, zero, suc, ◌≤◌, ◌<◌, List, [], ◌∷◌, ◌++◌, Option, none, some, if◌then◌else◌,
  ◌≢◌, arith, length,
}
use abk_5_15_backport.Text.{Text, starts_with}
use abk_5_15_backport.Text.Words.{words_from}
use abk_5_15_backport.Text.Lines.{splitlines}
use abk_5_15_backport.Hunks.{
  Hunk, index_error, out_of_fuel, diff_head, hunk_head, third, path_of, note_old, note_new,
  take_body, hunk_of, parse_loop, parse_patch,
}

take_body_le : (old new lines : List Text) → length (take_body old new lines).1 ≤ length lines
unfolding take_body
take_body_le old new [] = omega arith
take_body_le old new (raw ∷ lines) =
    ground (arith, take_body_le (note_old raw old) (note_new raw new) lines)

parse_loop-total :
    (fuel : ℕ) (file_path : Option Text) (hunks : List Hunk) (lines : List Text)
    → length lines < fuel
    → parse_loop fuel file_path hunks lines ≢ out_of_fuel
unfolding parse_loop
parse_loop-total zero file_path hunks lines h = absurd (omega arith)
parse_loop-total (suc fuel) file_path hunks [] h = cc
parse_loop-total (suc fuel) file_path hunks (line ∷ lines) h =
    branch (λ fp hs ls k. parse_loop-total fuel fp hs ls k) (third (words_from [] line))
      (starts_with diff_head line) (starts_with hunk_head line)
  where
    branch :
        ((fp : Option Text) (hs : List Hunk) (ls : List Text)
          → length ls < fuel
          → parse_loop fuel fp hs ls ≢ out_of_fuel)
        → (o : Option Text) (b b' : Bool)
        → (if b
            then elim o [
              | none ↦ index_error
              | some part ↦ parse_loop fuel (some (path_of part)) hunks lines
            ]
            else if b'
            then parse_loop fuel file_path
                (hunks ++ hunk_of file_path line (take_body [] [] lines).0 ∷ [])
                (take_body [] [] lines).1
            else parse_loop fuel file_path hunks lines)
          ≢ out_of_fuel
    branch ih none true b' = cc
    branch ih (some part) true b' = ih (some (path_of part)) hunks lines (omega arith)
    branch ih o false true = ih _ _ _ (omega (arith, take_body_le [] [] lines))
    branch ih o false false = ih _ _ _ (omega arith)

-- `parse_patch` comes to an end on every text: it gives the hunks, or raises the `IndexError` of a
-- line "diff --git" without a path.
pub parse_patch-total : (text : Text) → parse_patch text ≢ out_of_fuel
unfolding parse_patch
parse_patch-total text =
    parse_loop-total (suc (length (splitlines text))) none [] (splitlines text) (omega arith)
