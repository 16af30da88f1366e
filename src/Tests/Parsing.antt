-- ===== src/Tests/Parsing.antt =====
-- A patch of one file and one hunk.
use abk_5_15_backport.Prelude.{[], ◌∷◌, ◌≡◌, ◌≢◌, refl}
use abk_5_15_backport.Text.{codes, strip_prefix, starts_with, join}
use abk_5_15_backport.Text.Words.{is_space}
use abk_5_15_backport.Text.Lines.{is_line_end, unlines}
use abk_5_15_backport.Hunks.{parsed, out_of_fuel, parse_patch}
use abk_5_15_backport.Hunks.Fuel.{parse_patch-total}
use abk_5_15_backport.Hunks.Print.{FileDiff, kept, removed, added, print_files, sides_of, IsDiff}
use abk_5_15_backport.Hunks.RoundTrip.{parse_patch-print_files}

abbrev one_diff : FileDiff
one_diff = record {
  path = codes "mm/swap.c";
  preface = codes "--- a/mm/swap.c" ∷ codes "+++ b/mm/swap.c" ∷ [];
  hunks =
      record {
        header = codes "@@ -1,2 +1,2 @@";
        changes = kept (codes "x") ∷ removed (codes "y") ∷ added (codes "z") ∷ [];
      }
      ∷ [];
}

one_diff-IsDiff : IsDiff one_diff
unfolding is_space starts_with strip_prefix
one_diff-IsDiff = (refl, ((refl, refl), ((refl, refl), tt)), (refl, tt))

parse_patch-print_files_example :
    parse_patch (unlines (print_files (one_diff ∷ []))) ≡ parsed (sides_of (one_diff ∷ []))
unfolding is_line_end join
parse_patch-print_files_example =
    parse_patch-print_files (one_diff ∷ []) (one_diff-IsDiff, tt)
      (refl, (refl, (refl, (refl, (refl, (refl, (refl, tt)))))))

parse_patch-total_example : parse_patch (codes "diff --git \n") ≢ out_of_fuel
parse_patch-total_example = parse_patch-total (codes "diff --git \n")
