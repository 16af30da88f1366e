-- ===== src/Hunks/RoundTrip.antt =====
-- A printed patch, parsed by `parse_patch` of tools/hunks.py.
use abk_5_15_backport.Prelude.{
  true, false, suc, List, [], ◌∷◌, ◌++◌, Option, none, some, ◌≡◌, refl, sym, arith, length, All,
  append_assoc, append-nil,
}
use mathlib.Core.Path.{subst}
use abk_5_15_backport.Text.{Text, starts_with, strip_prefix, join}
use abk_5_15_backport.Text.Lines.{unlines, HasNoEnd, splitlines-unlines}
use abk_5_15_backport.Hunks.{Hunk, parsed, diff_head, hunk_head, ends_hunk, hunk_of, parse_patch}
use abk_5_15_backport.Hunks.Print.{
  HunkText, FileDiff, print_hunks, print_files, hunks_of, sides_of, IsDiff,
}
use abk_5_15_backport.Hunks.Parses.{
  Stops, Parses, Parses-nil, Parses-skip, Parses-file, Parses-hunk,
}

Stops-print_files : (files : List FileDiff) → Stops (print_files files)
unfolding ends_hunk starts_with strip_prefix join
Stops-print_files [] = tt
Stops-print_files (f ∷ files) = refl

Stops-print_hunks :
    (hunks : List HunkText) (rest : List Text)
    → All (λ (h : HunkText). starts_with hunk_head h.header ≡ true) hunks
    → Stops rest
    → Stops (print_hunks hunks rest)
unfolding ends_hunk
Stops-print_hunks [] rest hs s = s
Stops-print_hunks (h ∷ hunks) rest (e, hs) s = ground (arith, e)

Parses-preface :
    (file_path : Option Text) (hunks : List Hunk) (preface rest : List Text) (r : List Hunk)
    → All (λ l. (starts_with diff_head l ≡ false) × (starts_with hunk_head l ≡ false)) preface
    → Parses file_path hunks rest r
    → Parses file_path hunks (preface ++ rest) r
Parses-preface file_path hunks [] rest r hs p = p
Parses-preface file_path hunks (l ∷ preface) rest r ((d, e), hs) p =
    Parses-skip file_path hunks l (preface ++ rest) r d e
      (Parses-preface file_path hunks preface rest r hs p)

Parses-hunks :
    (path : Text) (before : List Hunk) (hunks : List HunkText) (rest : List Text) (r : List Hunk)
    → All (λ (h : HunkText). starts_with hunk_head h.header ≡ true) hunks
    → Stops rest
    → Parses (some path) (before ++ hunks_of path hunks) rest r
    → Parses (some path) before (print_hunks hunks rest) r
unfolding hunk_of
Parses-hunks path before [] rest r hs s p =
    subst (λ b. Parses (some path) b rest r) (append-nil before) p
Parses-hunks path before (h ∷ hunks) rest r (e, hs) s p =
    Parses-hunk (some path) before h (print_hunks hunks rest) r e
      (Stops-print_hunks hunks rest hs s)
      (Parses-hunks path _ hunks rest r hs s (
        subst (λ b. Parses (some path) b rest r) (sym (append_assoc before _ (hunks_of path hunks)))
          p))

Parses-files :
    (file_path : Option Text) (before : List Hunk) (files : List FileDiff)
    → All IsDiff files
    → Parses file_path before (print_files files) (before ++ sides_of files)
Parses-files file_path before [] hs =
    subst (Parses file_path before []) (sym (append-nil before)) (Parses-nil file_path before)
Parses-files file_path before (f ∷ files) ((n, preface, heads), hs) =
    let rest = Parses-files (some f.path) (before ++ hunks_of f.path f.hunks) files hs in
    Parses-file file_path before f.path _ _ n (
      Parses-preface (some f.path) before f.preface _ _ preface (
        Parses-hunks f.path before f.hunks (print_files files) _ heads (Stops-print_files files) (
          subst (Parses (some f.path) (before ++ hunks_of f.path f.hunks) (print_files files))
            (append_assoc before (hunks_of f.path f.hunks) (sides_of files)) rest)))

-- A patch that is printed as `git diff` does, each file with its head line, lines before the hunks
-- that are no such head and no head of a hunk, and hunks of kept, removed and added lines, is
-- parsed into its hunks, in order, each with the path of its file, the kept and removed lines as
-- the old side, and the kept and added lines as the new one; where no line has a line end in it,
-- the paths no white space, and every hunk a head that begins with "@@".
pub parse_patch-print_files :
    (files : List FileDiff)
    → All IsDiff files
    → All HasNoEnd (print_files files)
    → parse_patch (unlines (print_files files)) ≡ parsed (sides_of files)
unfolding parse_patch
parse_patch-print_files files hs ends =
    rw (splitlines-unlines (print_files files) ends)
      ((Parses-files none [] files hs).run (suc (length (print_files files))) (omega arith))
