-- ===== src/Hunks/Print.antt =====
-- Patches as `git diff` writes them, and the hunks that `parse_patch` of tools/hunks.py is to find.
use abk_5_15_backport.Prelude.{true, false, List, [], ◌∷◌, ◌++◌, some, ◌≡◌, map, All}
use abk_5_15_backport.Text.{Text, codes, starts_with, join}
use abk_5_15_backport.Text.Words.{HasNoSpace}
use abk_5_15_backport.Replace.{lf}
use abk_5_15_backport.Hunks.{Hunk, diff_head, hunk_head}

-- A line of a hunk.
pub data Change : Type 0 where
  kept removed added : Text → Change

pub record HunkText : Type 0 where
  pub header : Text
  pub changes : List Change

-- The part of a patch about one file: `preface` holds the lines before its hunks.
pub record FileDiff : Type 0 where
  pub path : Text
  pub preface : List Text
  pub hunks : List HunkText

abbrev pub print_change : Change → Text
print_change (kept t) = 32 ∷ t
print_change (removed t) = 45 ∷ t
print_change (added t) = 43 ∷ t

abbrev pub old_lines : List Change → List Text
old_lines [] = []
old_lines (kept t ∷ changes) = t ∷ old_lines changes
old_lines (removed t ∷ changes) = t ∷ old_lines changes
old_lines (added t ∷ changes) = old_lines changes

abbrev pub new_lines : List Change → List Text
new_lines [] = []
new_lines (kept t ∷ changes) = t ∷ new_lines changes
new_lines (removed t ∷ changes) = new_lines changes
new_lines (added t ∷ changes) = t ∷ new_lines changes

abbrev pub diff_line : Text → Text
diff_line path =
    join (codes " ")
      (codes "diff" ∷ codes "--git" ∷ (codes "a/" ++ path) ∷ (codes "b/" ++ path) ∷ [])

abbrev pub print_hunks : List HunkText → List Text → List Text
print_hunks [] rest = rest
print_hunks (h ∷ hunks) rest = h.header ∷ map print_change h.changes ++ print_hunks hunks rest

abbrev pub print_files : List FileDiff → List Text
print_files [] = []
print_files (f ∷ files) = diff_line f.path ∷ f.preface ++ print_hunks f.hunks (print_files files)

abbrev pub hunks_of : Text → List HunkText → List Hunk
hunks_of path [] = []
hunks_of path (h ∷ hunks) =
    record {
      file_path = some path;
      header = h.header;
      old = join lf (old_lines h.changes);
      new = join lf (new_lines h.changes);
    }
    ∷ hunks_of path hunks

abbrev pub sides_of : List FileDiff → List Hunk
sides_of [] = []
sides_of (f ∷ files) = hunks_of f.path f.hunks ++ sides_of files

-- A path without white space, lines before the hunks that are no head of a file or of a hunk, and
-- hunks with a head.
abbrev pub IsDiff : FileDiff → Type 0
IsDiff f =
    HasNoSpace f.path
    × All (λ l. (starts_with diff_head l ≡ false) × (starts_with hunk_head l ≡ false)) f.preface
    × All (λ (h : HunkText). starts_with hunk_head h.header ≡ true) f.hunks
