-- ===== src/Installer.antt =====
-- scripts/ak3_bundle_ksu_module.py: the installer block in anykernel.sh, and the archive with the
-- bundled module. The archive is the list of its entries; the zip format is a library's.
pub mod Block
pub mod Find
pub mod Script
pub mod Accepted
use abk_5_15_backport.Prelude.{
  Bool, true, false, not, ◌&&◌, ◌||◌, ℕ, zero, suc, ◌+◌, List, [], ◌∷◌, ◌++◌, Option, none, some,
  if◌then◌else◌, length, ◌==◌, leb,
}
use abk_5_15_backport.Text.{
  Text, codes, cut, contains, ends_with, replace_all, strip_prefix, starts_with,
}
use abk_5_15_backport.Text.Words.{is_space}
use abk_5_15_backport.Text.Lines.{strip_left}
use abk_5_15_backport.Replace.{lf, crlf}
use abk_5_15_backport.Installer.Block.{begin_marker, end_marker, installer_block}

-- `_BLOCK_PATTERN.search(text)`: what stands before the first match, within its two ends, and behind
-- it. No later begin has an end where the first has none.
unfoldable pub search_block : Text → Option (Text × Text × Text)
unfolding cut
search_block text = elim (cut begin_marker text) [
  | none ↦ none
  | some (before, rest) ↦ elim (cut (end_marker ++ codes " <<<") rest) [
    | none ↦ none
    | some (body, behind) ↦ some (before, body, behind)
  ]
]

-- `_BLOCK_PATTERN.sub(lambda _: new, text)`, for one match after the other.
unfoldable pub sub_blocks : ℕ → Text → Text → Text
unfolding search_block
sub_blocks zero new text = text
sub_blocks (suc fuel) new text = elim (search_block text) [
  | none ↦ text
  | some (before, body, behind) ↦ before ++ (new ++ sub_blocks fuel new behind)
]

unfoldable pub normalise : Text → Text
unfolding replace_all
normalise text = replace_all (replace_all text crlf lf) (codes "\r") lf

unfoldable pub separator : Text → Text
unfolding ends_with
separator text =
    if ends_with (codes "\n\n") text then [] else if ends_with lf text then lf else codes "\n\n"

unfoldable pub has_block : Text → Bool
unfolding search_block
has_block text = elim (search_block text) [ none ↦ false | some m ↦ true ]

-- A match has at least one character: one round for each character is enough.
unfoldable pub inject_script : Text → Text
unfolding normalise has_block sub_blocks separator
inject_script text =
    let t = normalise text in
    if has_block t
    then sub_blocks (suc (length t)) installer_block t
    else t ++ (separator t ++ (installer_block ++ lf))

-- `text.count(p)`, for `p` with at least one character
unfoldable pub count_from : ℕ → Text → Text → ℕ
unfolding cut
count_from zero p text = 0
count_from (suc fuel) p text = elim (cut p text) [
  | none ↦ 0
  | some (before, rest) ↦ suc (count_from fuel p rest)
]

unfoldable pub count : Text → Text → ℕ
unfolding count_from
count p text = count_from (suc (length text)) p text

-- `\s+[1-9]`
unfoldable pub has_failure_code : Text → Bool
unfolding strip_left
has_failure_code [] = false
has_failure_code (c ∷ t) = elim (strip_left (c ∷ t)) [
  | [] ↦ false
  | d ∷ rest ↦ is_space c && (leb 49 d && leb d 57)
]

-- `\s*exit\s+[1-9]`
unfoldable pub is_exit : Text → Bool
unfolding strip_left strip_prefix has_failure_code
is_exit t = elim (strip_prefix (codes "exit") (strip_left t)) [
  | none ↦ false
  | some rest ↦ has_failure_code rest
]

-- `re.search(r"^\s*exit\s+[1-9]", t, re.MULTILINE)`
unfoldable pub has_exit : Bool → Text → Bool
unfolding is_exit
has_exit at_start [] = false
has_exit at_start (c ∷ t) = (at_start && is_exit (c ∷ t)) || has_exit (c == 10) t

pub data Problem : Type 0 where
  not_one_block : Problem
  missing : Text → Problem
  enables_set_e aborts_flash : Problem

unfoldable pub missing_needles : List Text → Text → List Problem
unfolding contains
missing_needles [] body = []
missing_needles (needle ∷ needles) body =
    let rest = missing_needles needles body in
    if contains needle body then rest else missing needle ∷ rest

unfoldable pub body_problems : Text → List Problem
unfolding missing_needles contains has_exit
body_problems body =
    missing_needles
      (codes "module install" ∷ codes "magisk --install-module" ∷ codes "/data/adb/modules/" ∷ [])
      body
    ++ ((if contains (codes "\nset -e") body then enables_set_e ∷ [] else [])
        ++ (if has_exit true body then aborts_flash ∷ [] else []))

-- `None` where the `assert` on the match fails.
unfoldable pub check_anykernel_text : Text → Option (List Problem)
unfolding count search_block body_problems
check_anykernel_text text =
    if not (count begin_marker text == 1) || not (count end_marker text == 1)
    then some (not_one_block ∷ [])
    else elim (search_block text) [
      | none ↦ none
      | some (before, body, behind) ↦
          some (body_problems (begin_marker ++ (body ++ (end_marker ++ codes " <<<"))))
    ]
