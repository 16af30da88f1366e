-- ===== src/Context/Defconfig.antt =====
-- `GraftContext.enable_configs` and `GraftContext.defconfig_drop_cmdline_token` of
-- scripts/abk_backport_engine.py.
pub mod Lines
pub mod Honest
pub mod Token
pub mod Present
use abk_5_15_backport.Prelude.{
  ℕ, zero, suc, ◌+◌, Bool, true, false, not, ◌&&◌, ◌||◌, List, [], ◌∷◌, ◌++◌, Option, none, some,
  if◌then◌else◌, ◌==◌, leb, any, drop, length, is_some,
}
use abk_5_15_backport.Text.{
  Text, codes, text_eq, contains, starts_with, ends_with, strip_prefix, split, join,
}
use abk_5_15_backport.Text.Words.{words_from}
use abk_5_15_backport.Replace.{lf, crlf}
use abk_5_15_backport.Result.{Result, ok, err, Exec, ◌>>=◌, ◌>>◌, pure}
use abk_5_15_backport.Disk.{FilePath}
use abk_5_15_backport.Context.{Context, read, write}
use abk_5_15_backport.Steps.{
  Status, applied, already_present, report_only, blocked_by_missing_anchor,
}

-- A symbol without its `CONFIG_`, and its value.
abbrev pub Config : Type 0
Config = Text × Text

-- `a in lines`
unfoldable pub is_line : Text → List Text → Bool
unfolding text_eq
is_line a [] = false
is_line a (l ∷ lines) = text_eq l a || is_line a lines

unfoldable pub joiner_of : Text → Text
unfolding contains
joiner_of text = if contains crlf text then crlf else lf

abbrev pub config_marker : Text
config_marker = codes "# ABK stable_515_backport: config_enablement"

unfoldable pub target_of : Config → Text
target_of (name, value) = codes "CONFIG_" ++ (name ++ (codes "=" ++ value))

-- The line sets the symbol to another value, or says that it is not set.
unfoldable pub is_other : Config → Text → Bool
unfolding text_eq starts_with target_of
is_other (name, value) line =
    text_eq line (codes "# CONFIG_" ++ (name ++ codes " is not set"))
    || (starts_with (codes "CONFIG_" ++ (name ++ codes "=")) line
        && not (text_eq line (target_of (name, value))))

-- The first such line is rewritten.
unfoldable pub rewrite_line : Config → List Text → Option (List Text)
unfolding is_other target_of
rewrite_line config [] = none
rewrite_line config (l ∷ lines) =
    let rest = rewrite_line config lines in
    if is_other config l
    then some (target_of config ∷ lines)
    else elim rest [ none ↦ none | some more ↦ some (l ∷ more) ]

unfoldable pub append_line : Config → List Text → List Text
unfolding is_line target_of
append_line config lines =
    lines
    ++ ((if is_line config_marker lines then [] else [] ∷ config_marker ∷ [])
        ++ target_of config ∷ [])

-- The text, and how many lines were appended and rewritten.
pub record Edited : Type 0 where
  pub text : Text
  pub appended : ℕ
  pub rewritten : ℕ

unfoldable pub set_lines : Text → Config → Edited → List Text → Edited
unfolding is_line rewrite_line append_line join
set_lines joiner config e lines =
    if is_line (target_of config) lines then e else elim (rewrite_line config lines) [
      | none ↦ record {
        text = join joiner (append_line config lines);
        appended = e.appended + 1;
        rewritten = e.rewritten;
      }
      | some more ↦ record {
        text = join joiner more;
        appended = e.appended;
        rewritten = e.rewritten + 1;
      }
    ]

unfoldable pub set_configs : Text → List Config → Edited → Edited
unfolding set_lines split
set_configs joiner [] e = e
set_configs joiner (config ∷ configs) e =
    set_configs joiner configs (set_lines joiner config e (split joiner e.text))

unfoldable pub ended : Text → Text → Text
unfolding ends_with
ended joiner text = if ends_with joiner text then text else text ++ joiner

unfoldable pub write_edited : FilePath → Text → Edited → Exec Context Status
write_edited rel joiner e =
    if (e.appended == 0) && (e.rewritten == 0)
    then pure already_present
    else (do write rel (ended joiner e.text); pure applied)

unfoldable pub enable_in : List Config → FilePath → Exec Context Status
enable_in configs rel = do
  text ← read rel
  write_edited rel (joiner_of text)
      (set_configs (joiner_of text) configs (record { text = text; appended = 0; rewritten = 0 }))

unfoldable pub enable_configs : List Config → Exec Context Status
enable_configs configs c = elim c.defconfig_rel [
  | none ↦ (ok report_only, c)
  | some rel ↦ enable_in configs rel c
]

unfoldable pub without : Text → List Text → List Text
unfolding text_eq
without token [] = []
without token (t ∷ tokens) =
    let rest = without token tokens in if text_eq t token then rest else t ∷ rest

abbrev pub cmdline_head : Text
cmdline_head = codes "CONFIG_CMDLINE=\""

abbrev pub cmdline_tail : Text
cmdline_tail = codes "\""

-- `t[:-1]`
unfoldable pub but_last : Text → Text
but_last [] = []
but_last (c ∷ []) = []
but_last (c ∷ d ∷ t) = c ∷ but_last (d ∷ t)

unfoldable pub is_cmdline : Text → Bool
unfolding starts_with ends_with
is_cmdline line = starts_with cmdline_head line && ends_with cmdline_tail line

-- `line[len(head):-len(tail)].split()`
unfoldable pub tokens_of : Text → List Text
unfolding words_from but_last
tokens_of line = words_from [] (drop (length cmdline_head) (but_last line))

unfoldable pub drop_in_line : Text → Text → Text
unfolding is_cmdline tokens_of is_line without join
drop_in_line token line =
    if is_cmdline line && is_line token (tokens_of line)
    then cmdline_head ++ (join (codes " ") (without token (tokens_of line)) ++ cmdline_tail)
    else line

-- The lines, and whether a command line was seen and whether a token was dropped.
pub record Dropped : Type 0 where
  pub lines : List Text
  pub seen : Bool
  pub dropped : Bool

unfoldable pub drop_in_lines : Text → List Text → Dropped
unfolding drop_in_line is_cmdline is_line tokens_of
drop_in_lines token [] = record { lines = []; seen = false; dropped = false }
drop_in_lines token (l ∷ lines) =
    let rest = drop_in_lines token lines in
    record {
      lines = drop_in_line token l ∷ rest.lines;
      seen = is_cmdline l || rest.seen;
      dropped = (is_cmdline l && is_line token (tokens_of l)) || rest.dropped;
    }

unfoldable pub write_dropped : FilePath → Text → Dropped → Exec Context Status
write_dropped rel joiner d =
    if not d.seen
    then pure blocked_by_missing_anchor
    else if not d.dropped
    then pure already_present
    else (do write rel (join joiner d.lines); pure applied)

unfoldable pub drop_token_in : Text → FilePath → Exec Context Status
drop_token_in token rel = do
  text ← read rel
  write_dropped rel (joiner_of text) (drop_in_lines token (split (joiner_of text) text))

unfoldable pub defconfig_drop_cmdline_token : Text → Exec Context Status
defconfig_drop_cmdline_token token c = elim c.defconfig_rel [
  | none ↦ (ok report_only, c)
  | some rel ↦ drop_token_in token rel c
]
