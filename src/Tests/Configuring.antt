-- ===== src/Tests/Configuring.antt =====
-- Edits of a small defconfig.
use abk_5_15_backport.Prelude.{true, false, List, [], ◌∷◌, some, ◌≡◌, refl}
use abk_5_15_backport.Text.{
  Text, codes, text_eq, strip_prefix, cut, contains, starts_with, ends_with, split_from, split,
  join,
}
use abk_5_15_backport.Replace.{lf}
use abk_5_15_backport.Result.{ok}
use abk_5_15_backport.Disk.{
  utf8, update, backup_path, read_bytes, decode, read_text, write_bytes, copy_to, snapshot,
  write_text,
}
use abk_5_15_backport.Context.{
  Context, text_lt, add_path, keep_text, read, mark_dirty, written, write,
}
use abk_5_15_backport.Context.Laws.{tree, view, Reads}
use abk_5_15_backport.Context.Coherent.{IsSound}
use abk_5_15_backport.Steps.{applied, already_present}
use abk_5_15_backport.Text.Words.{is_space, words_from}
use abk_5_15_backport.Context.Defconfig.{
  Config, Edited, is_line, joiner_of, target_of, is_other, rewrite_line, append_line, set_lines,
  set_configs, ended, write_edited, enable_in, enable_configs, without, but_last, is_cmdline,
  tokens_of, drop_in_line, drop_in_lines, write_dropped, drop_token_in,
  defconfig_drop_cmdline_token,
}
use abk_5_15_backport.Context.Defconfig.Lines.{Sets, set_lines-Sets}
use abk_5_15_backport.Context.Defconfig.Honest.{
  Touches, enable_configs-Touches, drop_cmdline_token-Touches,
}
use abk_5_15_backport.Context.Defconfig.Present.{enable_configs_present}
use abk_5_15_backport.Context.Defconfig.Token.{drop_in_line-tokens_of}
use abk_5_15_backport.Core.Config.{Switches, config_enablement_apply}
use abk_5_15_backport.Core.Config.Tiers.{Tuned, config_enablement_apply-Tuned}
use abk_5_15_backport.Tests.{file_a, small, unread-IsSound}

abbrev config_text : Text
config_text = codes "CONFIG_A=y\n# CONFIG_B is not set\nCONFIG_CMDLINE=\"a b\"\n"

abbrev config_tree : Context
config_tree = record small {
  disk = record { file = λ p. some (utf8 config_text); locked = λ p. false };
  defconfig_rel = some file_a;
}

config_tree-IsSound : IsSound config_tree
config_tree-IsSound = unread-IsSound config_tree (λ p. refl) (λ p. refl)

abbrev set_a : Config
set_a = (codes "A", codes "y")

abbrev set_b : Config
set_b = (codes "B", codes "m")

abbrev start : Edited
start = record { text = config_text; appended = 0; rewritten = 0 }

-- A symbol that is set, one that is not, and a token.
runs :
    ((enable_configs (set_a ∷ set_b ∷ []) config_tree).0 ≡ ok applied)
    × (tree (enable_configs (set_a ∷ set_b ∷ []) config_tree).1 file_a
        ≡ some (codes "CONFIG_A=y\nCONFIG_B=m\nCONFIG_CMDLINE=\"a b\"\n"))
    × (tree (defconfig_drop_cmdline_token (codes "a") config_tree).1 file_a
        ≡ some (codes "CONFIG_A=y\n# CONFIG_B is not set\nCONFIG_CMDLINE=\"b\"\n"))
unfolding text_eq strip_prefix cut contains starts_with split_from split join update backup_path
    read_bytes decode read_text write_bytes copy_to snapshot write_text text_lt add_path keep_text
    read mark_dirty written write tree view is_line joiner_of target_of is_other rewrite_line
    append_line set_lines set_configs ends_with ended write_edited enable_in enable_configs is_space
    words_from without but_last is_cmdline tokens_of drop_in_line drop_in_lines write_dropped
    drop_token_in defconfig_drop_cmdline_token
runs = (refl, refl, refl)

set_lines-Sets_example :
    (after : List Text) × ((set_lines lf set_b start (split lf config_text)).text ≡ join lf after)
    × Sets set_b (split lf config_text) after
set_lines-Sets_example = set_lines-Sets 10 [] set_b start

enable_configs-Touches_example :
    Touches config_tree.defconfig_rel config_tree (enable_configs (set_a ∷ set_b ∷ []) config_tree)
enable_configs-Touches_example =
    enable_configs-Touches (set_a ∷ set_b ∷ []) config_tree config_tree-IsSound

drop_cmdline_token-Touches_example :
    Touches config_tree.defconfig_rel config_tree
      (defconfig_drop_cmdline_token (codes "a") config_tree)
drop_cmdline_token-Touches_example =
    drop_cmdline_token-Touches (codes "a") config_tree config_tree-IsSound

there :
    (tree config_tree file_a ≡ some config_text)
    × (is_line (target_of set_a) (split (joiner_of config_text) config_text) ≡ true)
unfolding tree view read_text read_bytes decode is_line target_of joiner_of split split_from
    strip_prefix contains cut text_eq
there = (refl, refl)

enable_configs_present_example :
    ((enable_configs (set_a ∷ []) config_tree).0 ≡ ok already_present)
    × Reads config_tree (enable_configs (set_a ∷ []) config_tree).1
enable_configs_present_example =
    enable_configs_present (set_a ∷ []) config_tree file_a config_text refl there.0 (there.1, tt)

abbrev cmdline_text : Text
cmdline_text = codes "CONFIG_CMDLINE=\"a b\""

seen : is_cmdline cmdline_text ≡ true
unfolding is_cmdline starts_with strip_prefix ends_with text_eq
seen = refl

drop_in_line-tokens_of_example :
    (is_cmdline (drop_in_line (codes "a") cmdline_text) ≡ true)
    × (tokens_of (drop_in_line (codes "a") cmdline_text)
        ≡ without (codes "a") (tokens_of cmdline_text))
    × (is_line (codes "a") (tokens_of (drop_in_line (codes "a") cmdline_text)) ≡ false)
drop_in_line-tokens_of_example = drop_in_line-tokens_of (codes "a") cmdline_text seen

abbrev all_on : Switches
all_on = record { align = true; rom = true; psi = true }

config_enablement_apply-Tuned_example :
    Tuned config_tree (config_enablement_apply all_on config_tree)
config_enablement_apply-Tuned_example =
    config_enablement_apply-Tuned all_on config_tree config_tree-IsSound
