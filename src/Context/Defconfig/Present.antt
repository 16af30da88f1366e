-- ===== src/Context/Defconfig/Present.antt =====
-- Enabling symbols that are set already.
use abk_5_15_backport.Prelude.{true, List, [], ◌∷◌, Option, none, some, ◌≡◌, refl, ◌∙◌, ap, All}
use abk_5_15_backport.Text.{Text, split}
use abk_5_15_backport.Result.{Result, ok, Exec, continue}
use abk_5_15_backport.Disk.{FilePath}
use abk_5_15_backport.Context.{Context, read}
use abk_5_15_backport.Context.Laws.{tree, Reads, read_result, read-Reads}
use abk_5_15_backport.Steps.{Status, already_present, report_only}
use abk_5_15_backport.Steps.SecondPass.{view_of_tree}
use abk_5_15_backport.Context.Defconfig.{
  Config, is_line, joiner_of, target_of, Edited, set_lines, set_configs, write_edited, enable_in,
  enable_configs,
}

set_configs_present :
    (joiner : Text) (configs : List Config) (e : Edited)
    → All (λ k. is_line (target_of k) (split joiner e.text) ≡ true) configs
    → set_configs joiner configs e ≡ e
unfolding set_configs set_lines
set_configs_present joiner [] e h = refl
set_configs_present joiner (k ∷ configs) e (p, h) =
    let same : set_lines joiner k e (split joiner e.text) ≡ e = rw (p, set_lines) refl in
    ap (set_configs joiner configs) same ∙ set_configs_present joiner configs e h

-- Where there is a defconfig below the tree whose text has a line for each symbol with its
-- value, `enable_configs` returns `already_present` and writes nothing.
pub enable_configs_present :
    (configs : List Config) (c : Context) (rel : FilePath) (t : Text)
    → c.defconfig_rel ≡ some rel
    → tree c rel ≡ some t
    → All (λ k. is_line (target_of k) (split (joiner_of t) t) ≡ true) configs
    → ((enable_configs configs c).0 ≡ ok already_present) × Reads c (enable_configs configs c).1
unfolding enable_configs enable_in write_edited
enable_configs_present configs c rel t here e h = rw whole (refl, read-Reads rel c)
  where
    start : Edited
    start = record { text = t; appended = 0; rewritten = 0 }

    known : (read rel c).0 ≡ ok t
    known = read_result rel c ∙ view_of_tree c rel t e

    probed : Text → Exec Context Status
    probed text =
        write_edited rel (joiner_of text) (
          set_configs (joiner_of text) configs
            (record { text = text; appended = 0; rewritten = 0 }))

    whole : enable_configs configs c ≡ (ok already_present, (read rel c).1)
    whole =
        ap
          (λ (o : Option FilePath). elim o [
            | none ↦ (ok report_only, c)
            | some rel ↦ enable_in configs rel c
          ])
          here
        ∙ ap (λ (r : Result Text). continue r probed (read rel c).1) known
        ∙ ap (λ (x : Edited). write_edited rel (joiner_of t) x (read rel c).1)
            (set_configs_present (joiner_of t) configs start h)
