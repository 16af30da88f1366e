-- ===== src/Tests/Installing.antt =====
-- A script of one line, a module of two files, and its manifest.
use abk_5_15_backport.Prelude.{true, List, [], ◌∷◌, ◌++◌, some, ◌≡◌, refl, arith, All}
use abk_5_15_backport.Text.{
  Text, codes, text_eq, strip_prefix, cut, contains, starts_with, ends_with, split_from, split,
  join, replace_all,
}
use abk_5_15_backport.Text.Words.{is_space}
use abk_5_15_backport.Text.Lines.{
  universal_newlines, is_line_end, lines_from, splitlines, strip_left, is_blank, strip_right, strip,
}
use abk_5_15_backport.Result.{ok}
use abk_5_15_backport.Disk.{File, utf8, read_bytes, decode}
use abk_5_15_backport.Context.{text_lt}
use abk_5_15_backport.Installer.{normalise, inject_script, check_anykernel_text}
use abk_5_15_backport.Installer.Block.{begin_marker, installer_block}
use abk_5_15_backport.Installer.Script.{end_tail, inject_script_replaces, inject_script-twice}
use abk_5_15_backport.Installer.Accepted.{check_anykernel_text-inject_script}
use abk_5_15_backport.KsuModule.{
  Repository, ModuleSource, Embedded, Entry, find_file, text_of_file, is_in, embed, embed_line,
  embed_lines, embed_text, read_embed_manifest, mode_of, insert_by, sort_by, file_entries,
  embedded_entries, embedded_of, module_entries,
}
use abk_5_15_backport.KsuModule.Manifest.{IsSafe, read_embed_manifest-IsSafe}
use abk_5_15_backport.KsuModule.Entries.{IsArchive, module_entries-IsArchive}

abbrev script : Text
script = codes "flash_boot\n"

inject_script-twice_example : inject_script (inject_script script) ≡ inject_script script
unfolding normalise replace_all split split_from strip_prefix join contains cut
inject_script-twice_example = inject_script-twice script refl

check_anykernel_text-inject_script_example : check_anykernel_text (inject_script script) ≡ some []
unfolding normalise replace_all split split_from strip_prefix join contains cut
check_anykernel_text-inject_script_example = check_anykernel_text-inject_script script refl refl

inject_script_replaces_example :
    inject_script (codes "a" ++ 10 ∷ (begin_marker ++ (codes " old " ++ (end_tail ++ codes "\nb"))))
    ≡ (codes "a" ++ 10 ∷ []) ++ (installer_block ++ codes "\nb")
unfolding strip_prefix contains cut
inject_script_replaces_example =
    inject_script_replaces (codes "a") (codes " old ") (codes "\nb") refl refl refl refl

abbrev checkout : Repository
checkout = record {
  resolve = λ p. codes "/repo/" ++ p;
  is_inside = λ p. true;
  file = λ p. some (utf8 (codes "echo\n"));
}

abbrev module_files : List (Text × File)
module_files =
    (codes "module.prop", utf8 (codes "id=tunables\n"))
    ∷ (codes "embed.conf", utf8 (codes "# scripts\nscripts/x.sh = bin\\x.sh\n"))
    ∷ []

abbrev tunables : ModuleSource
tunables = record { name = codes "tunables"; files = module_files }

abbrev embedded : List Embedded
embedded = (codes "/repo/scripts/x.sh", codes "bin/x.sh") ∷ []

manifest_read : read_embed_manifest checkout tunables ≡ ok embedded
unfolding find_file text_eq text_of_file decode read_bytes embed_text splitlines universal_newlines
    lines_from is_line_end embed_lines strip strip_left strip_right is_blank is_space starts_with
    strip_prefix embed_line cut embed replace_all split split_from join is_in read_embed_manifest
manifest_read = refl

read_embed_manifest-IsSafe_example : All (IsSafe checkout) embedded
read_embed_manifest-IsSafe_example =
    read_embed_manifest-IsSafe checkout tunables embedded manifest_read

abbrev tunables_entries : List Entry
tunables_entries =
    record { name = codes "bin/x.sh"; data_of = utf8 (codes "echo\n"); mode = 493 }
    ∷ record {
      name = codes "embed.conf";
      data_of = utf8 (codes "# scripts\nscripts/x.sh = bin\\x.sh\n");
      mode = 420;
    }
    ∷ record { name = codes "module.prop"; data_of = utf8 (codes "id=tunables\n"); mode = 420 }
    ∷ []

entries_read : module_entries checkout tunables ≡ ok tunables_entries
unfolding find_file text_eq text_of_file decode read_bytes embed_text splitlines universal_newlines
    lines_from is_line_end embed_lines strip strip_left strip_right is_blank is_space starts_with
    strip_prefix embed_line cut embed replace_all split split_from join is_in read_embed_manifest
    mode_of ends_with insert_by sort_by file_entries embedded_entries embedded_of module_entries
    text_lt
entries_read = refl

module_entries-IsArchive_example : IsArchive tunables_entries
module_entries-IsArchive_example =
    module_entries-IsArchive checkout tunables tunables_entries
      (((λ x. absurd (ground arith)), tt), (tt, tt)) entries_read
