-- ===== src/Installer/Block.antt =====
-- The installer block that scripts/ak3_bundle_ksu_module.py puts into anykernel.sh, and the names in
-- the archive.
use abk_5_15_backport.Prelude.{String, List, [], ◌∷◌, ◌++◌}
use abk_5_15_backport.Text.{Text, codes, block}

abbrev pub any_kernel_script : Text
any_kernel_script = codes "anykernel.sh"

abbrev pub bundle_dir : Text
bundle_dir = codes "abk-ksu-modules"

abbrev pub begin_marker : Text
begin_marker = codes "### >>> ABK 5.15 Runtime Tunables KernelSU module installer"

abbrev pub end_marker : Text
end_marker = codes "### <<< ABK 5.15 Runtime Tunables KernelSU module installer"

-- Between the two markers.
abbrev pub installer_body : List String
installer_body =
    " (managed by ABK_5.15_BACKPORT) >>>\n"
    ∷ "## Installs the runtime-tunables module shipped in abk-ksu-modules/, so that\n"
    ∷ "## flashing this AnyKernel3 zip also installs the policy that fixes the zram\n"
    ∷ "## algorithms and drives the recompression sweeps.  Additive and non-fatal: the\n"
    ∷ "## boot image is already written when this runs, so a failure only prints a\n"
    ∷ "## warning.\n" ∷ "if ! command -v ui_print >/dev/null 2>&1; then\n"
    ∷ "  ui_print() { echo \"$@\"; }\n" ∷ "fi\n" ∷ "\n" ∷ "abk_tu_install_ksu_modules() {\n"
    ∷ "  ABK_TU_HOME=\"${AKHOME:-$PWD}\"\n" ∷ "  ABK_TU_SRC=\"$ABK_TU_HOME/abk-ksu-modules\"\n"
    ∷ "  [ -d \"$ABK_TU_SRC\" ] || return 0\n" ∷ "  ABK_TU_UNZIP=\"unzip\"\n"
    ∷ "  [ -x \"$ABK_TU_HOME/tools/busybox\" ] && ABK_TU_UNZIP=\"$ABK_TU_HOME/tools/busybox unzip\"\n"
    ∷ "  for ABK_TU_ZIP in \"$ABK_TU_SRC\"/*.zip; do\n" ∷ "    [ -f \"$ABK_TU_ZIP\" ] || continue\n"
    ∷ "    ABK_TU_ID=\"$(basename \"$ABK_TU_ZIP\" .zip)\"\n" ∷ "    ABK_TU_VIA=\"\"\n"
    ∷ "    for ABK_TU_KSUD in /data/adb/ksud /data/adb/ksu/bin/ksud /data/adb/ap/bin/apd; do\n"
    ∷ "      [ -x \"$ABK_TU_KSUD\" ] || continue\n"
    ∷ "      if \"$ABK_TU_KSUD\" module install \"$ABK_TU_ZIP\" >/dev/null 2>&1; then\n"
    ∷ "        ABK_TU_VIA=\"$(basename \"$ABK_TU_KSUD\")\"\n" ∷ "        break\n" ∷ "      fi\n"
    ∷ "    done\n" ∷ "    if [ -z \"$ABK_TU_VIA\" ] && command -v magisk >/dev/null 2>&1; then\n"
    ∷ "      magisk --install-module \"$ABK_TU_ZIP\" >/dev/null 2>&1 && ABK_TU_VIA=\"magisk\"\n"
    ∷ "    fi\n" ∷ "    if [ -z \"$ABK_TU_VIA\" ] && [ -d /data/adb ]; then\n"
    ∷ "      ABK_TU_TARGET=\"/data/adb/modules/$ABK_TU_ID\"\n" ∷ "      rm -rf \"$ABK_TU_TARGET\"\n"
    ∷ "      mkdir -p \"$ABK_TU_TARGET\" 2>/dev/null\n"
    ∷ "      if $ABK_TU_UNZIP -o \"$ABK_TU_ZIP\" -d \"$ABK_TU_TARGET\" >/dev/null 2>&1; then\n"
    ∷ "        chmod 0755 \"$ABK_TU_TARGET\"/*.sh 2>/dev/null\n"
    ∷ "        [ -d \"$ABK_TU_TARGET/bin\" ] && chmod 0755 \"$ABK_TU_TARGET\"/bin/*.sh 2>/dev/null\n"
    ∷ "        ABK_TU_VIA=\"unpacked to /data/adb/modules\"\n" ∷ "      fi\n" ∷ "    fi\n"
    ∷ "    if [ -n \"$ABK_TU_VIA\" ]; then\n"
    ∷ "      ui_print \"  -> ABK Runtime Tunables: module $ABK_TU_ID installed via $ABK_TU_VIA\"\n"
    ∷ "    else\n"
    ∷ "      ui_print \"  -> ABK Runtime Tunables: WARNING could not install $ABK_TU_ID; flash that module zip manually\"\n"
    ∷ "    fi\n" ∷ "  done\n" ∷ "}\n" ∷ "\n"
    ∷ "abk_tu_install_ksu_modules || ui_print \"  -> ABK Runtime Tunables: install step skipped\"\n"
    ∷ "unset ABK_TU_HOME ABK_TU_SRC ABK_TU_UNZIP ABK_TU_ZIP ABK_TU_ID ABK_TU_VIA \\\n"
    ∷ "  ABK_TU_KSUD ABK_TU_TARGET 2>/dev/null\n" ∷ []

-- `INSTALLER_BLOCK.rstrip("\n")`
abbrev pub installer_block : Text
installer_block = begin_marker ++ (block installer_body ++ (end_marker ++ codes " <<<"))
