-- ===== src/Core/Misc.antt =====
-- The file descriptor, zsmalloc and arm64 groups of scripts/abk_stable_core.py that are plain lists of
-- steps.
use abk_5_15_backport.Prelude.{true, List, [], ◌∷◌}
use abk_5_15_backport.Text.{codes, block}
use abk_5_15_backport.Steps.{Step, step}
use abk_5_15_backport.Groups.Guard.{StepSpec}

-- The steps of `_replace_fd_errno_apply`.
unfoldable pub replace_fd_errno_steps : List Step
replace_fd_errno_steps =
    step "fs/file.c" ("\treturn do_dup2(files, file, fd, flags);\n" ∷ [])
      ("\terr = do_dup2(files, file, fd, flags);\n" ∷ "\tif (err < 0)\n" ∷ "\t\treturn err;\n"
        ∷ "\treturn 0;\n" ∷ [])
      true
    ∷ []

unfoldable pub replace_fd_errno : StepSpec
replace_fd_errno = record {
  key = codes "fdtable_replace_fd_errno";
  summary =
      block ("replace_fd() returns 0 instead of do_dup2()'s positive fd (5.15." ∷ "195)" ∷ []);
  commits = (codes "ff8ec0dbe0150 (5.15.195)") ∷ [];
  files = (codes "fs/file.c") ∷ [];
  steps = replace_fd_errno_steps;
}

-- The steps of `_zsmalloc_chain_size_apply`.
unfoldable pub zsmalloc_chain_size_steps : List Step
zsmalloc_chain_size_steps =
    step "mm/Kconfig"
      ("config ZSMALLOC_STAT\n" ∷ "\tbool \"Export zsmalloc statistics\"\n"
        ∷ "\tdepends on ZSMALLOC\n" ∷ "\tselect DEBUG_FS\n" ∷ "\thelp\n"
        ∷ "\t  This option enables code in the zsmalloc to collect various\n"
        ∷ "\t  statistics about what's happening in zsmalloc and exports that\n"
        ∷ "\t  information to userspace via debugfs.\n" ∷ "\t  If unsure, say N.\n" ∷ [])
      ("config ZSMALLOC_STAT\n" ∷ "\tbool \"Export zsmalloc statistics\"\n"
        ∷ "\tdepends on ZSMALLOC\n" ∷ "\tselect DEBUG_FS\n" ∷ "\thelp\n"
        ∷ "\t  This option enables code in the zsmalloc to collect various\n"
        ∷ "\t  statistics about what's happening in zsmalloc and exports that\n"
        ∷ "\t  information to userspace via debugfs.\n" ∷ "\t  If unsure, say N.\n" ∷ "\n"
        ∷ "config ZSMALLOC_CHAIN_SIZE\n" ∷ "\tint \"Maximum number of physical pages per-zspage\"\n"
        ∷ "\tdefault 8\n" ∷ "\trange 4 16\n" ∷ "\tdepends on ZSMALLOC\n" ∷ "\thelp\n"
        ∷ "\t  This option sets the upper limit on the number of physical pages\n"
        ∷ "\t  that a zmalloc page (zspage) can consist of. The optimal zspage\n"
        ∷ "\t  chain size is calculated for each size class during the\n"
        ∷ "\t  initialization of the pool.\n" ∷ [])
      true
    ∷ step "mm/zsmalloc.c"
        ("/*\n" ∷ " * A single 'zspage' is composed of up to 2^N discontiguous 0-order (single)\n"
          ∷ " * pages. ZS_MAX_ZSPAGE_ORDER defines upper limit on N.\n" ∷ " */\n"
          ∷ "#define ZS_MAX_ZSPAGE_ORDER 2\n"
          ∷ "#define ZS_MAX_PAGES_PER_ZSPAGE (_AC(1, UL) << ZS_MAX_ZSPAGE_ORDER)\n" ∷ [])
        ("/*\n" ∷ " * A single 'zspage' is composed of up to N discontiguous 0-order (single)\n"
          ∷ " * pages.  CONFIG_ZSMALLOC_CHAIN_SIZE bounds N; the class sizing pass picks\n"
          ∷ " * the chain length that wastes the least space per object, so the higher\n"
          ∷ " * ceiling is what pays back internal fragmentation in small classes.\n" ∷ " *\n"
          ∷ " * ABK stable_515_backport: zsmalloc chain size (android15-6.6 / 6.2)\n" ∷ " */\n"
          ∷ "#define ZS_MAX_PAGES_PER_ZSPAGE\t(_AC(CONFIG_ZSMALLOC_CHAIN_SIZE, UL))\n" ∷ [])
        true
    ∷ step "mm/zsmalloc.c"
        ("static int get_pages_per_zspage(int class_size)\n" ∷ "{\n" ∷ "\tint i, max_usedpc = 0;\n"
          ∷ "\t/* zspage order which gives maximum used size per KB */\n"
          ∷ "\tint max_usedpc_order = 1;\n" ∷ "\n"
          ∷ "\tfor (i = 1; i <= ZS_MAX_PAGES_PER_ZSPAGE; i++) {\n" ∷ "\t\tint zspage_size;\n"
          ∷ "\t\tint waste, usedpc;\n" ∷ "\n" ∷ "\t\tzspage_size = i * PAGE_SIZE;\n"
          ∷ "\t\twaste = zspage_size % class_size;\n"
          ∷ "\t\tusedpc = (zspage_size - waste) * 100 / zspage_size;\n" ∷ "\n"
          ∷ "\t\tif (usedpc > max_usedpc) {\n" ∷ "\t\t\tmax_usedpc = usedpc;\n"
          ∷ "\t\t\tmax_usedpc_order = i;\n" ∷ "\t\t}\n" ∷ "\t}\n" ∷ "\n"
          ∷ "\treturn max_usedpc_order;\n" ∷ "}\n" ∷ [])
        ("static int calculate_zspage_chain_size(int class_size)\n" ∷ "{\n"
          ∷ "\tint i, min_waste = INT_MAX;\n" ∷ "\tint chain_size = 1;\n" ∷ "\n"
          ∷ "\t/* ABK stable_515_backport: pick the chain with the least hard waste */\n"
          ∷ "\tif (is_power_of_2(class_size))\n" ∷ "\t\treturn chain_size;\n" ∷ "\n"
          ∷ "\tfor (i = 1; i <= ZS_MAX_PAGES_PER_ZSPAGE; i++) {\n" ∷ "\t\tint waste;\n" ∷ "\n"
          ∷ "\t\twaste = (i * PAGE_SIZE) % class_size;\n" ∷ "\t\tif (waste < min_waste) {\n"
          ∷ "\t\t\tmin_waste = waste;\n" ∷ "\t\t\tchain_size = i;\n" ∷ "\t\t}\n" ∷ "\t}\n" ∷ "\n"
          ∷ "\treturn chain_size;\n" ∷ "}\n" ∷ [])
        true
    ∷ step "mm/zsmalloc.c" ("\t\tpages_per_zspage = get_pages_per_zspage(size);\n" ∷ [])
        ("\t\tpages_per_zspage = calculate_zspage_chain_size(size);\n" ∷ []) true
    ∷ step "mm/zsmalloc.c" ("#define ISOLATED_BITS\t3\n" ∷ []) ("#define ISOLATED_BITS\t5\n" ∷ [])
        true
    ∷ []

unfoldable pub zsmalloc_chain_size : StepSpec
zsmalloc_chain_size = record {
  key = codes "zsmalloc_chain_size";
  summary = block (
      "make the zspage chain length a CONFIG_ZSMALLOC_CHAIN_SIZE bound "
      ∷ "chosen for minimal absolute waste (android15-6.6 / 6.2 class siz" ∷ "ing)" ∷ []);
  commits =
      (block ("ACK android15-6.6 zsmalloc chain size (6.2 series; not in androi" ∷ "d14-6.1)" ∷ []))
      ∷ [];
  files = (codes "mm/Kconfig") ∷ (codes "mm/zsmalloc.c") ∷ [];
  steps = zsmalloc_chain_size_steps;
}

-- The steps of `_arm64_pte_mkwrite_clean_apply`.
unfoldable pub arm64_pte_mkwrite_clean_steps : List Step
arm64_pte_mkwrite_clean_steps =
    step "arch/arm64/include/asm/pgtable.h"
      ("static inline pte_t pte_mkwrite(pte_t pte)\n" ∷ "{\n"
        ∷ "\tpte = set_pte_bit(pte, __pgprot(PTE_WRITE));\n"
        ∷ "\tpte = clear_pte_bit(pte, __pgprot(PTE_RDONLY));\n" ∷ "\treturn pte;\n" ∷ "}" ∷ [])
      ("static inline pte_t pte_mkwrite(pte_t pte)\n" ∷ "{\n"
        ∷ "\tpte = set_pte_bit(pte, __pgprot(PTE_WRITE));\n" ∷ "\tif (pte_sw_dirty(pte))\n"
        ∷ "\t\tpte = clear_pte_bit(pte, __pgprot(PTE_RDONLY));\n" ∷ "\treturn pte;\n" ∷ "}" ∷ [])
      true
    ∷ []

unfoldable pub arm64_pte_mkwrite_clean : StepSpec
arm64_pte_mkwrite_clean = record {
  key = codes "arm64_pte_mkwrite_clean";
  summary = block (
      "arm64 pte_mkwrite() stops dirtying a clean PTE, so a writable ma"
      ∷ "pping can report clean and an unwritten page is not written back"
      ∷ " at reclaim (5.15.196; mainline 143937ca51cc, v6.18)" ∷ []);
  commits = (codes "8a2375b0e9b8 (5.15.196)") ∷ (codes "143937ca51cc (v6.18)") ∷ [];
  files = (codes "arch/arm64/include/asm/pgtable.h") ∷ [];
  steps = arm64_pte_mkwrite_clean_steps;
}
