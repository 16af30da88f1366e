-- ===== src/Core/FdTable/Blocks.antt =====
-- The text blocks of the file descriptor table group of scripts/abk_stable_core.py.
use abk_5_15_backport.Prelude.{String, List, [], ◌∷◌}

abbrev pub fd_doc_tail_old : List String
fd_doc_tail_old =
    " * The ALIGN(nr, BITS_PER_LONG) here is for clarity: since we just multiplied\n"
    ∷ " * by that \"1024/sizeof(ptr)\" before, we already know there are sufficient\n"
    ∷ " * clear low bits. Clang seems to realize that, gcc ends up being confused.\n" ∷ " *\n"
    ∷ " * On a 128-bit machine, the ALIGN() would actually matter. In the meantime,\n"
    ∷ " * let's consider it documentation (and maybe a test-case for gcc to improve\n"
    ∷ " * its code generation ;)\n" ∷ " */\n"
    ∷ "static struct fdtable * alloc_fdtable(unsigned int nr)\n" ∷ "{\n"
    ∷ "\tstruct fdtable *fdt;\n" ∷ "\tvoid *data;\n" ∷ []

abbrev pub fd_doc_tail_new : List String
fd_doc_tail_new =
    " */\n"
    ∷ "/* ABK stable_515_backport: fd table allocation conventions grafted from 5.15.191 (slots_wanted parameter and ERR_PTR conventions). */\n"
    ∷ "static struct fdtable *alloc_fdtable(unsigned int slots_wanted)\n" ∷ "{\n"
    ∷ "\tstruct fdtable *fdt;\n" ∷ "\tunsigned int nr;\n" ∷ "\tvoid *data;\n" ∷ []

abbrev pub fd_size_math_old : List String
fd_size_math_old =
    "\tnr /= (1024 / sizeof(struct file *));\n" ∷ "\tnr = roundup_pow_of_two(nr + 1);\n"
    ∷ "\tnr *= (1024 / sizeof(struct file *));\n" ∷ "\tnr = ALIGN(nr, BITS_PER_LONG);\n" ∷ []

abbrev pub fd_size_math_new : List String
fd_size_math_new =
    "\tif (IS_ENABLED(CONFIG_32BIT) && slots_wanted < 256)\n" ∷ "\t\tnr = 256;\n" ∷ "\telse\n"
    ∷ "\t\tnr = roundup_pow_of_two(slots_wanted);\n" ∷ []

abbrev pub fd_clamp_old : List String
fd_clamp_old =
    "\t * Note that this can drive nr *below* what we had passed if sysctl_nr_open\n"
    ∷ "\t * had been set lower between the check in expand_files() and here.  Deal\n"
    ∷ "\t * with that in caller, it's cheaper that way.\n" ∷ "\t *\n"
    ∷ "\t * We make sure that nr remains a multiple of BITS_PER_LONG - otherwise\n"
    ∷ "\t * bitmaps handling below becomes unpleasant, to put it mildly...\n" ∷ "\t */\n"
    ∷ "\tif (unlikely(nr > sysctl_nr_open))\n"
    ∷ "\t\tnr = ((sysctl_nr_open - 1) | (BITS_PER_LONG - 1)) + 1;\n" ∷ []

abbrev pub fd_clamp_new : List String
fd_clamp_new =
    "\t * Note that this can drive nr *below* what we had passed if sysctl_nr_open\n"
    ∷ "\t * had been set lower between the check in expand_files() and here.\n" ∷ "\t *\n"
    ∷ "\t * We make sure that nr remains a multiple of BITS_PER_LONG - otherwise\n"
    ∷ "\t * bitmaps handling below becomes unpleasant, to put it mildly...\n" ∷ "\t */\n"
    ∷ "\tif (unlikely(nr > sysctl_nr_open)) {\n"
    ∷ "\t\tnr = round_down(sysctl_nr_open, BITS_PER_LONG);\n" ∷ "\t\tif (nr < slots_wanted)\n"
    ∷ "\t\t\treturn ERR_PTR(-EMFILE);\n" ∷ "\t}\n" ∷ "\n"
    ∷ "\t/* ABK stable_515_backport: fdtable allocation INT_MAX guard (5.15.191). */\n"
    ∷ "\tif (unlikely(nr > INT_MAX / sizeof(struct file *)))\n" ∷ "\t\treturn ERR_PTR(-EMFILE);\n"
    ∷ []

abbrev pub fd_tail_old : List String
fd_tail_old = "out_fdt:\n" ∷ "\tkfree(fdt);\n" ∷ "out:\n" ∷ "\treturn NULL;\n" ∷ "}\n" ∷ []

abbrev pub fd_tail_new : List String
fd_tail_new =
    "out_fdt:\n" ∷ "\tkfree(fdt);\n" ∷ "out:\n" ∷ "\treturn ERR_PTR(-ENOMEM);\n" ∷ "}\n" ∷ []

abbrev pub fd_expand_call_old : List String
fd_expand_call_old = "\tspin_unlock(&files->file_lock);\n" ∷ "\tnew_fdt = alloc_fdtable(nr);\n" ∷ []

abbrev pub fd_expand_call_new : List String
fd_expand_call_new =
    "\tspin_unlock(&files->file_lock);\n" ∷ "\tnew_fdt = alloc_fdtable(nr + 1);\n" ∷ []

abbrev pub fd_expand_check_old : List String
fd_expand_check_old =
    "\tif (!new_fdt)\n" ∷ "\t\treturn -ENOMEM;\n" ∷ "\t/*\n"
    ∷ "\t * extremely unlikely race - sysctl_nr_open decreased between the check in\n"
    ∷ "\t * caller and alloc_fdtable().  Cheaper to catch it here...\n" ∷ "\t */\n"
    ∷ "\tif (unlikely(new_fdt->max_fds <= nr)) {\n" ∷ "\t\t__free_fdtable(new_fdt);\n"
    ∷ "\t\treturn -EMFILE;\n" ∷ "\t}\n" ∷ []

abbrev pub fd_expand_check_new : List String
fd_expand_check_new = "\tif (IS_ERR(new_fdt))\n" ∷ "\t\treturn PTR_ERR(new_fdt);\n" ∷ []

abbrev pub fd_dupfd_aosp_old : List String
fd_dupfd_aosp_old =
    "\t\tnew_fdt = alloc_fdtable(open_files - 1);\n" ∷ "\t\tif (!new_fdt) {\n"
    ∷ "\t\t\t*errorp = -ENOMEM;\n" ∷ "\t\t\tgoto out_release;\n" ∷ "\t\t}\n" ∷ "\n"
    ∷ "\t\t/* beyond sysctl_nr_open; nothing to do */\n"
    ∷ "\t\tif (unlikely(new_fdt->max_fds < open_files)) {\n" ∷ "\t\t\t__free_fdtable(new_fdt);\n"
    ∷ "\t\t\t*errorp = -EMFILE;\n" ∷ "\t\t\tgoto out_release;\n" ∷ "\t\t}\n" ∷ []

abbrev pub fd_dupfd_aosp_new : List String
fd_dupfd_aosp_new =
    "\t\t/* ABK stable_515_backport: dup_fd keeps the errorp contract while alloc_fdtable() switches to the slots_wanted/ERR_PTR conventions. */\n"
    ∷ "\t\tnew_fdt = alloc_fdtable(open_files);\n" ∷ "\t\tif (IS_ERR(new_fdt)) {\n"
    ∷ "\t\t\tkmem_cache_free(files_cachep, newf);\n" ∷ "\t\t\t*errorp = PTR_ERR(new_fdt);\n"
    ∷ "\t\t\treturn NULL;\n" ∷ "\t\t}\n" ∷ []

abbrev pub fd_dupfd_label_old : List String
fd_dupfd_label_old =
    "\treturn newf;\n" ∷ "\n" ∷ "out_release:\n" ∷ "\tkmem_cache_free(files_cachep, newf);\n"
    ∷ "out:\n" ∷ "\treturn NULL;\n" ∷ "}\n" ∷ []

abbrev pub fd_dupfd_label_new : List String
fd_dupfd_label_new = "\treturn newf;\n" ∷ "\n" ∷ "out:\n" ∷ "\treturn NULL;\n" ∷ "}\n" ∷ []

abbrev pub fd_dupfd_label_vanilla_old : List String
fd_dupfd_label_vanilla_old =
    "\treturn newf;\n" ∷ "\n" ∷ "out_release:\n" ∷ "\tkmem_cache_free(files_cachep, newf);\n"
    ∷ "\treturn ERR_PTR(error);\n" ∷ "}\n" ∷ []

abbrev pub fd_dupfd_label_vanilla_new : List String
fd_dupfd_label_vanilla_new = "\treturn newf;\n" ∷ "}\n" ∷ []

abbrev pub fd_dupfd_err_decl_old : List String
fd_dupfd_err_decl_old =
    "\tstruct fdtable *old_fdt, *new_fdt;\n" ∷ "\tint error;\n" ∷ "\n"
    ∷ "\tnewf = kmem_cache_alloc(files_cachep, GFP_KERNEL);\n" ∷ []

abbrev pub fd_dupfd_err_decl_new : List String
fd_dupfd_err_decl_new =
    "\tstruct fdtable *old_fdt, *new_fdt;\n" ∷ "\n"
    ∷ "\tnewf = kmem_cache_alloc(files_cachep, GFP_KERNEL);\n" ∷ []

abbrev pub fd_dupfd_vanilla_old : List String
fd_dupfd_vanilla_old =
    "\t\tnew_fdt = alloc_fdtable(open_files - 1);\n" ∷ "\t\tif (!new_fdt) {\n"
    ∷ "\t\t\terror = -ENOMEM;\n" ∷ "\t\t\tgoto out_release;\n" ∷ "\t\t}\n" ∷ "\n"
    ∷ "\t\t/* beyond sysctl_nr_open; nothing to do */\n"
    ∷ "\t\tif (unlikely(new_fdt->max_fds < open_files)) {\n" ∷ "\t\t\t__free_fdtable(new_fdt);\n"
    ∷ "\t\t\terror = -EMFILE;\n" ∷ "\t\t\tgoto out_release;\n" ∷ "\t\t}\n" ∷ []

abbrev pub fd_dupfd_vanilla_new : List String
fd_dupfd_vanilla_new =
    "\t\t/* ABK stable_515_backport: dup_fd adopts the ERR_CAST return contract of the 5.15.191 conventions. */\n"
    ∷ "\t\tnew_fdt = alloc_fdtable(open_files);\n" ∷ "\t\tif (IS_ERR(new_fdt)) {\n"
    ∷ "\t\t\tkmem_cache_free(files_cachep, newf);\n" ∷ "\t\t\treturn ERR_CAST(new_fdt);\n"
    ∷ "\t\t}\n" ∷ []

abbrev pub fd_suite_doc_tail_old : List String
fd_suite_doc_tail_old =
    " * The ALIGN(nr, BITS_PER_LONG) here is for clarity: since we just multiplied\n"
    ∷ " * by that \"1024/sizeof(ptr)\" before, we already know there are sufficient\n"
    ∷ " * clear low bits. Clang seems to realize that, gcc ends up being confused.\n" ∷ " *\n"
    ∷ " * On a 128-bit machine, the ALIGN() would actually matter. In the meantime,\n"
    ∷ " * let's consider it documentation (and maybe a test-case for gcc to improve\n"
    ∷ " * its code generation ;)\n" ∷ " */\n"
    ∷ "static struct fdtable * alloc_fdtable(unsigned int nr)\n" ∷ "{\n"
    ∷ "\tstruct fdtable *fdt;\n" ∷ "\tunsigned int slots_wanted = abk_fdtable_slots_wanted(nr);\n"
    ∷ "\tvoid *data;\n" ∷ []

abbrev pub fd_suite_size_math_old : List String
fd_suite_size_math_old =
    "\t/*\n" ∷ "\t * Keep the legacy file-local interface shape, but derive capacity from\n"
    ∷ "\t * the requested slot count before dropping into the allocator.\n" ∷ "\t */\n"
    ∷ "\tnr = ALIGN(slots_wanted, BITS_PER_LONG);\n" ∷ []

abbrev pub fd_suite_size_math_new : List String
fd_suite_size_math_new =
    "\t/*\n" ∷ "\t * Figure out how many fds we actually want to support in this fdtable.\n"
    ∷ "\t * Allocation steps are keyed to the size of the fdarray, since it\n"
    ∷ "\t * grows far faster than any of the other dynamic data. We try to fit\n"
    ∷ "\t * the fdarray into page-tuned chunks: starting at 1024B and growing in\n"
    ∷ "\t * powers of two from there on.\n" ∷ "\t */\n"
    ∷ "\tif (IS_ENABLED(CONFIG_32BIT) && slots_wanted < 256)\n" ∷ "\t\tnr = 256;\n" ∷ "\telse\n"
    ∷ "\t\tnr = roundup_pow_of_two(slots_wanted);\n" ∷ []

abbrev pub fd_suite_clamp_old : List String
fd_suite_clamp_old =
    "\t * Note that this can drive nr *below* what we had passed if sysctl_nr_open\n"
    ∷ "\t * had been set lower between the check in expand_files() and here.  Deal\n"
    ∷ "\t * with that in caller, it's cheaper that way.\n" ∷ "\t *\n"
    ∷ "\t * We make sure that nr remains a multiple of BITS_PER_LONG - otherwise\n"
    ∷ "\t * bitmaps handling below becomes unpleasant, to put it mildly...\n" ∷ "\t */\n"
    ∷ "\tif (unlikely(nr > sysctl_nr_open))\n"
    ∷ "\t\tnr = ((sysctl_nr_open - 1) | (BITS_PER_LONG - 1)) + 1;\n"
    ∷ "\tif (unlikely(nr > INT_MAX / sizeof(struct file *)))\n" ∷ "\t\treturn NULL;\n" ∷ []
