-- ===== src/Tests/Replacing.antt =====
-- Runs of `replace_once`.
use abk_5_15_backport.Prelude.{true, false, ◌≡◌, refl}
use abk_5_15_backport.Text.{
  codes, strip_prefix, cut, contains, replace_first, split_from, split, join, replace_all,
}
use abk_5_15_backport.Replace.{
  ensure_after, applied, to_lf, to_crlf, eol_variants, replace_variant, has_block, replace_once,
}
use abk_5_15_backport.Replace.Laws.{
  IsReplaced, replace_once-IsReplaced, replace_once_twice, second_status,
}
use abk_5_15_backport.Replace.Ensure.{ensure_after-twice}
use abk_5_15_backport.Replace.Eol.{
  bare_from, has_bare_lf, ends_in_cr, replace_once-keeps_crlf, replace_once-mixes,
}

-- A block of one line in its line feed form, and one of two lines in the other form.
runs :
    (replace_once (codes "a\nb\n") (codes "b\n") (codes "c\n") ≡ (codes "a\nc\n", applied))
    × (replace_once (codes "a\r\nb\r\n") (codes "a\nb\n") (codes "c\nd\n")
        ≡ (codes "c\r\nd\r\n", applied))
    × (replace_once (codes "a\r\nb\r\n") (codes "b") (codes "c\nd")
        ≡ (codes "a\r\nc\nd\r\n", applied))
unfolding strip_prefix cut contains replace_first split_from split join replace_all to_lf to_crlf
    eol_variants replace_variant has_block replace_once
runs = (refl, refl, refl)

applied_run : (replace_once (codes "a\r\nb\r\n") (codes "a\nb\n") (codes "c\nd\n")).1 ≡ applied
unfolding strip_prefix cut contains replace_first split_from split join replace_all to_lf to_crlf
    eol_variants replace_variant has_block replace_once
applied_run = refl

replace_once-IsReplaced_example :
    IsReplaced
      (codes "a\r\nb\r\n")
      (codes "a\nb\n")
      (codes "c\nd\n")
      (replace_once (codes "a\r\nb\r\n") (codes "a\nb\n") (codes "c\nd\n")).0
replace_once-IsReplaced_example =
    replace_once-IsReplaced (codes "a\r\nb\r\n") (codes "a\nb\n") (codes "c\nd\n") applied_run

-- The facts on the texts that the next two ask for.
facts :
    (bare_from true (to_lf (codes "a\nb\n")) ≡ true)
    × (ends_in_cr true (to_lf (codes "a\nb\n")) ≡ false)
    × (has_block (codes "a\r\nb\r\n") (codes "c\nd") ≡ false)
    × (contains (to_lf (codes "b")) (codes "a\r\nb\r\n") ≡ true)
    × (bare_from true (to_lf (codes "c\nd")) ≡ true)
unfolding strip_prefix cut contains split_from split join replace_all to_lf to_crlf has_block
facts = (refl, refl, refl, refl, refl)

replace_once-keeps_crlf_example :
    has_bare_lf (replace_once (codes "a\r\nb\r\n") (codes "a\nb\n") (codes "c\nd\n")).0 ≡ false
replace_once-keeps_crlf_example =
    replace_once-keeps_crlf (codes "a\r\nb\r\n") (codes "a\nb\n") (codes "c\nd\n") refl facts.0
      facts.1

replace_once-mixes_example :
    ((replace_once (codes "a\r\nb\r\n") (codes "b") (codes "c\nd")).1 ≡ applied)
    × (has_bare_lf (replace_once (codes "a\r\nb\r\n") (codes "b") (codes "c\nd")).0 ≡ true)
replace_once-mixes_example =
    replace_once-mixes (codes "a\r\nb\r\n") (codes "b") (codes "c\nd") facts.2 facts.3 facts.4

replace_once_twice_example :
    replace_once
      (replace_once (codes "a\nb\n") (codes "b\n") (codes "c\n")).0
      (codes "b\n")
      (codes "c\n")
    ≡ (
      (replace_once (codes "a\nb\n") (codes "b\n") (codes "c\n")).0,
      second_status (replace_once (codes "a\nb\n") (codes "b\n") (codes "c\n")).1,
    )
replace_once_twice_example = replace_once_twice (codes "a\nb\n") (codes "b\n") (codes "c\n")

ensure_after-twice_example :
    ensure_after (ensure_after (codes "a\nb") (codes "a") (codes "c")).0 (codes "a") (codes "c") ≡ (
      (ensure_after (codes "a\nb") (codes "a") (codes "c")).0,
      second_status (ensure_after (codes "a\nb") (codes "a") (codes "c")).1,
    )
ensure_after-twice_example = ensure_after-twice (codes "a\nb") (codes "a") (codes "c")
