-- ===== src/Replace.antt =====
-- The text functions of scripts/abk_common.py: `_eol_variants`, `replace_once`, `ensure_after` and
-- `has_any`. The generator of the two forms is the list of what it yields.
pub mod Laws
pub mod Eol
pub mod Ensure
use abk_5_15_backport.Prelude.{
  Bool, true, false, ◌||◌, List, [], ◌∷◌, ◌++◌, Option, none, some, if◌then◌else◌, any,
}
use abk_5_15_backport.Text.{Text, codes, contains, replace_first, replace_all}

abbrev pub lf : Text
lf = codes "\n"

abbrev pub crlf : Text
crlf = codes "\r\n"

pub data StepStatus : Type 0 where
  applied already_present missing_anchor : StepStatus

-- `block.replace("\r\n", "\n")`
unfoldable pub to_lf : Text → Text
unfolding replace_all
to_lf block = replace_all block crlf lf

-- `block.replace("\n", "\r\n")`
unfoldable pub to_crlf : Text → Text
unfolding replace_all
to_crlf block = replace_all block lf crlf

-- Each form of the block with its line end.
unfoldable pub eol_variants : Text → List (Text × Text)
unfolding to_lf to_crlf
eol_variants block = (to_lf block, lf) ∷ (to_crlf (to_lf block), crlf) ∷ []

-- The loop of `replace_once` over the forms of the old block.
unfoldable pub replace_variant : Text → Text → List (Text × Text) → Text × StepStatus
unfolding contains replace_first replace_all
replace_variant text new_lf [] = (text, missing_anchor)
replace_variant text new_lf ((old_variant, joiner) ∷ rest) =
    let later = replace_variant text new_lf rest in
    if contains old_variant text
    then (replace_first text old_variant (replace_all new_lf lf joiner), applied)
    else later

-- The block is in the text in one of its two forms.
unfoldable pub has_block : Text → Text → Bool
unfolding to_lf to_crlf contains
has_block text block = contains (to_lf block) text || contains (to_crlf (to_lf block)) text

unfoldable pub replace_once : Text → Text → Text → Text × StepStatus
unfolding has_block eol_variants replace_variant
replace_once text old new =
    if has_block text new
    then (text, already_present)
    else replace_variant text (to_lf new) (eol_variants old)

unfoldable pub ensure_after : Text → Text → Text → Text × StepStatus
unfolding contains replace_first
ensure_after text anchor snippet =
    if contains snippet text
    then (text, already_present)
    else if contains anchor text
    then (replace_first text anchor (anchor ++ (lf ++ snippet)), applied)
    else (text, missing_anchor)

unfoldable pub has_any : Text → List Text → Bool
unfolding contains
has_any text needles = any (λ needle. contains needle text) needles
