-- ===== src/Installer/Accepted.antt =====
-- A script into which the block was injected passes `_check_anykernel_text`
-- (scripts/ak3_bundle_ksu_module.py).
use abk_5_15_backport.Prelude.{
  ℕ, zero, suc, false, [], ◌∷◌, ◌++◌, none, some, ◌≡◌, refl, ◌∙◌, ap, sym, length,
}
use mathlib.Core.Path.{subst}
use abk_5_15_backport.Text.{Text, codes, block, cut, contains}
use abk_5_15_backport.Replace.{lf}
use abk_5_15_backport.Installer.{
  search_block, normalise, inject_script, count_from, count, body_problems, check_anykernel_text,
}
use abk_5_15_backport.Installer.Block.{begin_marker, end_marker, installer_body, installer_block}
use abk_5_15_backport.Installer.Find.{prepend, prepend-some, cut-past}
use abk_5_15_backport.Installer.Script.{
  end_tail, cut_of_contains, cut-lines, ended, with_block, block_behind, block_found, Lined-of,
}

count_from-none : (fuel : ℕ) (p t : Text) → cut p t ≡ none → count_from fuel p t ≡ 0
unfolding count_from
count_from-none zero p t e = refl
count_from-none (suc fuel) p t e = rw (e, count_from) refl

count_once : (p t a rest : Text) → cut p t ≡ some (a, rest) → cut p rest ≡ none → count p t ≡ 1
unfolding count count_from
count_once p t a rest e n = rw (e, count_from) (ap suc (count_from-none (length t) p rest n))

check_one :
    (t a m c : Text)
    → count begin_marker t ≡ 1
    → count end_marker t ≡ 1
    → search_block t ≡ some (a, m, c)
    → check_anykernel_text t
      ≡ some (body_problems (begin_marker ++ (m ++ (end_marker ++ codes " <<<"))))
unfolding check_anykernel_text
check_one t a m c b e s = rw (b, e, s, check_anykernel_text) refl

-- The block itself has nothing that the check objects to.
block_clean :
    body_problems (begin_marker ++ (block installer_body ++ (end_marker ++ codes " <<<"))) ≡ []
unfolding body_problems
block_clean = refl

-- Injecting into a script that has neither marker gives one that the check has nothing against:
-- it has one block, which calls the three installers, does not set -e, and does not exit.
pub check_anykernel_text-inject_script :
    (text : Text)
    → contains begin_marker (normalise text) ≡ false
    → contains end_marker (normalise text) ≡ false
    → check_anykernel_text (inject_script text) ≡ some []
check_anykernel_text-inject_script text h k =
    ap check_anykernel_text (with_block text h)
    ∙ check_one out (lines ++ 10 ∷ []) (block installer_body) lf begins ends (block_found text h)
    ∙ ap some block_clean
  where
    lines : Text
    lines = (ended text h).lines

    out : Text
    out = (lines ++ 10 ∷ []) ++ (installer_block ++ lf)

    behind : Text
    behind = block installer_body ++ (end_tail ++ lf)

    begins : count begin_marker out ≡ 1
    begins =
        count_once begin_marker out (lines ++ 10 ∷ []) behind
          (ap (cut begin_marker) (block_behind text h)
            ∙ cut-lines begin_marker lines behind refl (ended text h).lacks)
          (unfold cut in refl)

    no_end : cut end_marker (lines ++ 10 ∷ []) ≡ none
    no_end =
        let other =
          Lined-of end_marker (normalise text) refl
            (cut_of_contains end_marker (normalise text) k) in
        subst (λ u. cut end_marker u ≡ none) (sym other.same ∙ (ended text h).same) other.lacks

    ends : count end_marker out ≡ 1
    ends =
        count_once end_marker out _ (codes " <<<" ++ lf)
          (ap (cut end_marker) (block_behind text h)
            ∙ cut-past end_marker lines (begin_marker ++ behind) refl no_end
            ∙ ap (prepend (lines ++ 10 ∷ [])) inner
            ∙ prepend-some (lines ++ 10 ∷ []) (begin_marker ++ block installer_body)
                (codes " <<<" ++ lf))
          (unfold cut in refl)
      where
        inner :
            cut end_marker (begin_marker ++ behind)
            ≡ some (begin_marker ++ block installer_body, codes " <<<" ++ lf)
        inner = unfold cut in refl
