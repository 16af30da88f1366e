-- ===== src/Installer/Script.antt =====
-- `inject_script` and `_check_anykernel_text` of scripts/ak3_bundle_ksu_module.py.
use abk_5_15_backport.Prelude.{
  is_some, ℕ, zero, suc, Bool, true, false, [], ◌∷◌, ◌++◌, none, some, if◌then◌else◌, ◌≡◌, refl,
  ◌∙◌, ap, sym, arith, Bool-cases, Option-cases, inl, inr, append_assoc, append-nil, length,
}
use mathlib.Core.Path.{subst}
use abk_5_15_backport.Text.{Text, codes, block, cut, contains, ends_with, replace_all}
use abk_5_15_backport.Replace.{lf, crlf}
use abk_5_15_backport.Installer.{
  search_block, sub_blocks, normalise, separator, has_block, inject_script,
}
use abk_5_15_backport.Installer.Block.{begin_marker, end_marker, installer_body, installer_block}
use abk_5_15_backport.Installer.Find.{
  Lacks, prepend, prepend-some, cut-past, cut-line, cut_here, ends_with_exists, replace_all-Lacks,
  Lacks-append, Lacks-replace_all,
}

abbrev pub end_tail : Text
end_tail = end_marker ++ codes " <<<"

normalise-Lacks : (t : Text) → Lacks 13 (normalise t)
unfolding normalise
normalise-Lacks t = Lacks-replace_all 13 10 (replace_all t crlf lf) cc

normalise_same : (t : Text) → Lacks 13 t → normalise t ≡ t
unfolding normalise
normalise_same t h =
    ap (λ u. replace_all u (codes "\r") lf) (replace_all-Lacks 13 (10 ∷ []) lf t h)
    ∙ replace_all-Lacks 13 [] lf t h

pub search_block_of :
    (t a rest m c : Text)
    → cut begin_marker t ≡ some (a, rest)
    → cut end_tail rest ≡ some (m, c)
    → search_block t ≡ some (a, m, c)
unfolding search_block
search_block_of t a rest m c d e = rw (d, search_block, e) refl

pub cut_of_contains : (p t : Text) → contains p t ≡ false → cut p t ≡ none
unfolding contains
cut_of_contains p t h = elim (Option-cases (cut p t)) [
  | inl e ↦ e
  | inr (r, e) ↦ absurd (ground (arith, ap is_some e))
]

pub search_block-none : (t : Text) → cut begin_marker t ≡ none → search_block t ≡ none
unfolding search_block
search_block-none t e = rw (e, search_block) refl

-- A marker behind lines without it.
pub cut-lines :
    (p w x : Text)
    → Lacks 10 p
    → cut p (w ++ 10 ∷ []) ≡ none
    → cut p (w ++ 10 ∷ (p ++ x)) ≡ some (w ++ 10 ∷ [], x)
cut-lines p w x l h =
    cut-past p w (p ++ x) l h
    ∙ ap (prepend (w ++ 10 ∷ [])) (cut_here p x)
    ∙ prepend-some (w ++ 10 ∷ []) [] x
    ∙ ap (λ u. some (u, x)) (append-nil (w ++ 10 ∷ []))

sub_blocks-none : (fuel : ℕ) (new t : Text) → search_block t ≡ none → sub_blocks fuel new t ≡ t
unfolding sub_blocks
sub_blocks-none zero new t h = refl
sub_blocks-none (suc fuel) new t h = rw (h, sub_blocks) refl

has_block_found : (t : Text) (r : Text × Text × Text) → search_block t ≡ some r → has_block t ≡ true
unfolding has_block
has_block_found t r h = rw (h, has_block) refl

has_block-none : (t : Text) → search_block t ≡ none → has_block t ≡ false
unfolding has_block
has_block-none t h = rw (h, has_block) refl

inject_found :
    (t a m c : Text)
    → Lacks 13 t
    → search_block t ≡ some (a, m, c)
    → search_block c ≡ none
    → inject_script t ≡ a ++ (installer_block ++ c)
unfolding inject_script sub_blocks
inject_found t a m c l h n =
    rw (normalise_same t l, inject_script, has_block_found t (a, m, c) h, h, sub_blocks)
      (ap (λ r. a ++ (installer_block ++ r))
        (sub_blocks-none (length (normalise t)) installer_block c n))

inject_fresh :
    (t : Text)
    → search_block (normalise t) ≡ none
    → inject_script t ≡ normalise t ++ (separator (normalise t) ++ (installer_block ++ lf))
unfolding inject_script
inject_fresh t h = rw (has_block-none (normalise t) h, inject_script) refl

-- Where the text has one block, which begins a line, and has no carriage return, injecting puts
-- the installer block in its place, whatever stood between the two markers, and changes nothing
-- before or behind.
pub inject_script_replaces :
    (w m c : Text)
    → Lacks 13 (w ++ 10 ∷ (begin_marker ++ (m ++ (end_tail ++ c))))
    → contains begin_marker (w ++ 10 ∷ []) ≡ false
    → cut end_tail (m ++ (end_tail ++ c)) ≡ some (m, c)
    → contains begin_marker c ≡ false
    → inject_script (w ++ 10 ∷ (begin_marker ++ (m ++ (end_tail ++ c))))
      ≡ (w ++ 10 ∷ []) ++ (installer_block ++ c)
inject_script_replaces w m c l h e n =
    inject_found (w ++ 10 ∷ (begin_marker ++ (m ++ (end_tail ++ c)))) (w ++ 10 ∷ []) m c l
      (search_block_of (w ++ 10 ∷ (begin_marker ++ (m ++ (end_tail ++ c)))) (w ++ 10 ∷ [])
        (m ++ (end_tail ++ c)) m c
        (cut-lines begin_marker w (m ++ (end_tail ++ c)) refl (cut_of_contains begin_marker _ h)) e)
      (search_block-none c (cut_of_contains begin_marker c n))

-- The body of the installer block ends at its own second marker.
body_ends :
    (c : Text)
    → cut end_tail (block installer_body ++ (end_tail ++ c)) ≡ some (block installer_body, c)
unfolding cut
body_ends c = refl

installer_block-append :
    (c : Text) → installer_block ++ c ≡ begin_marker ++ (block installer_body ++ (end_tail ++ c))
installer_block-append c = refl

-- What a text without the first marker is lengthened to ends in a line feed, and still lacks it.
pub record Lined (p t : Text) : Type 0 where
  pub lines : Text
  pub same : t ++ separator t ≡ lines ++ 10 ∷ []
  pub lacks : cut p (lines ++ 10 ∷ []) ≡ none

pub Lined-of : (p t : Text) → Lacks 10 p → cut p t ≡ none → Lined p t
unfolding separator
Lined-of p t l h = elim (Bool-cases (ends_with (codes "\n\n") t)) [
  | inl e ↦
      let (a, same) = ends_with_exists (codes "\n\n") t e in
      let whole : t ≡ (a ++ 10 ∷ []) ++ 10 ∷ [] = same ∙ sym (append_assoc a (10 ∷ []) (10 ∷ [])) in
      record {
        lines = a ++ 10 ∷ [];
        same = rw (e, separator) (append-nil t ∙ whole);
        lacks = subst (λ u. cut p u ≡ none) whole h;
      }
  | inr e ↦ elim (Bool-cases (ends_with lf t)) [
    | inl f ↦ record { lines = t; same = rw (e, separator, f) refl; lacks = cut-line p t l h }
    | inr f ↦ record {
      lines = t ++ 10 ∷ [];
      same = rw (e, separator, f) (sym (append_assoc t (10 ∷ []) (10 ∷ [])));
      lacks = cut-line p (t ++ 10 ∷ []) l (cut-line p t l h);
    }
  ]
]

separator-Lacks : (t : Text) → Lacks 13 (separator t)
unfolding separator
separator-Lacks t = go (ends_with (codes "\n\n") t) (ends_with lf t)
  where
    go : (a b : Bool) → Lacks 13 (if a then [] else if b then lf else codes "\n\n")
    go true b = refl
    go false true = refl
    go false false = refl

-- The script with the block behind it, for a text without the first marker.
module _ (text : Text) (h : contains begin_marker (normalise text) ≡ false) where
  pub ended : Lined begin_marker (normalise text)
  ended =
      Lined-of begin_marker (normalise text) refl (cut_of_contains begin_marker (normalise text) h)

  pub with_block : inject_script text ≡ (ended.lines ++ 10 ∷ []) ++ (installer_block ++ lf)
  with_block =
      inject_fresh text
        (search_block-none (normalise text) (cut_of_contains begin_marker (normalise text) h))
      ∙ sym (append_assoc (normalise text) (separator (normalise text)) (installer_block ++ lf))
      ∙ ap (λ u. u ++ (installer_block ++ lf)) ended.same

  with_block-Lacks : Lacks 13 ((ended.lines ++ 10 ∷ []) ++ (installer_block ++ lf))
  with_block-Lacks =
      Lacks-append 13 (ended.lines ++ 10 ∷ []) (installer_block ++ lf)
        (subst (Lacks 13) ended.same (
          Lacks-append 13 (normalise text) (separator (normalise text)) (normalise-Lacks text)
            (separator-Lacks (normalise text))))
        refl

  pub block_behind :
      (ended.lines ++ 10 ∷ []) ++ (installer_block ++ lf)
      ≡ ended.lines ++ 10 ∷ (begin_marker ++ (block installer_body ++ (end_tail ++ lf)))
  block_behind =
      append_assoc ended.lines (10 ∷ []) (installer_block ++ lf)
      ∙ ap (λ r. ended.lines ++ 10 ∷ r) (installer_block-append lf)

  pub block_found :
      search_block ((ended.lines ++ 10 ∷ []) ++ (installer_block ++ lf))
      ≡ some (ended.lines ++ 10 ∷ [], block installer_body, lf)
  block_found =
      search_block_of ((ended.lines ++ 10 ∷ []) ++ (installer_block ++ lf)) (ended.lines ++ 10 ∷ [])
        (block installer_body ++ (end_tail ++ lf)) (block installer_body) lf
        (ap (cut begin_marker) block_behind
          ∙ cut-lines begin_marker ended.lines (block installer_body ++ (end_tail ++ lf)) refl
              ended.lacks)
        (body_ends lf)

  -- Injecting into a script that has no first marker, and injecting again, gives what injecting
  -- once gives.
  pub inject_script-twice : inject_script (inject_script text) ≡ inject_script text
  inject_script-twice =
      ap inject_script with_block
      ∙ inject_found ((ended.lines ++ 10 ∷ []) ++ (installer_block ++ lf)) (ended.lines ++ 10 ∷ [])
          (block installer_body) lf with_block-Lacks block_found
          (search_block-none lf (unfold cut in refl))
      ∙ sym with_block
