-- ===== src/Context/Defconfig/Lines.antt =====
-- What enabling a symbol does to the lines of the defconfig.
use abk_5_15_backport.Prelude.{
  ℕ, true, false, List, [], ◌∷◌, ◌++◌, some, if◌then◌else◌, ◌≡◌, refl, ap, sym, arith, Bool-cases,
  Option-cases, inl, inr,
}
use abk_5_15_backport.Text.{Text, split, join}
use abk_5_15_backport.Text.Find.{text_eq_iff, text_eq_refl}
use abk_5_15_backport.Text.Parts.{join-split}
use abk_5_15_backport.Context.Defconfig.{
  Config, is_line, target_of, is_other, rewrite_line, append_line, config_marker, Edited, set_lines,
}

-- The line that sets the symbol is there, and so is every earlier line that did not set the symbol
-- otherwise.
pub record Sets (config : Config) (before after : List Text) : Type 0 where
  pub has : is_line (target_of config) after ≡ true
  pub keeps :
      (l : Text) → is_line l before ≡ true → is_other config l ≡ false → is_line l after ≡ true

is_line-append_left : (l : Text) (a b : List Text) → is_line l a ≡ true → is_line l (a ++ b) ≡ true
unfolding is_line
is_line-append_left l [] b h = absurd (ground arith)
is_line-append_left l (k ∷ a) b h = ground (arith, is_line-append_left l a b)

is_line-append_right : (l : Text) (a b : List Text) → is_line l b ≡ true → is_line l (a ++ b) ≡ true
unfolding is_line
is_line-append_right l [] b h = h
is_line-append_right l (k ∷ a) b h = ground (arith, is_line-append_right l a b)

append_line-Sets :
    (config : Config) (lines : List Text) → Sets config lines (append_line config lines)
unfolding append_line
append_line-Sets config lines = record {
  has = is_line-append_right t lines _ (
      is_line-append_right t (if is_line config_marker lines then [] else [] ∷ config_marker ∷ [])
        (t ∷ []) (unfold is_line in rw (text_eq_refl t) refl));
  keeps = λ l h _. is_line-append_left l lines _ h;
}
  where
    t : Text
    t = target_of config

rewrite_line-Sets :
    (config : Config) (lines more : List Text)
    → rewrite_line config lines ≡ some more
    → Sets config lines more
unfolding rewrite_line is_line
rewrite_line-Sets config [] more e = absurd (ground arith)
rewrite_line-Sets config (k ∷ lines) more e = elim (Bool-cases (is_other config k)) [
  | inl other ↦
      let now : target_of config ∷ lines ≡ more = ground arith in
      rw (← now) (record {
        has = rw (text_eq_refl (target_of config)) refl;
        keeps = λ l h keep. ground (arith, text_eq_iff k l, ap (is_other config));
      })
  | inr same ↦ elim (Option-cases (rewrite_line config lines)) [
    | inl x ↦ absurd (ground arith)
    | inr (rest, x) ↦
        let now : k ∷ rest ≡ more = ground arith in
        let ih = rewrite_line-Sets config lines rest x in
        rw (← now)
          (record { has = ground (arith, ih.has); keeps = λ l h keep. ground (arith, ih.keeps l) })
  ]
]

-- Enabling a symbol, with a joiner that is not empty: the text afterwards is the join of lines
-- among which is the one that sets the symbol so, and every line that was there and did not set the
-- symbol otherwise.
pub set_lines-Sets :
    (s : ℕ) (sep : Text) (config : Config) (e : Edited)
    → (after : List Text) × ((set_lines (s ∷ sep) config e (split (s ∷ sep) e.text)).text
        ≡ join (s ∷ sep) after)
      × Sets config (split (s ∷ sep) e.text) after
unfolding set_lines
set_lines-Sets s sep config e = elim (Bool-cases (is_line (target_of config) lines)) [
  | inl set ↦
      rw (set, set_lines)
        (lines, sym (join-split s sep e.text), record { has = set; keeps = λ l h _. h })
  | inr unset ↦ elim (Option-cases (rewrite_line config lines)) [
    | inl x ↦
        rw (unset, x, set_lines) (append_line config lines, refl, append_line-Sets config lines)
    | inr (more, x) ↦ rw (unset, x, set_lines) (more, refl, rewrite_line-Sets config lines more x)
  ]
]
  where
    lines : List Text
    lines = split (s ∷ sep) e.text
