-- ===== src/Groups/Compared.antt =====
-- The reading of the files that the guard of `run_child` (scripts/abk_backport_engine.py) compares.
use abk_5_15_backport.Prelude.{
  true, false, List, [], ◌∷◌, none, some, if◌then◌else◌, ◌≡◌, refl, ◌∙◌, ap, sym, arith, All,
  Bool-cases, inl, inr, Option,
}
use mathlib.Core.Path.{subst}
use mathlib.Core.List.{Memᴰ}
use mathlib.Core.List.Memᴰ
use abk_5_15_backport.Text.{Text, text_eq}
use abk_5_15_backport.Text.Find.{text_eq_iff}
use abk_5_15_backport.Result.{Result, ok, pure}
use abk_5_15_backport.Disk.{FilePath}
use abk_5_15_backport.Context.{Context, read}
use abk_5_15_backport.Context.Laws.{Tree, text_of, tree, read_result, read-Reads, tree-Reads}
use abk_5_15_backport.Groups.{read_all, lookup, differs, changed_paths}
use abk_5_15_backport.Groups.Guard.{bind_ok}

read_ok : (p : FilePath) (c : Context) (t : Text) → (read p c).0 ≡ ok t → tree c p ≡ some t
unfolding tree
read_ok p c t e = ap text_of (sym (read_result p c) ∙ e)

-- The dict of texts holds the tree at the paths.
pub record Holds (t : Tree) (paths : List FilePath) (before : List (FilePath × Text)) : Type 0 where
  pub found : (p : FilePath) (u : Text) → lookup p before ≡ some u → Memᴰ p paths × (t p ≡ some u)
  pub lost : (p : FilePath) → lookup p before ≡ none → ¬ (Memᴰ p paths)

Holds-nil : (t : Tree) → Holds t [] []
unfolding lookup
Holds-nil t = record { found = λ p u x. absurd (ground arith); lost = λ p x m. Memᴰ.not-nil m }

Holds-cons :
    (t : Tree) (p : FilePath) (u : Text) (paths : List FilePath) (rest : List (FilePath × Text))
    → t p ≡ some u
    → Holds t paths rest
    → Holds t (p ∷ paths) ((p, u) ∷ rest)
unfolding lookup
Holds-cons t p u paths rest e h = record {
  found = λ q v x. elim (Bool-cases (text_eq p q)) [
    | inl same ↦
        let eq = (text_eq_iff p q).0 same in
        let this : some u ≡ some v = rw same at x in (Memᴰ.head (sym eq), rw (← eq) (e ∙ this))
    | inr other ↦ let (m, there) = h.found q v (rw other at x) in (Memᴰ.tail m, there)
  ];
  lost = λ q x m. elim (Bool-cases (text_eq p q)) [
    | inl same ↦ absurd (ground arith)
    | inr other ↦ elim (Memᴰ.cases_cons m) [
      | inl eq ↦ absurd (ground (arith, text_eq_iff p q))
      | inr later ↦ h.lost q (rw other at x) later
    ]
  ];
}

pub read_all-Holds :
    (paths : List FilePath) (c : Context) (before : List (FilePath × Text))
    → (read_all paths c).0 ≡ ok before
    → Holds (tree c) paths before
unfolding read_all
read_all-Holds [] c before e =
    let same : [] ≡ before = cc e in subst (Holds (tree c) []) same (Holds-nil (tree c))
read_all-Holds (p ∷ paths) c before e =
    let (t, e1, step) = bind_ok (read p) _ c before e in
    let d = (read p c).1 in
    let e' = ap (λ (x : Result (List (FilePath × Text)) × Context). x.0) (sym step) ∙ e in
    let (rest, e2, step') = bind_ok (read_all paths) (λ rest. pure ((p, t) ∷ rest)) d before e' in
    let e'' = ap (λ (x : Result (List (FilePath × Text)) × Context). x.0) (sym step') ∙ e' in
    let same : (p, t) ∷ rest ≡ before = cc e'' in
    let later : Holds (tree c) paths rest =
      rw (tree-Reads (read-Reads p c)) at (read_all-Holds paths d rest e2) in
    subst (Holds (tree c) (p ∷ paths)) same
      (Holds-cons (tree c) p t paths rest (read_ok p c t e1) later)

-- What the list of the changed paths says: where it is empty, every path shows the text in the dict;
-- where it is not, some path does not.
abbrev pub Compared : List (FilePath × Text) → Tree → List FilePath → List FilePath → Type 0
Compared before t paths [] =
    All (λ (p : FilePath). (u : Text) × (lookup p before ≡ some u) × (t p ≡ some u)) paths
Compared before t paths (q ∷ qs) =
    (p : FilePath) × (u : Text) × Memᴰ p paths
    × (t p ≡ some u)
    × (differs u (lookup p before) ≡ true)

differs-false : (u : Text) (o : Option Text) → differs u o ≡ false → o ≡ some u
differs-false u none e = absurd (ground arith)
differs-false u (some v) e = ground (arith, text_eq_iff u v)

Compared-cons :
    (before : List (FilePath × Text)) (t : Tree) (p : FilePath) (u : Text)
    (paths changed : List FilePath)
    → t p ≡ some u
    → Compared before t paths changed
    → Compared before t (p ∷ paths) (if differs u (lookup p before) then p ∷ changed else changed)
Compared-cons before t p u paths changed e h = elim (Bool-cases (differs u (lookup p before))) [
  | inl new ↦ rw new (p, u, Memᴰ.head refl, e, new)
  | inr old ↦ rw old (later changed h (differs-false u (lookup p before) old))
]
  where
    later :
        (changed : List FilePath)
        → Compared before t paths changed
        → lookup p before ≡ some u
        → Compared before t (p ∷ paths) changed
    later [] h x = ((u, x, e), h)
    later (q ∷ qs) (r, v, m, f, y) x = (r, v, Memᴰ.tail m, f, y)

pub changed_paths-Compared :
    (before : List (FilePath × Text)) (paths : List FilePath) (c : Context)
    (changed : List FilePath)
    → (changed_paths before paths c).0 ≡ ok changed
    → Compared before (tree c) paths changed
unfolding changed_paths
changed_paths-Compared before [] c changed e =
    let same : [] ≡ changed = cc e in subst (Compared before (tree c) []) same tt
changed_paths-Compared before (p ∷ paths) c changed e =
    let (t, e1, step) = bind_ok (read p) _ c changed e in
    let d = (read p c).1 in
    let e' = ap (λ (x : Result (List FilePath) × Context). x.0) (sym step) ∙ e in
    let (rest, e2, step') =
      bind_ok (changed_paths before paths)
        (λ rest. pure (if differs t (lookup p before) then p ∷ rest else rest)) d changed e' in
    let e'' = ap (λ (x : Result (List FilePath) × Context). x.0) (sym step') ∙ e' in
    let same : (if differs t (lookup p before) then p ∷ rest else rest) ≡ changed = cc e'' in
    let later : Compared before (tree c) paths rest =
      rw (tree-Reads (read-Reads p c)) at (changed_paths-Compared before paths d rest e2) in
    subst (Compared before (tree c) (p ∷ paths)) same
      (Compared-cons before (tree c) p t paths rest (read_ok p c t e1) later)
