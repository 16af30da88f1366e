-- ===== src/Groups/Acting.antt =====
-- What the function of a group may do to the tree: nothing, or one change of it that it reports. One
-- rule for each way in which the functions are built.
use abk_5_15_backport.Prelude.{
  Bool, true, false, List, [], ◌∷◌, Option, none, some, ◌≡◌, refl, ◌∙◌, ap, sym, arith, All-of,
}
use abk_5_15_backport.Result.{Result, ok, err, Exec, ◌>>=◌, continue}
use abk_5_15_backport.Disk.{FilePath}
use abk_5_15_backport.Context.{Context}
use abk_5_15_backport.Context.Laws.{Tree, Reads, Reads-trans}
use abk_5_15_backport.Context.Coherent.{IsSound}
use abk_5_15_backport.Context.Reading.{OnlyReads}
use abk_5_15_backport.Context.Sources.{
  sources, sources-Reads, sources-ext, sources-none, sources-tree, backup_path-ne,
}
use abk_5_15_backport.Steps.{Step, Status, StepResults, apply_steps}
use abk_5_15_backport.Steps.Collect.{edit, edit_one}
use abk_5_15_backport.Steps.Transaction.{refused-Reads, apply_steps-edit}
use abk_5_15_backport.Steps.Statuses.{apply_steps_honest}
use abk_5_15_backport.Steps.Sound.{apply_steps-IsSound, Sees}
use abk_5_15_backport.Groups.{is_edit}

abbrev pub edits : Result Status → Bool
edits (ok st) = is_edit st
edits (err x) = false

-- Every file is edited by its steps.
abbrev pub edit_all : List Step → Tree → Tree
edit_all steps t p = edit p steps (t p)

-- Raised or not, with no edit reported nothing is written, and with one the sources of the tree are
-- those before under the change.
pub record Acts (change : Tree → Tree) (c : Context) (r : Result Status × Context) : Type 0 where
  pub sound : IsSound r.1
  pub idle : edits r.0 ≡ false → Reads c r.1
  pub edited : edits r.0 ≡ true → sources r.1 ≡ change (sources c)

module _ (change : Tree → Tree) where
  pub Acts-idle :
      (c d : Context) (r : Result Status)
      → edits r ≡ false
      → Reads c d
      → IsSound d
      → Acts change c (r, d)
  Acts-idle c d r no_edit reads h = record {
    sound = h;
    idle = λ _. reads;
    edited = λ e. absurd (ground arith);
  }

  pub Acts-before :
      {c d : Context} {r : Result Status × Context} → Reads c d → Acts change d r → Acts change c r
  Acts-before reads did = record {
    sound = did.sound;
    idle = λ x. Reads-trans reads (did.idle x);
    edited = λ x. did.edited x ∙ ap change (sources-Reads reads);
  }

  pub Acts-after :
      {c d e : Context} {r : Result Status}
      → Acts change c (r, d)
      → Reads d e
      → IsSound e
      → Acts change c (r, e)
  Acts-after did reads h = record {
    sound = h;
    idle = λ x. Reads-trans (did.idle x) reads;
    edited = λ x. sources-Reads reads ∙ did.edited x;
  }

  -- Reading first.
  pub Acts-bind :
      {A : Type 0} (m : Exec Context A) (f : A → Exec Context Status) (c : Context)
      → OnlyReads m
      → IsSound c
      → ((a : A) (d : Context) → (m c).0 ≡ ok a → Reads c d → IsSound d → Acts change d (f a d))
      → Acts change c ((m >>= f) c)
  Acts-bind {A} m f c rules h k = go (m c).0 refl
    where
      go : (r : Result A) → (m c).0 ≡ r → Acts change c (continue r f (m c).1)
      go (ok a) e = Acts-before (rules.reads c) (k a (m c).1 e (rules.reads c) (rules.sound c h))
      go (err x) e = Acts-idle c (m c).1 (err x) refl (rules.reads c) (rules.sound c h)

pub edit-none : (p : FilePath) (steps : List Step) → edit p steps none ≡ none
unfolding edit edit_one
edit-none p [] = refl
edit-none p (s ∷ steps) = edit-none p steps

-- What may follow `apply_steps`: its status where it has one, and else a last word that only reads
-- and reports no edit.
pub record IsLast (last : Option Status × StepResults → Exec Context Status) : Type 0 where
  pub refused :
      (n : StepResults) (d : Context)
      → IsSound d
      → (edits (last (none, n) d).0 ≡ false)
        × Reads d (last (none, n) d).1
        × IsSound (last (none, n) d).1
  pub returned : (st : Status) (n : StepResults) (d : Context) → last (some st, n) d ≡ (ok st, d)

pub Acts-apply_steps :
    (steps : List Step) (last : Option Status × StepResults → Exec Context Status) (c : Context)
    → IsLast last
    → IsSound c
    → Acts (edit_all steps) c ((apply_steps steps >>= last) c)
Acts-apply_steps steps last c is_last h = go (apply_steps steps c).0 refl
  where
    d : Context
    d = (apply_steps steps c).1

    kept : IsSound d
    kept = (apply_steps-IsSound steps c h).0

    some_case :
        (st : Status) (n : StepResults)
        → (apply_steps steps c).0 ≡ ok (some st, n)
        → Acts (edit_all steps) c (ok st, d)
    some_case st n e = record {
      sound = kept;
      idle = λ x.
          apply_steps_honest steps c st n e (λ a. ground (arith, ap is_edit a))
            (λ a. ground (arith, ap is_edit a));
      edited = λ x.
          sources-ext d (edit_all steps (sources c))
            (λ p s. ap (edit p steps) (sources-none c p s) ∙ edit-none p steps)
            (λ p s.
              apply_steps-edit steps c p st n (All-of _ (λ step. backup_path-ne p step.rel s) steps)
                e
              ∙ ap (edit p steps) (sym (sources-tree c p s)));
    }

    go :
        (r : Result (Option Status × StepResults))
        → (apply_steps steps c).0 ≡ r
        → Acts (edit_all steps) c (continue r last d)
    go (ok (none, n)) e =
        let (no_edit, reads, sound) = is_last.refused n d kept in
        Acts-idle (edit_all steps) c (last (none, n) d).1 (last (none, n) d).0 no_edit
          (Reads-trans (refused-Reads steps c n e) reads) sound
    go (ok (some st, n)) e = rw (is_last.returned st n d) (some_case st n e)
    go (err x) e =
        Acts-idle (edit_all steps) c d (err x) refl
          (rw (e, Sees) at (apply_steps-IsSound steps c h).1) kept
