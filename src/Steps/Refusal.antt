-- ===== src/Steps/Refusal.antt =====
-- When `apply_steps` (scripts/abk_backport_engine.py) refuses to write: a condition on the tree and
-- the steps alone.
use abk_5_15_backport.Prelude.{
  Bool, true, false, not, ◌&&◌, ◌||◌, List, [], ◌∷◌, Option, none, some, ◌≡◌, ◌≢◌, refl, ◌∙◌, sym,
  arith, All, All-imp,
}
use mathlib.Core.Path.{subst}
use abk_5_15_backport.Text.{Text}
use abk_5_15_backport.Replace.{StepStatus, has_block, replace_once}
use abk_5_15_backport.Replace.Laws.{Outcome, replace_once-Outcome}
use abk_5_15_backport.Result.{file_not_found, Result, ok, err}
use abk_5_15_backport.Disk.{FilePath, backup_path}
use abk_5_15_backport.Context.{Context}
use abk_5_15_backport.Context.Laws.{Tree, view, text_of, tree, Reads, tree-Reads}
use abk_5_15_backport.Context.Coherent.{IsSound}
use abk_5_15_backport.Steps.{
  Step, Status, PendingTexts, StepResults, Round, refused, went_on, collect, one_round, take_text,
  judge, missed, absent, get_or, lookup, summary, apply_steps,
}
use abk_5_15_backport.Steps.Collect.{
  edit, edit_one, overlay, Backed, one_round-Reads, one_round_eq, take_text-edit, take_text-Backed,
}
use abk_5_15_backport.Steps.Transaction.{
  Run, stopped, gave_up, failed, finished, apply_steps-Run, refused-Reads, apply_steps-edit,
}
use abk_5_15_backport.Steps.Sound.{write_pending-collect}

-- The text has the step's new block, or else its old one, with either line end.
unfoldable pub finds : Step → Option Text → Bool
unfolding has_block
finds s none = false
finds s (some t) = has_block t s.new || has_block t s.old

-- A required step finds neither of its blocks, or no file, in the tree as the steps before it would
-- have edited it.
unfoldable pub lacks_anchor : List Step → Tree → Bool
unfolding finds edit_one
lacks_anchor [] t = false
lacks_anchor (s ∷ steps) t =
    let later = lacks_anchor steps (λ p. edit_one p s (t p)) in
    (s.required && not (finds s (t s.rel))) || later

-- The file can be read, or is not there.
abbrev pub IsOpen : Result Text → Type 0
IsOpen (ok t) = Unit
IsOpen (err (file_not_found p)) = Unit
IsOpen (err e) = ⊥

abbrev gives_up : Result Round → Option Bool
gives_up (ok (refused n)) = some true
gives_up (ok (went_on m n)) = some false
gives_up (err e) = none

module _ (s : Step) (pending : PendingTexts) (results : StepResults) where
  judge-gives_up :
      (t : Text)
      → gives_up (ok (judge s pending results (replace_once t s.old s.new)))
        ≡ some (s.required && not (finds s (some t)))
  unfolding judge missed finds
  judge-gives_up t = go (replace_once t s.old s.new) (replace_once-Outcome t s.old s.new)
    where
      go :
          (r : Text × StepStatus)
          → Outcome t s.old s.new r
          → gives_up (ok (judge s pending results r)) ≡ some (s.required && not (finds s (some t)))
      go r (Outcome.present p f) = rw f (ground (arith, p))
      go r (Outcome.in_lf p q f) = rw f (unfold has_block in ground (arith, q))
      go r (Outcome.in_crlf p q f) = rw f (unfold has_block in ground (arith, q))
      go r (Outcome.missing p q f) = rw f (ground (arith, p, q))

  absent-gives_up : gives_up (ok (absent s pending results)) ≡ some (s.required && not false)
  unfolding absent
  absent-gives_up = ground arith

  overlay_text : (o : Option Text) (t : Text) → overlay o (some t) ≡ some (get_or o t)
  overlay_text none t = refl
  overlay_text (some u) t = refl

  -- One round gives up where the step is required and finds nothing in the text that is collected
  -- for its file.
  take_text-gives_up :
      (r : Result Text)
      → IsOpen r
      → Backed s.rel pending (text_of r)
      → gives_up (take_text s pending results r)
        ≡ some (s.required && not (finds s (overlay (lookup s.rel pending) (text_of r))))
  unfolding take_text
  take_text-gives_up (ok t) o back =
      rw overlay_text (judge-gives_up (get_or (lookup s.rel pending) t))
  take_text-gives_up (err (file_not_found p)) o back =
      rw (back refl) (unfold finds in absent-gives_up)
  take_text-gives_up (err _) o back = absurd o

-- The dict, over the tree of the context, is the tree `t`.
record Shows (c : Context) (m : PendingTexts) (t : Tree) : Type 0 where
  shows : (p : FilePath) → overlay (lookup p m) (tree c p) ≡ t p
  back : (p : FilePath) → Backed p m (tree c p)

-- A round that goes on edits what the dict and the context show.
one_round-Shows :
    (s : Step) (m : PendingTexts) (n : StepResults) (c : Context) (t : Tree) (m' : PendingTexts)
    (n' : StepResults)
    → Shows c m t
    → (one_round s m n c).0 ≡ ok (went_on m' n')
    → Shows (one_round s m n c).1 m' (λ p. edit_one p s (t p))
one_round-Shows s m n c t m' n' h e =
    let e' = sym (one_round_eq s m n c) ∙ e in
    let same = tree-Reads (one_round-Reads s m n c) in
    record {
      shows = λ p.
          rw (same, ← h.shows p) (take_text-edit s m n c p (view c s.rel) m' n' refl (h.back p) e');
      back = λ p. rw same (take_text-Backed s m n c p (view c s.rel) m' n' refl (h.back p) e');
    }

one_round-gives_up :
    (s : Step) (m : PendingTexts) (n : StepResults) (c : Context) (t : Tree)
    → IsOpen (view c s.rel)
    → Shows c m t
    → gives_up (one_round s m n c).0 ≡ some (s.required && not (finds s (t s.rel)))
one_round-gives_up s m n c t o h =
    rw (one_round_eq, ← h.shows s.rel)
      (unfold tree in take_text-gives_up s m n (view c s.rel) o (unfold tree in h.back s.rel))

abbrev pub AllOpen : Context → List Step → Type 0
AllOpen c = All (λ (s : Step). IsOpen (view c s.rel))

AllOpen-Reads : {c d : Context} (steps : List Step) → Reads c d → AllOpen c steps → AllOpen d steps
AllOpen-Reads steps r = All-imp _ _ (λ s. subst IsOpen (sym (r.views s.rel))) steps

collect-gives_up :
    (steps : List Step) (m : PendingTexts) (n : StepResults) (c : Context) (t : Tree)
    → AllOpen c steps
    → Shows c m t
    → gives_up (collect steps m n c).0 ≡ some (lacks_anchor steps t)
unfolding collect lacks_anchor
collect-gives_up [] m n c t o h = refl
collect-gives_up (s ∷ steps) m n c t (o, os) h =
    go (one_round s m n c).0 refl (one_round-gives_up s m n c t o h) (λ m' n' e.
      collect-gives_up steps m' n' (one_round s m n c).1 (λ p. edit_one p s (t p))
        (AllOpen-Reads steps (one_round-Reads s m n c) os) (one_round-Shows s m n c t m' n' h e))
  where
    go :
        (r : Result Round)
        → (one_round s m n c).0 ≡ r
        → gives_up (one_round s m n c).0 ≡ some (s.required && not (finds s (t s.rel)))
        → ((m' : PendingTexts) (n' : StepResults)
            → (one_round s m n c).0 ≡ ok (went_on m' n')
            → gives_up (collect steps m' n' (one_round s m n c).1).0
              ≡ some (lacks_anchor steps (λ p. edit_one p s (t p))))
        → gives_up (collect (s ∷ steps) m n c).0 ≡ some (lacks_anchor (s ∷ steps) t)
    go (err x) e g ih = absurd (ground arith)
    go (ok (refused n')) e g ih = rw (e, collect, lacks_anchor) (ground arith)
    go (ok (went_on m' n')) e g ih =
        let later = ih m' n' e in rw (e, collect, lacks_anchor) (ground arith)

-- What `apply_steps` leaves at the path `p`: no status and nothing written, or a status and the text
-- edited by the steps. It does not raise.
abbrev pub Settled :
    List Step → FilePath → Context → Bool → Result (Option Status × StepResults) × Context → Type 0
Settled steps p c true (ok (none, n), d) = Reads c d
Settled steps p c false (ok (some st, n), d) = tree d p ≡ edit p steps (tree c p)
Settled steps p c _ _ = ⊥

-- From a sound context in which every step's file can be read or is not there, `apply_steps` returns.
-- Where a required step finds, in the tree as the steps before it would have edited it, no file, or
-- neither its new block nor its old one with either line end, it gives no status, nothing is written
-- to any file and no reader sees another text than before. Everywhere else it gives a status, and
-- the text at a path that is no step's backup is the one before, edited by the steps for it.
pub apply_steps-Settled :
    (steps : List Step) (c : Context) (p : FilePath)
    → IsSound c
    → AllOpen c steps
    → All (λ s. backup_path s.rel ≢ p) steps
    → Settled steps p c (lacks_anchor steps (tree c)) (apply_steps steps c)
apply_steps-Settled steps c p sound can_open apart =
    go (apply_steps steps c) (lacks_anchor steps (tree c)) (apply_steps-Run steps c)
      (collect-gives_up steps [] [] c (tree c) can_open
        (record { shows = λ q. unfold lookup in refl; back = λ q e. unfold lookup in refl }))
      (λ n e. refused-Reads steps c n e) (λ st n e. apply_steps-edit steps c p st n apart e)
  where
    go :
        (r : Result (Option Status × StepResults) × Context) (b : Bool)
        → Run steps c r
        → gives_up (collect steps [] [] c).0 ≡ some b
        → ((n : StepResults) → r.0 ≡ ok (none, n) → Reads c r.1)
        → ((st : Status) (n : StepResults)
            → r.0 ≡ ok (some st, n)
            → tree r.1 p ≡ edit p steps (tree c p))
        → Settled steps p c b r
    go r b (stopped x e f) g idle edited = absurd (ground arith)
    go r true (gave_up n e f) g idle edited = rw f (rw f at (idle n (rw f refl)))
    go r false (gave_up n e f) g idle edited = absurd (ground arith)
    go r b (failed m n x e w f) g idle edited =
        let (done, _, _) = write_pending-collect steps c m n sound e in absurd (ground arith)
    go r true (finished m n e w f) g idle edited = absurd (ground arith)
    go r false (finished m n e w f) g idle edited =
        rw f (rw f at (edited (summary n) n (rw f refl)))
