-- ===== src/Steps/Sound.antt =====
-- `apply_steps` of scripts/abk_backport_engine.py: cache and disk, and what it raises.
use abk_5_15_backport.Prelude.{
  true, List, [], ◌∷◌, Option, some, ◌≡◌, refl, arith, Bool-cases, Option-cases, inl, inr, All,
  All-imp, is_some,
}
use mathlib.Core.Path.{subst}
use abk_5_15_backport.Text.{Text, text_eq}
use abk_5_15_backport.Replace
use abk_5_15_backport.Replace.{StepStatus, missing_anchor, replace_once}
use abk_5_15_backport.Result.{file_not_found, Result, ok, err}
use abk_5_15_backport.Disk.{FilePath}
use abk_5_15_backport.Context.{Context, read}
use abk_5_15_backport.Context.Laws.{Reads}
use abk_5_15_backport.Context.Coherent.{
  IsSound, read-IsSound, write-IsSound, Grows, read-Grows, write-Grows, read_cached, write_succeeds,
}
use abk_5_15_backport.Steps.{
  Step, Status, PendingTexts, StepResults, Round, refused, went_on, collect, one_round, take_text,
  judge, missed, absent, insert, get_or, write_changed, write_pending, apply_steps, lookup,
}
use abk_5_15_backport.Steps.Collect.{collect-Reads}
use abk_5_15_backport.Steps.Pending.{write_changed_same, write_changed_other}
use abk_5_15_backport.Steps.Transaction.{Run, stopped, gave_up, failed, finished, apply_steps-Run}

-- The keys of the dict have been read.
abbrev pub InCache : Context → PendingTexts → Type 0
InCache c = All (λ (k, t). is_some (c.texts k) ≡ true)

InCache-Grows : (c d : Context) (m : PendingTexts) → Grows c d → InCache c m → InCache d m
InCache-Grows c d m g h = All-imp _ _ (λ (k, t) x. g k x) m h

insert-InCache :
    (c : Context) (k : FilePath) (t : Text) (m : PendingTexts)
    → is_some (c.texts k) ≡ true
    → InCache c m
    → InCache c (insert k t m)
unfolding insert
insert-InCache c k t [] a h = (a, tt)
insert-InCache c k t ((j, u) ∷ m) a (b, h) = ground (arith, insert-InCache c k t m a h)

module _ (s : Step) (m : PendingTexts) (n : StepResults) (c : Context) (more : PendingTexts)
    (noted : StepResults) where
  judge_cached :
      (rs : Text × StepStatus) (d : Context)
      → is_some (d.texts s.rel) ≡ true
      → InCache d m
      → judge s m n rs ≡ went_on more noted
      → InCache d more
  unfolding judge missed
  judge_cached (u, missing_anchor) d a i h = subst (InCache d) (ground arith) i
  judge_cached (u, Replace.applied) d a i h =
      subst (InCache d) (ground arith) (insert-InCache d s.rel u m a i)
  judge_cached (u, Replace.already_present) d a i h =
      subst (InCache d) (ground arith) (insert-InCache d s.rel u m a i)

  one_round_cached :
      (r : Result Text)
      → (read s.rel c).0 ≡ r
      → InCache c m
      → take_text s m n r ≡ ok (went_on more noted)
      → InCache (read s.rel c).1 more
  unfolding take_text absent
  one_round_cached (ok t) e i h =
      judge_cached (replace_once (get_or (lookup s.rel m) t) s.old s.new) (read s.rel c).1
        (read_cached s.rel t c e) (InCache-Grows c (read s.rel c).1 m (read-Grows s.rel c) i) (cc h)
  one_round_cached (err (file_not_found q)) e i h =
      subst (InCache (read s.rel c).1) (ground arith)
        (InCache-Grows c (read s.rel c).1 m (read-Grows s.rel c) i)
  one_round_cached (err _) e i h = absurd (ground arith)

collect_cached :
    (steps : List Step) (m : PendingTexts) (n : StepResults) (c : Context) (done : PendingTexts)
    (noted : StepResults)
    → InCache c m
    → (collect steps m n c).0 ≡ ok (went_on done noted)
    → InCache (collect steps m n c).1 done
unfolding collect
collect_cached [] m n c done noted i e = subst (InCache c) (ground arith) i
collect_cached (s ∷ steps) m n c done noted i e =
    go (one_round s m n c).0 refl
      (λ m' n'. collect_cached steps m' n' (one_round s m n c).1 done noted) e
  where
    go :
        (r : Result Round)
        → (one_round s m n c).0 ≡ r
        → ((m' : PendingTexts) (n' : StepResults)
            → InCache (one_round s m n c).1 m'
            → (collect steps m' n' (one_round s m n c).1).0 ≡ ok (went_on done noted)
            → InCache (collect steps m' n' (one_round s m n c).1).1 done)
        → (collect (s ∷ steps) m n c).0 ≡ ok (went_on done noted)
        → InCache (collect (s ∷ steps) m n c).1 done
    go (err x) q ih e = absurd (ground arith)
    go (ok (refused n')) q ih e = absurd (ground arith)
    go (ok (went_on m' n')) q ih e =
        rw (q, collect)
          (ih m' n' (unfold one_round in one_round_cached s m n c m' n' (read s.rel c).0 refl i q)
            (rw (q, collect) at e))

collect-IsSound :
    (steps : List Step) (m : PendingTexts) (n : StepResults) (c : Context)
    → IsSound c
    → IsSound (collect steps m n c).1
unfolding collect
collect-IsSound [] m n c h = h
collect-IsSound (s ∷ steps) m n c h = go (one_round s m n c).0 refl (λ m' n'.
    collect-IsSound steps m' n' (one_round s m n c).1 (unfold one_round in read-IsSound s.rel c h))
  where
    go :
        (r : Result Round)
        → (one_round s m n c).0 ≡ r
        → ((m' : PendingTexts) (n' : StepResults)
            → IsSound (collect steps m' n' (one_round s m n c).1).1)
        → IsSound (collect (s ∷ steps) m n c).1
    go (err x) q ih = rw (q, collect) (unfold one_round in read-IsSound s.rel c h)
    go (ok (refused n')) q ih = rw (q, collect) (unfold one_round in read-IsSound s.rel c h)
    go (ok (went_on m' n')) q ih = rw (q, collect) (ih m' n')

abbrev pub Wrote : Context → Result (Unit {0}) × Context → Type 0
Wrote c r = (r.0 ≡ ok tt) × IsSound r.1 × Grows c r.1

read_in_cache :
    (k : FilePath) (c : Context)
    → is_some (c.texts k) ≡ true
    → (t : Text) × (c.texts k ≡ some t) × ((read k c).0 ≡ ok t) × ((read k c).1 ≡ c)
unfolding read
read_in_cache k c h = elim (Option-cases (c.texts k)) [
  | inl e ↦ absurd (ground arith)
  | inr (t, e) ↦ (t, e, rw (e, read) refl, rw (e, read) refl)
]

write_changed_sound :
    (k : FilePath) (t : Text) (c : Context)
    → IsSound c
    → is_some (c.texts k) ≡ true
    → Wrote c (write_changed k t c)
write_changed_sound k t c h i =
    let (u, e, ok_read, same) = read_in_cache k c i in
    elim (Bool-cases (text_eq t u)) [
      | inl eq ↦ rw (write_changed_same k t u c ok_read eq, same) (refl, h, λ p x. x)
      | inr ne ↦
          let done = write_succeeds k t u c h.coherent h.free e in
          rw (write_changed_other k t u c ok_read ne, same)
            (done, write-IsSound k t c h done, write-Grows k t c)
    ]

write_pending_sound :
    (m : PendingTexts) (c : Context) → IsSound c → InCache c m → Wrote c (write_pending m c)
unfolding write_pending
write_pending_sound [] c h i = (refl, h, λ p x. x)
write_pending_sound ((k, t) ∷ m) c h (a, i) =
    let (done, h', g) = write_changed_sound k t c h a in
    let (rest, h'', g') =
      write_pending_sound m (write_changed k t c).1 h'
        (InCache-Grows c (write_changed k t c).1 m g i) in
    rw (done, write_pending) (rest, h'', λ p x. g' p (g p x))

-- What has been collected from a sound context is written without a raise.
pub write_pending-collect :
    (steps : List Step) (c : Context) (m : PendingTexts) (n : StepResults)
    → IsSound c
    → (collect steps [] [] c).0 ≡ ok (went_on m n)
    → Wrote (collect steps [] [] c).1 (write_pending m (collect steps [] [] c).1)
write_pending-collect steps c m n h e =
    write_pending_sound m (collect steps [] [] c).1 (collect-IsSound steps [] [] c h)
      (collect_cached steps [] [] c m n tt e)

abbrev pub Sees : Context → Result (Option Status × StepResults) × Context → Type 0
Sees c (err x, d) = Reads c d
Sees c (ok r, d) = Unit

-- Where cache and disk agree and no path is locked, applying steps keeps it so, and if it raises
-- then nothing is written to any file, and no reader sees another text than before.
pub apply_steps-IsSound :
    (steps : List Step) (c : Context)
    → IsSound c
    → IsSound (apply_steps steps c).1 × Sees c (apply_steps steps c)
apply_steps-IsSound steps c h = go (apply_steps steps c) (apply_steps-Run steps c)
  where
    collected : IsSound (collect steps [] [] c).1
    collected = collect-IsSound steps [] [] c h

    go :
        (r : Result (Option Status × StepResults) × Context)
        → Run steps c r
        → IsSound r.1 × Sees c r
    go r (stopped x e f) = rw f (collected, collect-Reads steps [] [] c)
    go r (gave_up n e f) = rw f (collected, tt)
    go r (failed m n x e g f) =
        let (done, _, _) = write_pending-collect steps c m n h e in absurd (ground arith)
    go r (finished m n e g f) =
        let (_, after, _) = write_pending-collect steps c m n h e in rw f (after, tt)
