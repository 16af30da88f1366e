-- ===== src/Steps/Pending.antt =====
-- The dict `pending` of `apply_steps` (scripts/abk_backport_engine.py): its keys, and writing it out.
use abk_5_15_backport.Prelude.{
  ◌⊎◌, true, false, List, [], ◌∷◌, Option, none, some, if◌then◌else◌, ◌≡◌, ◌≢◌, refl, ◌∙◌, ap, sym,
  arith, Bool-cases, inl, inr, All,
}
use mathlib.Core.Path.{subst}
use abk_5_15_backport.Text.{Text, text_eq}
use abk_5_15_backport.Text.Find.{text_eq_iff}
use abk_5_15_backport.Replace
use abk_5_15_backport.Replace.{StepStatus, missing_anchor, replace_once}
use abk_5_15_backport.Result.{Error, file_not_found, Result, ok, err}
use abk_5_15_backport.Disk.{FilePath, update, backup_path}
use abk_5_15_backport.Context.{Context, read, write}
use abk_5_15_backport.Context.Laws.{text_of, tree, read_result, read-Reads, tree-Reads, tree-write}
use abk_5_15_backport.Steps.{
  Step, PendingTexts, StepResults, lookup, insert, get_or, Round, refused, went_on, missed, judge,
  absent, take_text, one_round, collect, write_changed, write_pending,
}
use abk_5_15_backport.Steps.Collect.{overlay, lookup-insert}

-- A round leaves the dict as it is, or sets the key of its step.
abbrev Sets : Step → PendingTexts → PendingTexts → Type 0
Sets s m n = (n ≡ m) ⊎ ((t : Text) × (n ≡ insert s.rel t m))

module _ (s : Step) (pending : PendingTexts) (results : StepResults) (more : PendingTexts)
    (noted : StepResults) where
  judge-Sets :
      (rs : Text × StepStatus)
      → judge s pending results rs ≡ went_on more noted
      → Sets s pending more
  unfolding judge missed
  judge-Sets (u, missing_anchor) e = ground arith
  judge-Sets (u, Replace.applied) e = inr (u, ground arith)
  judge-Sets (u, Replace.already_present) e = inr (u, ground arith)

  take_text-Sets :
      (r : Result Text)
      → take_text s pending results r ≡ ok (went_on more noted)
      → Sets s pending more
  unfolding take_text absent
  take_text-Sets (ok text) e =
      judge-Sets (replace_once (get_or (lookup s.rel pending) text) s.old s.new) (cc e)
  take_text-Sets (err (file_not_found q)) e = inl (ground arith)
  take_text-Sets (err _) e = absurd (ground arith)

one_round-Sets :
    (s : Step) (pending : PendingTexts) (results : StepResults) (c : Context) (more : PendingTexts)
    (noted : StepResults)
    → (one_round s pending results c).0 ≡ ok (went_on more noted)
    → Sets s pending more
unfolding one_round
one_round-Sets s pending results c more noted e =
    take_text-Sets s pending results more noted (read s.rel c).0 e

-- What every step keeps of the dict holds of the collected dict.
pub collect_keeps :
    (P : PendingTexts → Type 0) (steps : List Step) (pending : PendingTexts) (results : StepResults)
    (c : Context) (done : PendingTexts) (noted : StepResults)
    → All (λ s. (t : Text) (m : PendingTexts) → P m → P (insert s.rel t m)) steps
    → P pending
    → (collect steps pending results c).0 ≡ ok (went_on done noted)
    → P done
unfolding collect
collect_keeps P [] pending results c done noted keep h e = subst P (ground arith) h
collect_keeps P (s ∷ steps) pending results c done noted (keep, keeps) h e =
    go (one_round s pending results c).0 refl
      (λ m n hm. collect_keeps P steps m n (one_round s pending results c).1 done noted keeps hm) e
  where
    go :
        (r : Result Round)
        → (one_round s pending results c).0 ≡ r
        → ((m : PendingTexts) (n : StepResults)
            → P m
            → (collect steps m n (one_round s pending results c).1).0 ≡ ok (went_on done noted)
            → P done)
        → (collect (s ∷ steps) pending results c).0 ≡ ok (went_on done noted)
        → P done
    go (err x) q ih e = absurd (ground arith)
    go (ok (refused n)) q ih e = absurd (ground arith)
    go (ok (went_on m n)) q ih e =
        ih m n
          (elim (one_round-Sets s pending results c m n q) [
            | inl same ↦ rw same h
            | inr (t, set) ↦ rw set (keep t pending h)
          ])
          (rw (q, collect) at e)

abbrev pub NodupKeys : PendingTexts → Type 0
NodupKeys [] = Unit
NodupKeys ((k, t) ∷ m) = (lookup k m ≡ none) × NodupKeys m

pub insert-NodupKeys :
    (k : FilePath) (t : Text) (m : PendingTexts) → NodupKeys m → NodupKeys (insert k t m)
unfolding insert lookup
insert-NodupKeys k t [] h = (refl, tt)
insert-NodupKeys k t ((j, u) ∷ m) (fresh, h) =
    ground
      (arith, insert-NodupKeys k t m h, lookup-insert k j t m, text_eq_iff k j, text_eq_iff j k)

-- No key's backup is the path.
abbrev pub Apart : FilePath → PendingTexts → Type 0
Apart p = All (λ (k, t). backup_path k ≢ p)

pub insert-Apart :
    (p k : FilePath) (t : Text) (m : PendingTexts)
    → backup_path k ≢ p
    → Apart p m
    → Apart p (insert k t m)
unfolding insert
insert-Apart p k t [] a h = (a, tt)
insert-Apart p k t ((j, u) ∷ m) a (b, h) = ground (arith, insert-Apart p k t m a h)

read_cases :
    (rel : FilePath) (c : Context)
    → ((x : Error) × ((read rel c).0 ≡ err x)) ⊎ ((t : Text) × ((read rel c).0 ≡ ok t))
read_cases rel c = go (read rel c).0 refl
  where
    go :
        (r : Result Text)
        → (read rel c).0 ≡ r
        → ((x : Error) × ((read rel c).0 ≡ err x)) ⊎ ((t : Text) × ((read rel c).0 ≡ ok t))
    go (err x) e = inl (x, e)
    go (ok t) e = inr (t, e)

module _ (rel : FilePath) (text current : Text) (c : Context)
    (e : (read rel c).0 ≡ ok current) where
  pub write_changed_same :
      text_eq text current ≡ true → write_changed rel text c ≡ (ok tt, (read rel c).1)
  unfolding write_changed
  write_changed_same h = ground arith

  pub write_changed_other :
      text_eq text current ≡ false → write_changed rel text c ≡ write rel text (read rel c).1
  unfolding write_changed
  write_changed_other h = ground arith

  tree_current : tree c rel ≡ some current
  unfolding tree
  tree_current = ap text_of (sym (read_result rel c) ∙ e)

  tree-read : (p : FilePath) → tree (read rel c).1 p ≡ tree c p
  tree-read p = ap (λ (t : FilePath → Option Text). t p) (tree-Reads (read-Reads rel c))

  tree_of_changed :
      (p : FilePath)
      → backup_path rel ≢ p
      → (write_changed rel text c).0 ≡ ok tt
      → tree (write_changed rel text c).1 p ≡ (if text_eq rel p then some text else tree c p)
  unfolding update
  tree_of_changed p a h = elim (Bool-cases (text_eq text current)) [
    | inl same ↦
        let now = (text_eq_iff text current).0 same in
        rw (write_changed_same same) (elim (Bool-cases (text_eq rel p)) [
          | inl eq ↦
              rw eq
                (tree-read p ∙ (rw ((text_eq_iff rel p).0 eq) at tree_current) ∙ ap some (sym now))
          | inr ne ↦ rw ne (tree-read p)
        ])
    | inr other ↦
        let wrote = ap (λ (r : Result (Unit {0}) × Context). r.0) (write_changed_other other) in
        rw (write_changed_other other)
          (tree-write rel p text (read rel c).1 a (sym wrote ∙ h) ∙ rw tree-read)
  ]

tree-write_changed :
    (rel p : FilePath) (text : Text) (c : Context)
    → backup_path rel ≢ p
    → (write_changed rel text c).0 ≡ ok tt
    → tree (write_changed rel text c).1 p ≡ (if text_eq rel p then some text else tree c p)
unfolding write_changed
tree-write_changed rel p text c a h = elim (read_cases rel c) [
  | inl (x, e) ↦ absurd (ground arith)
  | inr (current, e) ↦ tree_of_changed rel text current c e p a h
]

-- Writing the dict out makes the tree show it.
pub tree-write_pending :
    (pending : PendingTexts) (c : Context) (p : FilePath)
    → NodupKeys pending
    → Apart p pending
    → (write_pending pending c).0 ≡ ok tt
    → tree (write_pending pending c).1 p ≡ overlay (lookup p pending) (tree c p)
unfolding write_pending lookup
tree-write_pending [] c p n a h = refl
tree-write_pending ((k, t) ∷ m) c p (fresh, n) (a, aside) h = ground (
  arith,
  tree-write_changed k p t c a,
  tree-write_pending m (write_changed k t c).1 p n aside,
  text_eq_iff k p,
)
