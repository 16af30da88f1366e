-- ===== src/Steps/SecondPass.antt =====
-- `apply_steps` of scripts/abk_backport_engine.py over files that hold every new block already, as a
-- second pass finds them.
use abk_5_15_backport.Prelude.{
  true, List, [], ◌∷◌, ◌++◌, Option, none, some, ◌≡◌, refl, ◌∙◌, ap, sym, arith, Bool-cases, inl,
  inr, All, All-of, length, append_assoc, append-nil,
}
use abk_5_15_backport.Text.{Text, text_eq}
use abk_5_15_backport.Text.Find.{text_eq_iff, text_eq_refl}
use abk_5_15_backport.Replace
use abk_5_15_backport.Replace.{StepStatus, has_block, replace_once}
use abk_5_15_backport.Replace.Laws.{replace_once_present}
use abk_5_15_backport.Result.{Result, ok, err}
use abk_5_15_backport.Disk.{FilePath}
use abk_5_15_backport.Context.{Context, read}
use abk_5_15_backport.Context.Laws.{
  view, text_of, tree, Reads, Reads-refl, Reads-trans, tree-Reads, read_result, read-Reads,
}
use abk_5_15_backport.Steps.{
  Step, Status, PendingTexts, StepResults, went_on, collect, one_round, take_text, judge, insert,
  get_or, write_pending, finish, summary, apply_steps, lookup, count, is_applied, is_present,
}
use abk_5_15_backport.Steps.Collect.{collect-Reads, one_round-Reads, one_round_eq, lookup-insert}
use abk_5_15_backport.Steps.Pending.{NodupKeys, insert-NodupKeys, collect_keeps, write_changed_same}

-- The dict holds what the tree shows.
abbrev pub Idle : (FilePath → Option Text) → PendingTexts → Type 0
Idle f m = (p : FilePath) (t : Text) → lookup p m ≡ some t → f p ≡ some t

pub view_of_tree : (c : Context) (p : FilePath) (t : Text) → tree c p ≡ some t → view c p ≡ ok t
unfolding tree
view_of_tree c p t h = go (view c p) h
  where
    go : (r : Result Text) → text_of r ≡ some t → r ≡ ok t
    go (ok u) h = ground arith
    go (err x) h = absurd (ground arith)

Idle-tail :
    (f : FilePath → Option Text) (k : FilePath) (t : Text) (m : PendingTexts)
    → lookup k m ≡ none
    → Idle f ((k, t) ∷ m)
    → Idle f m
unfolding lookup
Idle-tail f k t m fresh h p u e = h p u (elim (Bool-cases (text_eq k p)) [
  | inl eq ↦ absurd (clash (sym e ∙ ap (λ q. lookup q m) (sym ((text_eq_iff k p).0 eq)) ∙ fresh))
  | inr ne ↦ rw ne e
])
  where
    clash : some u ≡ none → ⊥
    clash x = cc

-- Writing such a dict out writes nothing.
pub write_pending-Idle :
    (m : PendingTexts) (c : Context)
    → NodupKeys m
    → Idle (tree c) m
    → ((write_pending m c).0 ≡ ok tt) × Reads c (write_pending m c).1
unfolding write_pending
write_pending-Idle [] c n h = (refl, Reads-refl c)
write_pending-Idle ((k, t) ∷ m) c (fresh, n) h =
    let now = view_of_tree c k t (h k t (unfold lookup in rw (text_eq_refl k))) in
    let same = write_changed_same k t t c (read_result k c ∙ now) (text_eq_refl t) in
    let rest =
      write_pending-Idle m (read k c).1 n
        (rw (tree-Reads (read-Reads k c)) (Idle-tail (tree c) k t m fresh h)) in
    let done = ap (λ (r : Result (Unit {0}) × Context). r.0) same in
    let after = ap (λ (r : Result (Unit {0}) × Context). r.1) same in
    rw (done, write_pending, after) (rest.0, Reads-trans (read-Reads k c) rest.1)

-- The new block of the step is in its file.
abbrev pub IsPresent : (FilePath → Option Text) → Step → Type 0
IsPresent f s = (t : Text) × (f s.rel ≡ some t) × (has_block t s.new ≡ true)

abbrev pub presents : List Step → StepResults
presents [] = []
presents (s ∷ steps) = (s.rel, Replace.already_present) ∷ presents steps

pub get_or-Idle :
    (f : FilePath → Option Text) (p : FilePath) (m : PendingTexts) (t : Text)
    → Idle f m
    → f p ≡ some t
    → get_or (lookup p m) t ≡ t
get_or-Idle f p m t h e = go (lookup p m) refl
  where
    go : (l : Option Text) → lookup p m ≡ l → get_or l t ≡ t
    go none x = refl
    go (some u) x = ground (arith, h p u x)

pub insert-Idle :
    (f : FilePath → Option Text) (k : FilePath) (t : Text) (m : PendingTexts)
    → f k ≡ some t
    → Idle f m
    → Idle f (insert k t m)
insert-Idle f k t m e h p u x = elim (Bool-cases (text_eq k p)) [
  | inl eq ↦ rw (← (text_eq_iff k p).0 eq) (ground (arith, lookup-insert k p t m))
  | inr ne ↦ h p u (ground (arith, lookup-insert k p t m))
]

one_round_present :
    (s : Step) (m : PendingTexts) (n : StepResults) (c : Context)
    → IsPresent (tree c) s
    → Idle (tree c) m
    → (t : Text) × ((one_round s m n c).0
        ≡ ok (went_on (insert s.rel t m) (n ++ (s.rel, Replace.already_present) ∷ [])))
      × Idle (tree c) (insert s.rel t m)
unfolding take_text
one_round_present s m n c (t, e, b) h = (
  t,
  one_round_eq s m n c
      ∙ rw
          (
            view_of_tree c s.rel t e,
            take_text,
            get_or-Idle (tree c) s.rel m t h e,
            replace_once_present t s.old s.new b,
          )
          (unfold judge in refl),
  insert-Idle (tree c) s.rel t m e h,
)

collect_present :
    (steps : List Step) (m : PendingTexts) (n : StepResults) (c : Context)
    → All (IsPresent (tree c)) steps
    → Idle (tree c) m
    → (done : PendingTexts) × ((collect steps m n c).0 ≡ ok (went_on done (n ++ presents steps)))
      × Idle (tree c) done
unfolding collect
collect_present [] m n c h i = (m, rw append-nil, i)
collect_present (s ∷ steps) m n c (p, h) i =
    let (t, e, i') = one_round_present s m n c p i in
    let d = (one_round s m n c).1 in
    let same : tree d ≡ tree c = tree-Reads (one_round-Reads s m n c) in
    let (done, f, j) =
      collect_present steps (insert s.rel t m) (n ++ (s.rel, Replace.already_present) ∷ []) d
        (rw same h) (rw same i') in
    (done, rw (e, collect) (f ∙ rw append_assoc), rw same at j)

count_present :
    (steps : List Step)
    → (count is_applied (presents steps) ≡ 0)
      × (count is_present (presents steps) ≡ length (presents steps))
unfolding count
count_present [] = omega arith
count_present (s ∷ steps) = omega (arith, count_present steps)

summary_present :
    (s : Step) (steps : List Step) → summary (presents (s ∷ steps)) ≡ Status.already_present
unfolding summary
summary_present s steps = ground (arith, count_present (s ∷ steps), count_present steps)

-- Where every new block of a list of one step or more is in its file already, a pass succeeds,
-- reports `already_present` with that result for each step, and writes nothing.
pub apply_steps_present :
    (s : Step) (steps : List Step) (c : Context)
    → All (IsPresent (tree c)) (s ∷ steps)
    → ((apply_steps (s ∷ steps) c).0 ≡ ok (some Status.already_present, presents (s ∷ steps)))
      × Reads c (apply_steps (s ∷ steps) c).1
unfolding apply_steps finish
apply_steps_present s steps c h =
    let (m, e, i) =
      collect_present (s ∷ steps) [] [] c h (λ p t x. absurd (unfold lookup in cc x)) in
    let d = (collect (s ∷ steps) [] [] c).1 in
    let r = collect-Reads (s ∷ steps) [] [] c in
    let n =
      collect_keeps NodupKeys (s ∷ steps) [] [] c m _
        (All-of _ (λ s t k. insert-NodupKeys s.rel t k) (s ∷ steps)) tt e in
    let (w, r') = write_pending-Idle m d n (rw (tree-Reads r) i) in
    rw (e, apply_steps, finish, w) (rw (summary_present s steps) refl, Reads-trans r r')
