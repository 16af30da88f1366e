-- ===== src/Groups/Probes/Acts.antt =====
-- What the groups with probes do to the tree: one rule for each way to build a group's function.
use abk_5_15_backport.Prelude.{
  Bool, true, false, List, if◌then◌else◌, ◌≡◌, refl, Bool-cases, inl, inr,
}
use abk_5_15_backport.Text.{Text, contains}
use abk_5_15_backport.Result.{Result, ok, err, Exec, ◌>>=◌, continue, pure}
use abk_5_15_backport.Disk.{FilePath}
use abk_5_15_backport.Context.{Context, read}
use abk_5_15_backport.Context.Laws.{Tree, Reads-refl}
use abk_5_15_backport.Context.Coherent.{IsSound}
use abk_5_15_backport.Context.Reading.{OnlyReads, OnlyReads-pure, OnlyReads-read, OnlyReads-bind}
use abk_5_15_backport.Steps.{Step, Status, already_present, blocked_by_shape}
use abk_5_15_backport.Groups.{is_edit}
use abk_5_15_backport.Groups.Guard.{or_blocked, apply_or_block}
use abk_5_15_backport.Groups.Acting.{
  edits, edit_all, Acts, Acts-idle, Acts-before, Acts-bind, IsLast, Acts-apply_steps,
}
use abk_5_15_backport.Groups.Probes.{
  read_or_empty, probed_apply, has_all, superseded, superseded_apply, Refusal, read_result_or_block,
  read_or_block, requiring,
}

-- An action that makes the change, or nothing, as it reports.
pub record ActsAs (change : Tree → Tree) (m : Exec Context Status) : Type 0 where
  pub acts : (c : Context) → IsSound c → Acts change c (m c)

pub ActsAs-pure :
    (change : Tree → Tree) (st : Status) → is_edit st ≡ false → ActsAs change (pure st)
ActsAs-pure change st e = record { acts = λ c h. Acts-idle change c c (ok st) e (Reads-refl c) h }

pub ActsAs-if :
    (change : Tree → Tree) (b : Bool) (m n : Exec Context Status)
    → ActsAs change m
    → ActsAs change n
    → ActsAs change (if b then m else n)
ActsAs-if change true m n hm hn = hm
ActsAs-if change false m n hm hn = hn

pub ActsAs-bind :
    {A : Type 0} (change : Tree → Tree) (m : Exec Context A) (f : A → Exec Context Status)
    → OnlyReads m
    → ((a : A) → ActsAs change (f a))
    → ActsAs change (m >>= f)
ActsAs-bind change m f rules k = record {
  acts = λ c h. Acts-bind change m f c rules h λ a d e reads sound. (k a).acts d sound;
}

or_blocked-IsLast : IsLast (λ outcome. pure (or_blocked outcome))
unfolding or_blocked
or_blocked-IsLast = record { refused = λ n d h. (refl, Reads-refl d, h); returned = λ st n d. refl }

pub ActsAs-apply_or_block : (steps : List Step) → ActsAs (edit_all steps) (apply_or_block steps)
unfolding apply_or_block
ActsAs-apply_or_block steps = record {
  acts = λ c h. Acts-apply_steps steps (λ outcome. pure (or_blocked outcome)) c or_blocked-IsLast h;
}

read_or_empty-OnlyReads : (rel : FilePath) → OnlyReads (read_or_empty rel)
unfolding read_or_empty
read_or_empty-OnlyReads rel = record {
  reads = (OnlyReads-read rel).reads;
  sound = (OnlyReads-read rel).sound;
}

pub ActsAs-probed_apply :
    (rel : FilePath) (marker : Text) (steps : List Step)
    → ActsAs (edit_all steps) (probed_apply rel marker steps)
unfolding probed_apply
ActsAs-probed_apply rel marker steps =
    ActsAs-bind (edit_all steps) (read_or_empty rel) _ (read_or_empty-OnlyReads rel) λ text.
      ActsAs-if (edit_all steps) (contains marker text) _ _
        (ActsAs-pure (edit_all steps) already_present refl) (ActsAs-apply_or_block steps)

superseded-IsLast : (rel : FilePath) (needles : List Text) → IsLast (superseded rel needles)
unfolding superseded
superseded-IsLast rel needles = record {
  refused = λ n d h. (no_edit (read rel d).0 (read rel d).1, reading.reads d, reading.sound d h);
  returned = λ st n d. refl;
}
  where
    answer : Text → Exec Context Status
    answer text = pure (if has_all needles text then already_present else blocked_by_shape)

    reading : OnlyReads (read rel >>= answer)
    reading = OnlyReads-bind (read rel) answer (OnlyReads-read rel) λ t. OnlyReads-pure _

    no_edit : (r : Result Text) (d : Context) → edits (continue r answer d).0 ≡ false
    no_edit (ok text) d = elim (Bool-cases (has_all needles text)) [
      | inl e ↦ rw e refl
      | inr e ↦ rw e refl
    ]
    no_edit (err x) d = refl

pub ActsAs-superseded_apply :
    (rel : FilePath) (needles : List Text) (steps : List Step)
    → ActsAs (edit_all steps) (superseded_apply rel needles steps)
unfolding superseded_apply
ActsAs-superseded_apply rel needles steps = record {
  acts = λ c h. Acts-apply_steps steps (superseded rel needles) c (superseded-IsLast rel needles) h;
}

pub ActsAs-read_or_block :
    (change : Tree → Tree) (refusal : Refusal) (rel : FilePath) (body : Text → Exec Context Status)
    → ((text : Text) → ActsAs change (body text))
    → ActsAs change (read_or_block refusal rel body)
unfolding read_or_block read_result_or_block
ActsAs-read_or_block change refusal rel body k = record {
  acts = λ c h.
      Acts-before change ((OnlyReads-read rel).reads c)
        (go (read rel c).0 (read rel c).1 ((OnlyReads-read rel).sound c h));
}
  where
    go :
        (r : Result Text) (d : Context)
        → IsSound d
        → Acts change d (read_result_or_block refusal body r d)
    go (ok text) d h = (k text).acts d h
    go (err e) d h = either (refusal e)
      where
        either : (b : Bool) → Acts change d (if b then (ok blocked_by_shape, d) else (err e, d))
        either true = Acts-idle change d d (ok blocked_by_shape) refl (Reads-refl d) h
        either false = Acts-idle change d d (err e) refl (Reads-refl d) h

pub ActsAs-requiring :
    (change : Tree → Tree) (text : Text) (probes : List Text) (body : Exec Context Status)
    → ActsAs change body
    → ActsAs change (requiring text probes body)
unfolding requiring
ActsAs-requiring change text probes body k =
    ActsAs-if change (has_all probes text) body (pure blocked_by_shape) k
      (ActsAs-pure change blocked_by_shape refl)

pub ruleset acting_rules = (
  ActsAs-pure, ActsAs-if, ActsAs-bind, ActsAs-apply_or_block, ActsAs-probed_apply,
  ActsAs-superseded_apply, ActsAs-read_or_block, ActsAs-requiring, OnlyReads-read,
)
