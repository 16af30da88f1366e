-- ===== src/Groups/Aims.antt =====
-- Which files the function of a group may write: one rule for each way in which the functions are
-- built.
use abk_5_15_backport.Prelude.{
  Bool, true, false, List, Option, none, some, if◌then◌else◌, All, All-imp,
}
use abk_5_15_backport.Text.{Text, contains}
use abk_5_15_backport.Result.{Result, ok, err, Exec, ◌>>=◌, pure}
use abk_5_15_backport.Disk.{FilePath}
use abk_5_15_backport.Context.{Context, read, write}
use abk_5_15_backport.Context.Laws.{Reads, read-Reads}
use abk_5_15_backport.Steps.{
  Step, Status, StepResults, apply_steps, already_present, blocked_by_shape,
}
use abk_5_15_backport.Groups.{PatchGroup, run_groups}
use abk_5_15_backport.Groups.Guard.{or_blocked, apply_or_block}
use abk_5_15_backport.Groups.Preserve.{
  Keeps, Reads-Keeps, pure-Keeps, bind-Keeps, apply_steps-Keeps, run_groups-Keeps,
}
use abk_5_15_backport.Groups.Probes.{
  read_or_empty, probed_apply, has_all, superseded, superseded_apply, Refusal, read_result_or_block,
  read_or_block, requiring,
}

-- The action is built of readings and of writes to targets: what both of them keep, it keeps.
pub record Aims (Target : FilePath → Type 0) {A : Type 0} (m : Exec Context A) : Type 1 where
  pub law :
      (P : Context → Type 0) (reads : (c d : Context) → Reads c d → P c → P d)
      (writes : (rel : FilePath) (text : Text) (c : Context)
        → Target rel
        → P c
        → P (write rel text c).1)
      → Keeps P Target reads writes m

module _ (Target : FilePath → Type 0) where
  Aims-Reads : {A : Type 0} (m : Exec Context A) → ((c : Context) → Reads c (m c).1) → Aims Target m
  Aims-Reads m r = record { law = λ P reads writes. Reads-Keeps P Target reads writes m r }

  pub Aims-pure : {A : Type 0} (a : A) → Aims Target (pure {S = Context} a)
  Aims-pure a = record { law = λ P reads writes. pure-Keeps P Target reads writes a }

  Aims-bind :
      {A B : Type 0} (m : Exec Context A) (f : A → Exec Context B)
      → Aims Target m
      → ((a : A) → Aims Target (f a))
      → Aims Target (m >>= f)
  Aims-bind m f hm hf = record {
    law = λ P reads writes.
        bind-Keeps P Target reads writes m f (hm.law P reads writes) λ a. (hf a).law P reads writes;
  }

  pub Aims-if :
      {A : Type 0} (b : Bool) (m n : Exec Context A)
      → Aims Target m
      → Aims Target n
      → Aims Target (if b then m else n)
  Aims-if true m n hm hn = hm
  Aims-if false m n hm hn = hn

  Aims-apply_steps :
      (steps : List Step) → All (λ (s : Step). Target s.rel) steps → Aims Target (apply_steps steps)
  Aims-apply_steps steps ts = record {
    law = λ P reads writes. apply_steps-Keeps P Target reads writes steps ts;
  }

  pub Aims-apply_or_block :
      (steps : List Step)
      → All (λ (s : Step). Target s.rel) steps
      → Aims Target (apply_or_block steps)
  unfolding apply_or_block
  Aims-apply_or_block steps ts =
      Aims-bind (apply_steps steps) (λ outcome. pure (or_blocked outcome))
        (Aims-apply_steps steps ts) λ outcome. Aims-pure (or_blocked outcome)

  pub Aims-probed_apply :
      (rel : FilePath) (marker : Text) (steps : List Step)
      → All (λ (s : Step). Target s.rel) steps
      → Aims Target (probed_apply rel marker steps)
  unfolding probed_apply
  Aims-probed_apply rel marker steps ts =
      Aims-bind (read_or_empty rel) _
        (Aims-Reads (read_or_empty rel) (unfold read_or_empty in read-Reads rel))
        λ text.
          Aims-if (contains marker text) _ _ (Aims-pure already_present)
            (Aims-apply_or_block steps ts)

  Aims-superseded :
      (rel : FilePath) (needles : List Text) (outcome : Option Status × StepResults)
      → Aims Target (superseded rel needles outcome)
  unfolding superseded
  Aims-superseded rel needles (none, n) =
      Aims-bind (read rel) _ (Aims-Reads (read rel) (read-Reads rel)) λ text. Aims-pure _
  Aims-superseded rel needles (some st, n) = Aims-pure st

  pub Aims-superseded_apply :
      (rel : FilePath) (needles : List Text) (steps : List Step)
      → All (λ (s : Step). Target s.rel) steps
      → Aims Target (superseded_apply rel needles steps)
  unfolding superseded_apply
  Aims-superseded_apply rel needles steps ts =
      Aims-bind (apply_steps steps) (superseded rel needles) (Aims-apply_steps steps ts)
        (Aims-superseded rel needles)

  pub Aims-read_or_block :
      (refusal : Refusal) (rel : FilePath) (body : Text → Exec Context Status)
      → ((text : Text) → Aims Target (body text))
      → Aims Target (read_or_block refusal rel body)
  unfolding read_or_block read_result_or_block
  Aims-read_or_block refusal rel body k = record {
    law = λ P reads writes. record {
      keeps =
          λ c h. go P reads writes (read rel c).0 (read rel c).1 (reads c _ (read-Reads rel c) h);
    };
  }
    where
      go :
          (P : Context → Type 0) (reads : (c d : Context) → Reads c d → P c → P d)
          (writes : (rel : FilePath) (text : Text) (c : Context)
            → Target rel
            → P c
            → P (write rel text c).1)
          (r : Result Text) (d : Context)
          → P d
          → P (read_result_or_block refusal body r d).1
      go P reads writes (ok text) d h = ((k text).law P reads writes).keeps d h
      go P reads writes (err e) d h = either (refusal e)
        where
          either :
              (b : Bool)
              → P
                  (if◌then◌else◌ {A = Result Status × Context} b
                    (ok blocked_by_shape, d)
                    (err e, d)).1
          either true = h
          either false = h

  pub Aims-requiring :
      (text : Text) (probes : List Text) (body : Exec Context Status)
      → Aims Target body
      → Aims Target (requiring text probes body)
  unfolding requiring
  Aims-requiring text probes body k =
      Aims-if (has_all probes text) body (pure blocked_by_shape) k (Aims-pure blocked_by_shape)

  pub Aims-run_groups :
      (enabled : Bool) (groups : List PatchGroup)
      → All (λ (g : PatchGroup). Aims Target g.apply_fn) groups
      → Aims Target (run_groups enabled groups)
  Aims-run_groups enabled groups hs = record {
    law = λ P reads writes. run_groups-Keeps P Target reads writes enabled groups (
        All-imp _ _ (λ (g : PatchGroup) (k : Aims Target g.apply_fn). k.law P reads writes) groups
          hs);
  }

pub ruleset aiming_rules = (
  Aims-pure, Aims-if, Aims-apply_or_block, Aims-probed_apply, Aims-superseded_apply,
  Aims-read_or_block, Aims-requiring,
)
