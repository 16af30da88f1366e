-- ===== src/Groups/Preserve.antt =====
-- Predicates on the context that a whole child keeps, where reading keeps them and writing the files
-- of its steps does: one rule for each function of scripts/abk_backport_engine.py.
use abk_5_15_backport.Prelude.{
  Bool, true, false, List, [], ◌∷◌, some, if◌then◌else◌, ◌≡◌, refl, ◌∙◌, ap, arith, All, All-imp,
  Bool-cases, inl, inr,
}
use abk_5_15_backport.Text.{Text, text_eq}
use abk_5_15_backport.Result.{Result, ok, err, Exec, ◌>>=◌, continue, pure}
use abk_5_15_backport.Disk.{FilePath}
use abk_5_15_backport.Context.{Context, read, write, pending_writes}
use abk_5_15_backport.Context.Laws.{Reads, read-Reads}
use abk_5_15_backport.Steps.{
  Step, Status, PendingTexts, StepResults, Round, refused, went_on, insert, collect, write_changed,
  write_pending, finish, apply_steps, summary,
}
use abk_5_15_backport.Steps.Collect.{collect-Reads}
use abk_5_15_backport.Steps.Pending.{collect_keeps}
use abk_5_15_backport.Groups.{
  PatchGroup, GroupResult, caught, run, read_all, changed_paths, judge, check, run_checked,
  run_group, run_groups,
}
use abk_5_15_backport.Groups.Guard.{read_all-OnlyReads, changed_paths-OnlyReads}

module _ (P : Context → Type 0) (Target : FilePath → Type 0)
    (reads : (c d : Context) → Reads c d → P c → P d)
    (writes : (rel : FilePath) (text : Text) (c : Context)
      → Target rel
      → P c
      → P (write rel text c).1) where
  -- The action keeps the predicate, whether it returns or raises.
  pub record Keeps {A : Type 0} (m : Exec Context A) : Type 0 where
    pub keeps : (c : Context) → P c → P (m c).1

  pub Reads-Keeps : {A : Type 0} (m : Exec Context A) → ((c : Context) → Reads c (m c).1) → Keeps m
  Reads-Keeps m r = record { keeps = λ c h. reads c (m c).1 (r c) h }

  pub pure-Keeps : {A : Type 0} (a : A) → Keeps (pure {S = Context} a)
  pure-Keeps a = record { keeps = λ c h. h }

  pub bind-Keeps :
      {A B : Type 0} (m : Exec Context A) (f : A → Exec Context B)
      → Keeps m
      → ((a : A) → Keeps (f a))
      → Keeps (m >>= f)
  bind-Keeps {A} m f hm hf = record { keeps = λ c h. go c h (m c).0 }
    where
      go : (c : Context) → P c → (r : Result A) → P (continue r f (m c).1).1
      go c h (ok a) = (hf a).keeps (m c).1 (hm.keeps c h)
      go c h (err x) = hm.keeps c h

  read-Keeps : (rel : FilePath) → Keeps (read rel)
  read-Keeps rel = Reads-Keeps (read rel) (read-Reads rel)

  write_changed-Keeps : (rel : FilePath) (text : Text) → Target rel → Keeps (write_changed rel text)
  unfolding write_changed
  write_changed-Keeps rel text t =
      bind-Keeps (read rel) (λ current. if text_eq text current then pure tt else write rel text)
        (read-Keeps rel) λ current. branch (text_eq text current)
    where
      branch : (b : Bool) → Keeps (if b then pure tt else write rel text)
      branch true = pure-Keeps tt
      branch false = record { keeps = λ c h. writes rel text c t h }

  abbrev Targets : PendingTexts → Type 0
  Targets = All (λ (k, t). Target k)

  insert-Targets :
      (k : FilePath) (t : Text) (m : PendingTexts) → Target k → Targets m → Targets (insert k t m)
  unfolding insert
  insert-Targets k t [] h hs = (h, tt)
  insert-Targets k t ((j, u) ∷ m) h (hj, hs) = branch (text_eq j k) (insert-Targets k t m h hs)
    where
      branch :
          (b : Bool)
          → Targets (insert k t m)
          → Targets (if b then (j, t) ∷ m else (j, u) ∷ insert k t m)
      branch true rest = (hj, hs)
      branch false rest = (hj, rest)

  write_pending-Keeps : (m : PendingTexts) → Targets m → Keeps (write_pending m)
  unfolding write_pending
  write_pending-Keeps [] hs = record { keeps = λ c h. h }
  write_pending-Keeps ((rel, text) ∷ m) (t, ts) = after (write_pending-Keeps m ts)
    where
      after : Keeps (write_pending m) → Keeps (write_pending ((rel, text) ∷ m))
      after rest = record {
        keeps = λ c h.
            go c ((write_changed-Keeps rel text t).keeps c h) (write_changed rel text c).0 refl;
      }
        where
          go :
              (c : Context)
              → P (write_changed rel text c).1
              → (r : Result (Unit {0})) → (write_changed rel text c).0 ≡ r
              → P (write_pending ((rel, text) ∷ m) c).1
          go c k (ok u) e = rw (e, write_pending) (rest.keeps (write_changed rel text c).1 k)
          go c k (err x) e = rw (e, write_pending) k

  abbrev pub IsAimed : List Step → Type 0
  IsAimed = All (λ (s : Step). Target s.rel)

  collect-Targets :
      (steps : List Step) (c : Context) (done : PendingTexts) (noted : StepResults)
      → IsAimed steps
      → (collect steps [] [] c).0 ≡ ok (went_on done noted)
      → Targets done
  collect-Targets steps c done noted ts e =
      collect_keeps Targets steps [] [] c done noted
        (All-imp (λ (s : Step). Target s.rel) _ (λ s t text m. insert-Targets s.rel text m t) steps
          ts)
        tt e

  finish-Keeps :
      (r : Round) (c : Context)
      → ((m : PendingTexts) (n : StepResults) → r ≡ went_on m n → Targets m)
      → P c
      → P (finish r c).1
  unfolding finish
  finish-Keeps (refused n) c ts h = h
  finish-Keeps (went_on m n) c ts h =
      (bind-Keeps (write_pending m) (λ _. pure (some (summary n), n))
          (write_pending-Keeps m (ts m n refl)) λ _. pure-Keeps (some (summary n), n)).keeps
        c h

  pub apply_steps-Keeps : (steps : List Step) → IsAimed steps → Keeps (apply_steps steps)
  unfolding apply_steps
  apply_steps-Keeps steps ts = record { keeps = λ c h. go c h (collect steps [] [] c).0 refl }
    where
      go :
          (c : Context)
          → P c
          → (r : Result Round) → (collect steps [] [] c).0 ≡ r
          → P (continue r finish (collect steps [] [] c).1).1
      go c h (ok round) e =
          finish-Keeps round (collect steps [] [] c).1
            (λ m n same. collect-Targets steps c m n ts (e ∙ ap ok same))
            (reads c _ (collect-Reads steps [] [] c) h)
      go c h (err x) e = reads c _ (collect-Reads steps [] [] c) h

  run-Keeps : (g : PatchGroup) → Keeps g.apply_fn → Keeps (run g)
  unfolding run
  run-Keeps g h = record { keeps = λ c p. go (g.apply_fn c) (h.keeps c p) }
    where
      go : (r : Result Status × Context) → P r.1 → P (caught g r).1
      go (ok st, d) k = unfold caught in k
      go (err x, d) k = elim (Bool-cases g.hard) [
        | inl e ↦ unfold caught in rw e k
        | inr e ↦ unfold caught in rw e k
      ]

  judge-Keeps : (g : GroupResult) (changed : List FilePath) → Keeps (judge g changed)
  unfolding judge
  judge-Keeps g changed = record { keeps = λ c h. rw (same c) h }
    where
      same : (c : Context) → (judge g changed c).1 ≡ c
      same c = ground arith

  check-Keeps : (before : List (FilePath × Text)) (r : GroupResult) → Keeps (check before r)
  unfolding check
  check-Keeps before r = record {
    keeps = λ c h.
        (bind-Keeps (changed_paths before (pending_writes c)) (judge r)
            (Reads-Keeps (changed_paths before (pending_writes c))
              (changed_paths-OnlyReads before (pending_writes c)).reads)
            (judge-Keeps r)).keeps
          c h;
  }

  run_checked-Keeps : (g : PatchGroup) → Keeps g.apply_fn → Keeps (run_checked g)
  unfolding run_checked
  run_checked-Keeps g h = record {
    keeps = λ c p.
        (bind-Keeps (read_all (pending_writes c)) (λ before. do result ← run g; check before result)
            (Reads-Keeps (read_all (pending_writes c))
              (read_all-OnlyReads (pending_writes c)).reads)
            (λ before.
              bind-Keeps (run g) (check before) (run-Keeps g h) (check-Keeps before))).keeps
          c p;
  }

  run_group-Keeps :
      (enabled : Bool) (g : PatchGroup) → Keeps g.apply_fn → Keeps (run_group enabled g)
  unfolding run_group
  run_group-Keeps true g h = run_checked-Keeps g h
  run_group-Keeps false g h = record { keeps = λ c p. p }

  pub run_groups-Keeps :
      (enabled : Bool) (groups : List PatchGroup)
      → All (λ (g : PatchGroup). Keeps g.apply_fn) groups
      → Keeps (run_groups enabled groups)
  unfolding run_groups
  run_groups-Keeps enabled [] hs = pure-Keeps []
  run_groups-Keeps enabled (g ∷ groups) (h, hs) =
      bind-Keeps (run_group enabled g)
        (λ result. do rest ← run_groups enabled groups; pure (result ∷ rest))
        (run_group-Keeps enabled g h)
        λ result.
          bind-Keeps (run_groups enabled groups) (λ rest. pure (result ∷ rest))
            (run_groups-Keeps enabled groups hs) λ rest. pure-Keeps (result ∷ rest)
