-- ===== src/Context/Reading.antt =====
-- Actions on a `GraftContext` that only read, one rule for each way to build one.
use abk_5_15_backport.Prelude.{Bool, true, false, if◌then◌else◌}
use abk_5_15_backport.Result.{Error, Result, ok, err, Exec, ◌>>=◌, continue, pure, raise}
use abk_5_15_backport.Disk.{FilePath}
use abk_5_15_backport.Context.{Context, read}
use abk_5_15_backport.Context.Laws.{Reads, Reads-refl, Reads-trans, read-Reads}
use abk_5_15_backport.Context.Coherent.{IsSound, read-IsSound}

-- Whether `m` returns or raises, it changes nothing that a reader or the disk can show, and keeps
-- cache and disk in agreement.
pub record OnlyReads {A : Type 0} (m : Exec Context A) : Type 0 where
  pub reads : (c : Context) → Reads c (m c).1
  pub sound : (c : Context) → IsSound c → IsSound (m c).1

module _ {A : Type 0} where
  pub OnlyReads-pure : (a : A) → OnlyReads (pure {S = Context} a)
  OnlyReads-pure a = record { reads = Reads-refl; sound = λ c h. h }

  pub OnlyReads-raise : (e : Error) → OnlyReads {A = A} (raise {S = Context} e)
  OnlyReads-raise e = record { reads = Reads-refl; sound = λ c h. h }

  pub OnlyReads-if :
      (b : Bool) (m n : Exec Context A)
      → OnlyReads m
      → OnlyReads n
      → OnlyReads (λ c. if b then m c else n c)
  OnlyReads-if true m n hm hn = hm
  OnlyReads-if false m n hm hn = hn

pub OnlyReads-read : (p : FilePath) → OnlyReads (read p)
OnlyReads-read p = record { reads = read-Reads p; sound = read-IsSound p }

module _ {A B : Type 0} where
  pub OnlyReads-bind :
      (m : Exec Context A) (f : A → Exec Context B)
      → OnlyReads m
      → ((a : A) → OnlyReads (f a))
      → OnlyReads (m >>= f)
  OnlyReads-bind m f hm hf = record {
    reads = λ c. go_reads c (m c).0;
    sound = λ c h. go_sound c h (m c).0;
  }
    where
      go_reads : (c : Context) (r : Result A) → Reads c (continue r f (m c).1).1
      go_reads c (ok a) = Reads-trans (hm.reads c) ((hf a).reads (m c).1)
      go_reads c (err x) = hm.reads c

      go_sound : (c : Context) → IsSound c → (r : Result A) → IsSound (continue r f (m c).1).1
      go_sound c h (ok a) = (hf a).sound (m c).1 (hm.sound c h)
      go_sound c h (err x) = hm.sound c h

pub ruleset reading_rules =
    (OnlyReads-pure, OnlyReads-raise, OnlyReads-read, OnlyReads-bind, OnlyReads-if)
