-- ===== src/Tests.antt =====
-- A small tree for the tests: one file of two lines, nothing locked, nothing read yet.
mod Replacing
mod Writing
mod Stepping
mod Grouping
mod Configuring
mod RollingBack
mod Parsing
mod Installing
use abk_5_15_backport.Prelude.{
  ℕ, Bool, true, false, List, [], ◌∷◌, Option, none, some, if◌then◌else◌, ◌≡◌, refl, sym, ◌∙◌,
}
use abk_5_15_backport.Text.{Text, codes, text_eq}
use abk_5_15_backport.Replace
use abk_5_15_backport.Replace.{StepStatus, missing_anchor}
use abk_5_15_backport.Disk.{FilePath, File, utf8, Disk}
use abk_5_15_backport.Context.{Context}
use abk_5_15_backport.Context.Coherent.{IsSound}
use abk_5_15_backport.Steps.{Step, StepResults}
use abk_5_15_backport.Groups.Guard.{StepSpec}

abbrev pub file_a : FilePath
file_a = codes "a"

abbrev pub old_text : Text
old_text = codes "x\ny\n"

abbrev pub new_text : Text
new_text = codes "z\ny\n"

unfoldable pub only_a : FilePath → Option File
unfolding text_eq
only_a p = if text_eq file_a p then some (utf8 old_text) else none

abbrev pub small_disk : Disk
small_disk = record { file = only_a; locked = λ p. false }

abbrev pub small : Context
small = record {
  disk = small_disk;
  texts = λ p. none;
  dirty = [];
  block_shape = none;
  dry_run = false;
  family = codes "android13-5.15";
  defconfig = none;
  defconfig_rel = none;
}

abbrev pub first_step : Step
first_step = record { rel = file_a; old = codes "x\n"; new = codes "z\n"; required = true }

abbrev pub lost_step : Step
lost_step = record { rel = file_a; old = codes "q\n"; new = codes "w\n"; required = true }

abbrev pub optional_step : Step
optional_step = record { rel = file_a; old = codes "q\n"; new = codes "w\n"; required = false }

-- A step whose new block is there already.
abbrev pub done_step : Step
done_step = record { rel = file_a; old = codes "w\n"; new = codes "y\n"; required = true }

abbrev pub notes : StepResults
notes = (file_a, Replace.applied) ∷ (file_a, missing_anchor) ∷ []

abbrev pub small_spec : StepSpec
small_spec = record {
  key = codes "k";
  summary = codes "s";
  commits = [];
  files = file_a ∷ [];
  steps = first_step ∷ optional_step ∷ [];
}

none-some : (t : Text) → none ≡ some t → ⊥
none-some t x = cc

-- With nothing read and nothing locked, a context is sound.
pub unread-IsSound :
    (c : Context)
    → ((p : FilePath) → c.texts p ≡ none)
    → ((p : FilePath) → c.disk.locked p ≡ false)
    → IsSound c
unread-IsSound c unread free = record {
  coherent = λ dry p t x. absurd (none-some t (sym (unread p) ∙ x));
  free = free;
}

pub small-IsSound : IsSound small
small-IsSound = unread-IsSound small (λ p. refl) (λ p. refl)
