-- ===== src/Tests/Stepping.antt =====
-- Runs of `apply_steps` on the small tree.
use abk_5_15_backport.Prelude.{true, false, [], ◌∷◌, none, some, ◌≡◌, ◌≢◌, refl, arith}
use abk_5_15_backport.Text.{
  Text, codes, text_eq, strip_prefix, cut, contains, replace_first, split_from, split, join,
  replace_all,
}
use abk_5_15_backport.Replace.{
  missing_anchor, to_lf, to_crlf, eol_variants, replace_variant, has_block, replace_once,
}
use abk_5_15_backport.Result.{ok}
use abk_5_15_backport.Disk.{
  backup_path, update, read_bytes, decode, read_text, write_bytes, copy_to, snapshot, write_text,
}
use abk_5_15_backport.Context.{text_lt, add_path, keep_text, read, mark_dirty, written, write}
use abk_5_15_backport.Context.Laws.{tree, view, Reads}
use abk_5_15_backport.Steps
use abk_5_15_backport.Steps.{
  Step, Status, StepResults, lookup, insert, missed, judge, absent, take_text, one_round, collect,
  write_changed, write_pending, count, summary, finish, apply_steps,
}
use abk_5_15_backport.Steps.Collect.{edit, edit_one}
use abk_5_15_backport.Steps.Transaction.{apply_steps-edit}
use abk_5_15_backport.Steps.Refusal.{finds, lacks_anchor, AllOpen, Settled, apply_steps-Settled}
use abk_5_15_backport.Steps.SecondPass.{apply_steps_present, presents}
use abk_5_15_backport.Steps.Statuses.{apply_steps_honest, apply_steps-Means, Means}
use abk_5_15_backport.Steps.Degraded.{Notes}
use abk_5_15_backport.Steps.Sound.{apply_steps-IsSound, Sees}
use abk_5_15_backport.Context.Coherent.{IsSound}
use abk_5_15_backport.Tests.{
  file_a, small, only_a, first_step, lost_step, optional_step, done_step, notes, small-IsSound,
  old_text, new_text,
}

abbrev later_step : Step
later_step = record { rel = file_a; old = codes "z\n"; new = codes "w\n"; required = true }

abbrev absent_step : Step
absent_step = record { rel = codes "b"; old = codes "z\n"; new = codes "w\n"; required = true }

-- An optional anchor is missing; a required one; every new block is there; none of the anchors is.
runs :
    ((apply_steps (first_step ∷ optional_step ∷ []) small).0 ≡ ok (some Steps.partial, notes))
    × ((apply_steps (first_step ∷ lost_step ∷ []) small).0 ≡ ok (none, notes))
    × ((apply_steps (optional_step ∷ []) small).0
        ≡ ok (some Steps.blocked_by_missing_anchor, (file_a, missing_anchor) ∷ []))
    × ((tree (apply_steps (first_step ∷ optional_step ∷ []) small).1 file_a) ≡ some new_text)
unfolding strip_prefix cut contains replace_first split_from split join replace_all text_eq to_lf
    to_crlf eol_variants replace_variant has_block replace_once backup_path update read_bytes decode
    read_text write_bytes copy_to snapshot write_text text_lt add_path keep_text read mark_dirty
    written write lookup insert missed judge absent take_text one_round collect write_changed
    write_pending count summary finish apply_steps only_a tree view
runs = (refl, refl, refl, refl)

ne : backup_path file_a ≢ file_a
unfolding backup_path
ne x = absurd (ground arith)

apply_steps-edit_example :
    tree (apply_steps (first_step ∷ optional_step ∷ []) small).1 file_a
    ≡ edit file_a (first_step ∷ optional_step ∷ []) (tree small file_a)
apply_steps-edit_example =
    apply_steps-edit (first_step ∷ optional_step ∷ []) small file_a Steps.partial notes
      (ne, (ne, tt)) runs.0

-- A required anchor that is lost is a reason to refuse, an optional one is not, nor is one that an
-- earlier step writes.
lacking :
    (lacks_anchor (first_step ∷ lost_step ∷ []) (tree small) ≡ true)
    × (lacks_anchor (first_step ∷ optional_step ∷ []) (tree small) ≡ false)
    × (lacks_anchor (first_step ∷ later_step ∷ []) (tree small) ≡ false)
    × (lacks_anchor (later_step ∷ []) (tree small) ≡ true)
    × (lacks_anchor (absent_step ∷ []) (tree small) ≡ true)
unfolding strip_prefix cut contains replace_first split_from split join replace_all text_eq to_lf
    to_crlf eol_variants replace_variant has_block replace_once read_bytes decode read_text only_a
    tree view finds edit_one lacks_anchor
lacking = (refl, refl, refl, refl, refl)

small-AllOpen : AllOpen small (first_step ∷ lost_step ∷ [])
unfolding view read_text decode read_bytes only_a text_eq
small-AllOpen = (tt, (tt, tt))

apply_steps-Settled_example :
    Settled
      (first_step ∷ lost_step ∷ [])
      file_a
      small
      (lacks_anchor (first_step ∷ lost_step ∷ []) (tree small))
      (apply_steps (first_step ∷ lost_step ∷ []) small)
apply_steps-Settled_example =
    apply_steps-Settled (first_step ∷ lost_step ∷ []) small file_a small-IsSound small-AllOpen
      (ne, (ne, tt))

apply_steps_honest_example : Reads small (apply_steps (optional_step ∷ []) small).1
apply_steps_honest_example =
    apply_steps_honest (optional_step ∷ []) small Steps.blocked_by_missing_anchor
      ((file_a, missing_anchor) ∷ []) runs.2 (λ x. ground arith) (λ x. ground arith)

apply_steps-Means_example :
    Notes (first_step ∷ optional_step ∷ []) notes × Means Steps.partial notes
apply_steps-Means_example =
    apply_steps-Means (first_step ∷ optional_step ∷ []) small Steps.partial notes runs.0

a_present : (t : Text) × (tree small file_a ≡ some t) × (has_block t done_step.new ≡ true)
unfolding tree view read_text read_bytes decode only_a text_eq has_block contains cut strip_prefix
    to_lf to_crlf replace_all split split_from join
a_present = (old_text, refl, refl)

apply_steps_present_example :
    ((apply_steps (done_step ∷ []) small).0
      ≡ ok (some Steps.already_present, presents (done_step ∷ [])))
    × Reads small (apply_steps (done_step ∷ []) small).1
apply_steps_present_example = apply_steps_present done_step [] small (a_present, tt)

apply_steps-IsSound_example :
    IsSound (apply_steps (first_step ∷ lost_step ∷ []) small).1
    × Sees small (apply_steps (first_step ∷ lost_step ∷ []) small)
apply_steps-IsSound_example = apply_steps-IsSound (first_step ∷ lost_step ∷ []) small small-IsSound
