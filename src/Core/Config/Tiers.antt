-- ===== src/Core/Config/Tiers.antt =====
-- What the group `config_enablement` of scripts/abk_stable_core.py does to the tree.
use abk_5_15_backport.Prelude.{Bool, true, false, some, ◌≡◌, ◌≢◌, ◌∙◌, sym, arith}
use abk_5_15_backport.Result.{Result, ok, err, continue, pure}
use abk_5_15_backport.Disk.{FilePath, backup_path}
use abk_5_15_backport.Context.{Context}
use abk_5_15_backport.Context.Defconfig.{enable_configs, defconfig_drop_cmdline_token}
use abk_5_15_backport.Context.Defconfig.Honest.{
  Touches, reports_edit, enable_configs-Touches, drop_cmdline_token-Touches,
}
use abk_5_15_backport.Context.Laws.{tree, Reads, Reads-trans}
use abk_5_15_backport.Context.Coherent.{IsSound}
use abk_5_15_backport.Steps.{Status, already_present, report_only}
use abk_5_15_backport.Core.Config.{
  Switches, configs_of, psi_status, drop_if, config_enablement_apply, psi_cmdline_token,
}

-- The status tells of no edit and of no refused one.
abbrev pub is_quiet : Result Status → Bool
is_quiet (ok already_present) = true
is_quiet (ok report_only) = true
is_quiet _ = false

-- With such a status, nothing is written; with any, no file but the defconfig and its backup.
pub record Tuned (c : Context) (r : Result Status × Context) : Type 0 where
  pub sound : IsSound r.1
  pub idle : is_quiet r.0 ≡ true → Reads c r.1
  pub other :
      (p : FilePath)
      → c.defconfig_rel ≢ some p
      → ((q : FilePath) → c.defconfig_rel ≡ some q → backup_path q ≢ p)
      → tree r.1 p ≡ tree c p

quiet_first : (a b : Status) → is_quiet (ok (psi_status a b)) ≡ true → reports_edit (ok a) ≡ false
unfolding psi_status
quiet_first a b h = ground arith

quiet_second : (a b : Status) → is_quiet (ok (psi_status a b)) ≡ true → reports_edit (ok b) ≡ false
unfolding psi_status
quiet_second a b h = ground arith

quiet_alone : (r : Result Status) → is_quiet r ≡ true → reports_edit r ≡ false
quiet_alone r h = ground arith

Tuned-Touches :
    (c : Context) (r : Result Status × Context) → Touches c.defconfig_rel c r → Tuned c r
Tuned-Touches c r t = record {
  sound = t.sound;
  idle = λ q. t.idle (quiet_alone r.0 q);
  other = t.other;
}

-- One edit of the defconfig behind another.
Tuned-second :
    (c d e : Context) (a : Status) (s : Result Status) (r : Result Status)
    → Touches c.defconfig_rel c (ok a, d)
    → Touches d.defconfig_rel d (s, e)
    → (is_quiet r ≡ true → (reports_edit (ok a) ≡ false) × (reports_edit s ≡ false))
    → Tuned c (r, e)
Tuned-second c d e a s r one two quiet = record {
  sound = two.sound;
  idle = λ q. Reads-trans (one.idle (quiet q).0) (two.idle (quiet q).1);
  other = λ p x y.
      two.other p (λ z. x (sym one.defconfig ∙ z)) (λ q z. y q (sym one.defconfig ∙ z))
      ∙ one.other p x y;
}

-- The group over the defconfig leaves a sound context sound. If it reports `already_present` or
-- `report_only` it has written nothing, and it changes the text of no file but the defconfig and
-- its backup, whatever tiers are on.
pub config_enablement_apply-Tuned :
    (on : Switches) (c : Context) → IsSound c → Tuned c (config_enablement_apply on c)
unfolding config_enablement_apply drop_if
config_enablement_apply-Tuned on c h =
    go (enable_configs (configs_of on) c) (enable_configs-Touches (configs_of on) c h) on.psi
  where
    dropped :
        (d : Context) (a : Status)
        → Touches c.defconfig_rel c (ok a, d)
        → (r : Result Status × Context) → Touches d.defconfig_rel d r
        → Tuned c (continue r.0 (λ psi. pure (psi_status a psi)) r.1)
    dropped d a one (ok b, e) two =
        Tuned-second c d e a (ok b) (ok (psi_status a b)) one two
          (λ q. (quiet_first a b q, quiet_second a b q))
    dropped d a one (err x, e) two =
        Tuned-second c d e a (err x) (err x) one two (λ q. absurd (ground arith))

    go :
        (r : Result Status × Context)
        → Touches c.defconfig_rel c r
        → (psi : Bool) → Tuned c (continue r.0 (drop_if psi) r.1)
    go (err x, d) t psi = Tuned-Touches c (err x, d) t
    go (ok a, d) t false = Tuned-Touches c (ok a, d) t
    go (ok a, d) t true =
        dropped d a t (defconfig_drop_cmdline_token psi_cmdline_token d)
          (drop_cmdline_token-Touches psi_cmdline_token d t.sound)
