-- ===== src/Core/Config.antt =====
-- The group `config_enablement` of scripts/abk_stable_core.py. Whether a tier is on is read from the
-- environment, and given here.
pub mod Tiers
use abk_5_15_backport.Prelude.{Bool, true, false, List, String, [], ◌∷◌, ◌++◌, if◌then◌else◌}
use abk_5_15_backport.Text.{Text, codes, block}
use abk_5_15_backport.Groups.{PatchGroup}
use abk_5_15_backport.Result.{Exec, ◌>>=◌, pure}
use abk_5_15_backport.Context.{Context}
use abk_5_15_backport.Context.Defconfig.{Config, enable_configs, defconfig_drop_cmdline_token}
use abk_5_15_backport.Steps.{Status, applied, blocked_by_missing_anchor}

abbrev config : String → String → Config
config name value = (codes name, codes value)

unfoldable pub module_configs : List Config
module_configs =
    config "ZRAM_TRACK_ENTRY_ACTIME" "y"
    ∷ config "ZRAM_MULTI_COMP" "y"
    ∷ config "ABK_DYNAMIC_READAHEAD" "y"
    ∷ config "RCU_NOCB_CPU_DEFAULT_ALL" "y"
    ∷ []

unfoldable pub align_configs : List Config
align_configs =
    config "LRU_GEN_ENABLED" "y"
    ∷ config "TCP_CONG_ADVANCED" "y"
    ∷ config "TCP_CONG_BBR" "y"
    ∷ config "BLK_WBT" "y"
    ∷ config "BLK_DEV_THROTTLING" "y"
    ∷ config "TASK_DELAY_ACCT" "y"
    ∷ []

unfoldable pub rom_configs : List Config
rom_configs = config "ZRAM_WRITEBACK" "y" ∷ []

abbrev pub psi_cmdline_token : Text
psi_cmdline_token = codes "cgroup_disable=pressure"

pub record Switches : Type 0 where
  pub align : Bool
  pub rom : Bool
  pub psi : Bool

unfoldable pub configs_of : Switches → List Config
configs_of on =
    module_configs
    ++ ((if on.align then align_configs else []) ++ (if on.rom then rom_configs else []))

-- The status of the token's edit over that of the symbols'.
unfoldable pub psi_status : Status → Status → Status
psi_status status blocked_by_missing_anchor = blocked_by_missing_anchor
psi_status status applied = applied
psi_status status _ = status

unfoldable pub drop_if : Bool → Status → Exec Context Status
drop_if true status = do
  psi ← defconfig_drop_cmdline_token psi_cmdline_token
  pure (psi_status status psi)
drop_if false status = pure status

unfoldable pub config_enablement_apply : Switches → Exec Context Status
config_enablement_apply on = do status ← enable_configs (configs_of on); drop_if on.psi status

unfoldable pub config_enablement : Switches → PatchGroup
config_enablement on = record {
  key = codes "config_enablement";
  summary = block (
      "enable the module-owned zram recompression symbols in the build defconfig, "
      ∷ "optionally aligning with the android15-6.6 GKI config" ∷ []);
  commits =
      block (
        "ABK config lane: android15-6.6 gki_defconfig symbols absent from every "
        ∷ "android13-5.15 baseline" ∷ [])
      ∷ [];
  files = codes "arch/arm64/configs/gki_defconfig" ∷ [];
  apply_fn = config_enablement_apply on;
  hard = false;
}
