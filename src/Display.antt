-- ===== src/Display.antt =====
-- scripts/abk_stable_display.py: its one group.
use abk_5_15_backport.Prelude.{true, List, [], ◌∷◌}
use abk_5_15_backport.Text.{codes, block}
use abk_5_15_backport.Steps.{Step, step}
use abk_5_15_backport.Groups.Guard.{StepSpec}

-- The steps of `_drm_valid_clones_revert_apply`.
unfoldable pub drm_valid_clones_revert_steps : List Step
drm_valid_clones_revert_steps =
    step "drivers/gpu/drm/drm_atomic_helper.c"
      ("\t\tif (mode_status != MODE_OK)\n" ∷ "\t\t\treturn -EINVAL;\n" ∷ "\t}\n" ∷ "\n"
        ∷ "\treturn 0;\n" ∷ "}\n" ∷ "\n"
        ∷ "static int drm_atomic_check_valid_clones(struct drm_atomic_state *state,\n"
        ∷ "\t\t\t\t\t struct drm_crtc *crtc)\n" ∷ "{\n" ∷ "\tstruct drm_encoder *drm_enc;\n"
        ∷ "\tstruct drm_crtc_state *crtc_state = drm_atomic_get_new_crtc_state(state,\n"
        ∷ "\t\t\t\t\t\t\t\t\t  crtc);\n" ∷ "\n"
        ∷ "\tdrm_for_each_encoder_mask(drm_enc, crtc->dev, crtc_state->encoder_mask) {\n"
        ∷ "\t\tif (!drm_enc->possible_clones) {\n"
        ∷ "\t\t\tDRM_DEBUG(\"enc%d possible_clones is 0\\n\", drm_enc->base.id);\n"
        ∷ "\t\t\tcontinue;\n" ∷ "\t\t}\n" ∷ "\n"
        ∷ "\t\tif ((crtc_state->encoder_mask & drm_enc->possible_clones) !=\n"
        ∷ "\t\t    crtc_state->encoder_mask) {\n"
        ∷ "\t\t\tDRM_DEBUG(\"crtc%d failed valid clone check for mask 0x%x\\n\",\n"
        ∷ "\t\t\t\t  crtc->base.id, crtc_state->encoder_mask);\n" ∷ "\t\t\treturn -EINVAL;\n"
        ∷ "\t\t}\n" ∷ "\t}\n" ∷ "\n" ∷ "\treturn 0;\n" ∷ "}\n" ∷ "\n" ∷ "/**\n"
        ∷ " * drm_atomic_helper_check_modeset - validate state object for modeset changes\n" ∷ [])
      ("\t\tif (mode_status != MODE_OK)\n" ∷ "\t\t\treturn -EINVAL;\n" ∷ "\t}\n" ∷ "\n"
        ∷ "\treturn 0;\n" ∷ "}\n" ∷ "\n" ∷ "/**\n"
        ∷ " * drm_atomic_helper_check_modeset - validate state object for modeset changes\n" ∷ [])
      true
    ∷ step "drivers/gpu/drm/drm_atomic_helper.c"
        ("\t\tret = drm_atomic_add_affected_planes(state, crtc);\n" ∷ "\t\tif (ret != 0)\n"
          ∷ "\t\t\treturn ret;\n" ∷ "\n" ∷ "\t\tret = drm_atomic_check_valid_clones(state, crtc);\n"
          ∷ "\t\tif (ret != 0)\n" ∷ "\t\t\treturn ret;\n" ∷ "\t}\n" ∷ "\n" ∷ "\t/*\n"
          ∷ "\t * Iterate over all connectors again, to make sure atomic_check()\n" ∷ [])
        ("\t\tret = drm_atomic_add_affected_planes(state, crtc);\n" ∷ "\t\tif (ret != 0)\n"
          ∷ "\t\t\treturn ret;\n" ∷ "\t}\n" ∷ "\n" ∷ "\t/*\n"
          ∷ "\t * Iterate over all connectors again, to make sure atomic_check()\n" ∷ [])
        true
    ∷ []

unfoldable pub drm_valid_clones_revert : StepSpec
drm_valid_clones_revert = record {
  key = codes "drm_valid_clones_revert";
  summary = block (
      "remove the 5.15.185 drm valid-clones encoder check so vendor msm"
      ∷ "_drm atomic commits stop failing with -EINVAL (fixes the black s"
      ∷ "creen on 5.15.185+/lts)" ∷ []);
  commits =
      (block (
        "revert of upstream 5.15.185 \"drm: Add valid clones check\" (Concu"
        ∷ "rrent Writeback series)" ∷ []))
      ∷ [];
  files = (codes "drivers/gpu/drm/drm_atomic_helper.c") ∷ [];
  steps = drm_valid_clones_revert_steps;
}
