-- ===== src/Perf/BlkMq.antt =====
-- The block layer groups of scripts/abk_stable_perf.py.
use abk_5_15_backport.Prelude.{true, false, List, [], ◌∷◌}
use abk_5_15_backport.Text.{codes, block}
use abk_5_15_backport.Result.{Exec}
use abk_5_15_backport.Context.{Context}
use abk_5_15_backport.Steps.{Step, Status, step}
use abk_5_15_backport.Groups.{PatchGroup}
use abk_5_15_backport.Groups.Acting.{edit_all}
use abk_5_15_backport.Groups.Probes.{probed_apply}
use abk_5_15_backport.Groups.Probes.Acts.{ActsAs-probed_apply}
use abk_5_15_backport.Groups.Planned.{Planned, planned_as}

-- The steps of `_blk_mq_suspend_apply`.
unfoldable pub blk_mq_suspend_steps : List Step
blk_mq_suspend_steps =
    step "block/blk-mq.c" ("#include <linux/sched/signal.h>\n" ∷ "#include <linux/delay.h>" ∷ [])
      ("#include <linux/sched/signal.h>\n" ∷ "#include <linux/suspend.h>\n"
        ∷ "#include <linux/delay.h>" ∷ [])
      true
    ∷ step "block/blk-mq.c"
        ("\tstruct blk_mq_hw_ctx *hctx = hlist_entry_safe(node,\n"
          ∷ "\t\t\tstruct blk_mq_hw_ctx, cpuhp_online);\n" ∷ "\n"
          ∷ "\tif (!cpumask_test_cpu(cpu, hctx->cpumask) ||" ∷ [])
        ("\tstruct blk_mq_hw_ctx *hctx = hlist_entry_safe(node,\n"
          ∷ "\t\t\tstruct blk_mq_hw_ctx, cpuhp_online);\n" ∷ "\tint ret = 0;\n" ∷ "\n"
          ∷ "\tif (!cpumask_test_cpu(cpu, hctx->cpumask) ||" ∷ [])
        true
    ∷ step "block/blk-mq.c"
        ("\tif (percpu_ref_tryget(&hctx->queue->q_usage_counter)) {\n"
          ∷ "\t\twhile (blk_mq_hctx_has_requests(hctx))\n" ∷ "\t\t\tmsleep(5);\n"
          ∷ "\t\tpercpu_ref_put(&hctx->queue->q_usage_counter);\n" ∷ "\t}\n" ∷ "\n"
          ∷ "\treturn 0;\n" ∷ "}" ∷ [])
        ("\tif (percpu_ref_tryget(&hctx->queue->q_usage_counter)) {\n"
          ∷ "\t\twhile (blk_mq_hctx_has_requests(hctx)) {\n" ∷ "\t\t\t/*\n"
          ∷ "\t\t\t * The wakeup capable IRQ handler of block device is\n"
          ∷ "\t\t\t * not called during suspend. Skip the loop by checking\n"
          ∷ "\t\t\t * pm_wakeup_pending to prevent the deadlock and improve\n"
          ∷ "\t\t\t * suspend latency.\n" ∷ "\t\t\t */\n" ∷ "\t\t\tif (pm_wakeup_pending()) {\n"
          ∷ "\t\t\t\tclear_bit(BLK_MQ_S_INACTIVE, &hctx->state);\n" ∷ "\t\t\t\tret = -EBUSY;\n"
          ∷ "\t\t\t\tbreak;\n" ∷ "\t\t\t}\n" ∷ "\t\t\tmsleep(5);\n" ∷ "\t\t}\n"
          ∷ "\t\tpercpu_ref_put(&hctx->queue->q_usage_counter);\n" ∷ "\t}\n" ∷ "\n"
          ∷ "\treturn ret;\n" ∷ "}" ∷ [])
        true
    ∷ []

abbrev pub blk_mq_suspend_apply : Exec Context Status
blk_mq_suspend_apply =
    probed_apply (codes "block/blk-mq.c")
      (block (
        "\t\t\tif (pm_wakeup_pending()) {\n\t\t\t\tclear_bit(BLK_MQ_S_INACTIVE, &"
        ∷ "hctx->state);\n\t\t\t\tret = -EBUSY;\n\t\t\t\tbreak;\n\t\t\t}\n" ∷ []))
      blk_mq_suspend_steps

abbrev pub blk_mq_suspend : PatchGroup
blk_mq_suspend = record {
  key = codes "blk_mq_suspend_wakeup_abort";
  summary = block ("blk-mq hctx offline wait aborts when pm_wakeup_pending() (5.15.1" ∷ "98)" ∷ []);
  commits = (codes "8fe7de5d1c7f (5.15.198)") ∷ [];
  files = (codes "block/blk-mq.c") ∷ [];
  apply_fn = blk_mq_suspend_apply;
  hard = false;
}

abbrev pub planned_blk_mq_suspend : Planned
planned_blk_mq_suspend = planned_as blk_mq_suspend (edit_all blk_mq_suspend_steps) (
    ActsAs-probed_apply (codes "block/blk-mq.c")
      (block (
        "\t\t\tif (pm_wakeup_pending()) {\n\t\t\t\tclear_bit(BLK_MQ_S_INACTIVE, &"
        ∷ "hctx->state);\n\t\t\t\tret = -EBUSY;\n\t\t\t\tbreak;\n\t\t\t}\n" ∷ []))
      blk_mq_suspend_steps)

-- The steps of `_blk_mq_quiesced_elevator_apply`.
unfoldable pub blk_mq_quiesced_elevator_steps : List Step
blk_mq_quiesced_elevator_steps =
    step "block/elevator.c"
      ("int elevator_switch_mq(struct request_queue *q,\n"
        ∷ "\t\t\t      struct elevator_type *new_e)\n" ∷ "{\n" ∷ [])
      ("static int elevator_switch_mq(struct request_queue *q,\n"
        ∷ "\t\t\t      struct elevator_type *new_e)\n" ∷ "{\n" ∷ [])
      true
    ∷ step "block/elevator.c"
        (" */\n"
          ∷ "static int elevator_switch(struct request_queue *q, struct elevator_type *new_e)\n"
          ∷ "{\n" ∷ "\tint err;\n" ∷ [])
        (" */\n" ∷ "int elevator_switch(struct request_queue *q, struct elevator_type *new_e)\n"
          ∷ "{\n" ∷ "\tint err;\n" ∷ [])
        true
    ∷ step "block/blk.h"
        ("int elevator_switch_mq(struct request_queue *q,\n"
          ∷ "\t\t\t      struct elevator_type *new_e);" ∷ [])
        ("int elevator_switch(struct request_queue *q, struct elevator_type *new_e);" ∷ []) true
    ∷ step "block/blk-mq.c"
        ("\t * After elevator_switch_mq, the previous elevator_queue will be\n" ∷ [])
        ("\t * After elevator_switch, the previous elevator_queue will be\n" ∷ []) true
    ∷ step "block/blk-mq.c" ("\televator_switch_mq(q, NULL);\n" ∷ [])
        ("\televator_switch(q, NULL);\n" ∷ []) true
    ∷ step "block/blk-mq.c" ("\televator_switch_mq(q, t);\n" ∷ [])
        ("\televator_switch(q, t);\n" ∷ []) true
    ∷ []

abbrev pub blk_mq_quiesced_elevator_apply : Exec Context Status
blk_mq_quiesced_elevator_apply =
    probed_apply (codes "block/blk-mq.c") (codes "elevator_switch(q, NULL);")
      blk_mq_quiesced_elevator_steps

abbrev pub blk_mq_quiesced_elevator : PatchGroup
blk_mq_quiesced_elevator = record {
  key = codes "blk_mq_quiesced_elevator_switch";
  summary = block (
      "blk-mq reinitialisation switches elevators through the quiesced " ∷ "entry point (5.15.209)"
      ∷ []);
  commits = (codes "9646443f28f3 (5.15.209)") ∷ [];
  files = (codes "block/blk-mq.c") ∷ (codes "block/blk.h") ∷ (codes "block/elevator.c") ∷ [];
  apply_fn = blk_mq_quiesced_elevator_apply;
  hard = false;
}

abbrev pub planned_blk_mq_quiesced_elevator : Planned
planned_blk_mq_quiesced_elevator =
    planned_as blk_mq_quiesced_elevator (edit_all blk_mq_quiesced_elevator_steps) (
      ActsAs-probed_apply (codes "block/blk-mq.c") (codes "elevator_switch(q, NULL);")
        blk_mq_quiesced_elevator_steps)
