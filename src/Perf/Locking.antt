-- ===== src/Perf/Locking.antt =====
-- The locking and socket groups of scripts/abk_stable_perf.py.
use abk_5_15_backport.Prelude.{true, List, [], ◌∷◌}
use abk_5_15_backport.Text.{codes, block}
use abk_5_15_backport.Steps.{Step, step}
use abk_5_15_backport.Groups.Guard.{StepSpec}

-- The steps of `_release_sock_apply`.
unfoldable pub release_sock_steps : List Step
release_sock_steps =
    step "net/core/sock.c"
      ("\tstruct sk_buff *skb, *next;\n" ∷ "\n"
        ∷ "\twhile ((skb = sk->sk_backlog.head) != NULL) {\n"
        ∷ "\t\tsk->sk_backlog.head = sk->sk_backlog.tail = NULL;\n" ∷ "\n"
        ∷ "\t\tspin_unlock_bh(&sk->sk_lock.slock);\n" ∷ "\n" ∷ "\t\tdo {\n"
        ∷ "\t\t\tnext = skb->next;\n" ∷ "\t\t\tprefetch(next);\n"
        ∷ "\t\t\tWARN_ON_ONCE(skb_dst_is_noref(skb));\n" ∷ "\t\t\tskb_mark_not_on_list(skb);\n"
        ∷ "\t\t\tsk_backlog_rcv(sk, skb);\n" ∷ "\n" ∷ "\t\t\tcond_resched();\n" ∷ "\n"
        ∷ "\t\t\tskb = next;\n" ∷ "\t\t} while (skb != NULL);\n" ∷ "\n"
        ∷ "\t\tspin_lock_bh(&sk->sk_lock.slock);\n" ∷ "\t}\n" ∷ [])
      ("\tstruct sk_buff *skb, *next;\n" ∷ "\tint nb = 0;\n" ∷ "\n"
        ∷ "\twhile ((skb = sk->sk_backlog.head) != NULL) {\n"
        ∷ "\t\tsk->sk_backlog.head = sk->sk_backlog.tail = NULL;\n" ∷ "\n"
        ∷ "\t\tspin_unlock_bh(&sk->sk_lock.slock);\n" ∷ "\n" ∷ "\t\twhile (1) {\n"
        ∷ "\t\t\tnext = skb->next;\n" ∷ "\t\t\tprefetch(next);\n"
        ∷ "\t\t\tWARN_ON_ONCE(skb_dst_is_noref(skb));\n" ∷ "\t\t\tskb_mark_not_on_list(skb);\n"
        ∷ "\t\t\tsk_backlog_rcv(sk, skb);\n" ∷ "\n" ∷ "\t\t\tskb = next;\n" ∷ "\t\t\tif (!skb)\n"
        ∷ "\t\t\t\tbreak;\n" ∷ "\n" ∷ "\t\t\tif (!(++nb & 15))\n" ∷ "\t\t\t\tcond_resched();\n"
        ∷ "\t\t}\n" ∷ "\n" ∷ "\t\tspin_lock_bh(&sk->sk_lock.slock);\n" ∷ "\t}\n" ∷ [])
      true
    ∷ []

unfoldable pub release_sock : StepSpec
release_sock = record {
  key = codes "release_sock_cond_resched";
  summary = codes "__release_sock() yields only every 16 processed skbs (5.15.197)";
  commits = (codes "66bcd6c577d8 (5.15.197)") ∷ [];
  files = (codes "net/core/sock.c") ∷ [];
  steps = release_sock_steps;
}

-- The steps of `_semaphore_wake_q_apply`.
unfoldable pub semaphore_wake_q_steps : List Step
semaphore_wake_q_steps =
    step "kernel/locking/semaphore.c"
      ("#include <linux/sched/debug.h>\n" ∷ "#include <linux/semaphore.h>" ∷ [])
      ("#include <linux/sched/debug.h>\n" ∷ "#include <linux/sched/wake_q.h>\n"
        ∷ "#include <linux/semaphore.h>" ∷ [])
      true
    ∷ step "kernel/locking/semaphore.c" ("static noinline void __up(struct semaphore *sem);\n" ∷ [])
        ("static noinline void __up(struct semaphore *sem, struct wake_q_head *wake_q);\n" ∷ [])
        true
    ∷ step "kernel/locking/semaphore.c"
        ("void up(struct semaphore *sem)\n" ∷ "{\n" ∷ "\tunsigned long flags;\n" ∷ "\n"
          ∷ "\traw_spin_lock_irqsave(&sem->lock, flags);\n"
          ∷ "\tif (likely(list_empty(&sem->wait_list)))\n" ∷ "\t\tsem->count++;\n" ∷ "\telse\n"
          ∷ "\t\t__up(sem);\n" ∷ "\traw_spin_unlock_irqrestore(&sem->lock, flags);\n" ∷ "}" ∷ [])
        ("void up(struct semaphore *sem)\n" ∷ "{\n" ∷ "\tunsigned long flags;\n"
          ∷ "\tDEFINE_WAKE_Q(wake_q);\n" ∷ "\n" ∷ "\traw_spin_lock_irqsave(&sem->lock, flags);\n"
          ∷ "\tif (likely(list_empty(&sem->wait_list)))\n" ∷ "\t\tsem->count++;\n" ∷ "\telse\n"
          ∷ "\t\t__up(sem, &wake_q);\n" ∷ "\traw_spin_unlock_irqrestore(&sem->lock, flags);\n"
          ∷ "\tif (!wake_q_empty(&wake_q))\n" ∷ "\t\twake_up_q(&wake_q);\n" ∷ "}" ∷ [])
        true
    ∷ step "kernel/locking/semaphore.c"
        ("static noinline void __sched __up(struct semaphore *sem)\n" ∷ "{" ∷ [])
        ("static noinline void __sched __up(struct semaphore *sem,\n"
          ∷ "\t\t\t\t  struct wake_q_head *wake_q)\n" ∷ "{" ∷ [])
        true
    ∷ step "kernel/locking/semaphore.c"
        ("\tlist_del(&waiter->list);\n" ∷ "\twaiter->up = true;\n"
          ∷ "\twake_up_process(waiter->task);\n" ∷ "}" ∷ [])
        ("\tlist_del(&waiter->list);\n" ∷ "\twaiter->up = true;\n"
          ∷ "\twake_q_add(wake_q, waiter->task);\n" ∷ "}" ∷ [])
        true
    ∷ []

unfoldable pub semaphore_wake_q : StepSpec
semaphore_wake_q = record {
  key = codes "semaphore_wake_q";
  summary = block ("semaphore up() wakes waiters outside the lock via wake_q (5.15.1" ∷ "80)" ∷ []);
  commits = (codes "46c66d975a58 (5.15.180)") ∷ [];
  files = (codes "kernel/locking/semaphore.c") ∷ [];
  steps = semaphore_wake_q_steps;
}

-- The steps of `_locking_wakeup_patch_apply`.
unfoldable pub locking_wakeup_patch_steps : List Step
locking_wakeup_patch_steps =
    step "include/trace/hooks/dtask.h"
      ("DECLARE_HOOK(android_vh_mutex_unlock_slowpath,\n" ∷ "\tTP_PROTO(struct mutex *lock),\n"
        ∷ "\tTP_ARGS(lock));\n" ∷ "DECLARE_HOOK(android_vh_record_mutex_lock_starttime," ∷ [])
      ("DECLARE_HOOK(android_vh_mutex_unlock_slowpath,\n" ∷ "\tTP_PROTO(struct mutex *lock),\n"
        ∷ "\tTP_ARGS(lock));\n" ∷ "\n"
        ∷ "/* ABK stable_515_backport: post-wakeup fixup hook (android14-6.1). */\n"
        ∷ "DECLARE_HOOK(android_vh_mutex_wakeup_patch,\n" ∷ "\tTP_PROTO(struct mutex *lock),\n"
        ∷ "\tTP_ARGS(lock));\n" ∷ "DECLARE_HOOK(android_vh_record_mutex_lock_starttime," ∷ [])
      true
    ∷ step "include/trace/hooks/rwsem.h"
        ("DECLARE_HOOK(android_vh_rwsem_wake_finish,\n" ∷ "\tTP_PROTO(struct rw_semaphore *sem),\n"
          ∷ "\tTP_ARGS(sem));\n" ∷ "DECLARE_HOOK(android_vh_rwsem_downgrade_wake_finish," ∷ [])
        ("DECLARE_HOOK(android_vh_rwsem_wake_finish,\n" ∷ "\tTP_PROTO(struct rw_semaphore *sem),\n"
          ∷ "\tTP_ARGS(sem));\n" ∷ "\n"
          ∷ "/* ABK stable_515_backport: post-wakeup fixup hook (android14-6.1). */\n"
          ∷ "DECLARE_HOOK(android_vh_rwsem_wakeup_patch,\n"
          ∷ "\tTP_PROTO(struct rw_semaphore *sem),\n" ∷ "\tTP_ARGS(sem));\n"
          ∷ "DECLARE_HOOK(android_vh_rwsem_downgrade_wake_finish," ∷ [])
        true
    ∷ step "kernel/locking/mutex.c"
        ("\traw_spin_unlock(&lock->wait_lock);\n" ∷ "\n" ∷ "\twake_up_q(&wake_q);\n" ∷ "}" ∷ [])
        ("\traw_spin_unlock(&lock->wait_lock);\n" ∷ "\n" ∷ "\twake_up_q(&wake_q);\n" ∷ "\n"
          ∷ "\t/* ABK stable_515_backport: post-wakeup fixup point (android14-6.1). */\n"
          ∷ "\ttrace_android_vh_mutex_wakeup_patch(lock);\n" ∷ "}" ∷ [])
        true
    ∷ step "kernel/locking/rwsem.c"
        ("\ttrace_android_vh_rwsem_wake_finish(sem);\n" ∷ "\n"
          ∷ "\traw_spin_unlock_irqrestore(&sem->wait_lock, flags);\n" ∷ "\twake_up_q(&wake_q);\n"
          ∷ "\n" ∷ "\treturn sem;\n" ∷ "}" ∷ [])
        ("\ttrace_android_vh_rwsem_wake_finish(sem);\n" ∷ "\n"
          ∷ "\traw_spin_unlock_irqrestore(&sem->wait_lock, flags);\n" ∷ "\twake_up_q(&wake_q);\n"
          ∷ "\n" ∷ "\t/* ABK stable_515_backport: post-wakeup fixup point (android14-6.1). */\n"
          ∷ "\ttrace_android_vh_rwsem_wakeup_patch(sem);\n" ∷ "\n" ∷ "\treturn sem;\n" ∷ "}" ∷ [])
        true
    ∷ []

unfoldable pub locking_wakeup_patch : StepSpec
locking_wakeup_patch = record {
  key = codes "locking_wakeup_patch_hooks";
  summary = codes "mutex/rwsem post-wakeup fixup vendor hooks (android14-6.1)";
  commits = (codes "ACK android14-6.1 locking wakeup patch hooks (dfdcb1d)") ∷ [];
  files =
      (codes "include/trace/hooks/dtask.h")
      ∷ (codes "include/trace/hooks/rwsem.h")
      ∷ (codes "kernel/locking/mutex.c")
      ∷ (codes "kernel/locking/rwsem.c")
      ∷ [];
  steps = locking_wakeup_patch_steps;
}
