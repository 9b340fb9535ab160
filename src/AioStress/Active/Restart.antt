-- ===== src/AioStress/Active/Restart.antt =====
-- aio-stress.c: the part of `worker` that gives the finished operations their next stage.
pub mod Restarted
use longan_chkout.Base.{ℕ, zero, suc, Bool, Option, none, some, if◌then◌else◌}
use longan_chkout.AioStress.{Stage, IoOper, restart_oper}
use longan_chkout.AioStress.Ring.{oper_list_add}
use longan_chkout.AioStress.Active.{
  Thread, Next, stop, go_on, proceed, set_oper, list_del, is_start,
}

-- The body of the loop, with what `restart_oper` makes of the operation.
unfoldable pub restart_next : Option IoOper → ℕ → Thread → Next Thread
unfolding set_oper list_del oper_list_add is_start
restart_next (some new) oper t =
    let deleted = list_del oper t.finished t.links in
    let added = oper_list_add oper t.active deleted.1 in
    go_on deleted.0 (record {
      links = added.1;
      opers = set_oper t.opers oper new;
      active = added.0;
      finished = deleted.0;
    })
restart_next none oper t =
    let next = t.links.next oper in if is_start next t.finished then stop t else go_on (some next) t

-- The loop, from a finished operation on; `none` where the fuel ends.
unfoldable pub restart_from : (Stage → Bool) → ℕ → Option ℕ → Thread → Option Thread
unfolding restart_oper restart_next proceed
restart_from stages zero oper t = none
restart_from stages (suc n) none t = some t
restart_from stages (suc n) (some oper) t =
    proceed (restart_from stages n) (restart_next (restart_oper stages (t.opers oper)) oper t)

unfoldable pub restart_finished : (Stage → Bool) → ℕ → Thread → Option Thread
unfolding restart_from
restart_finished stages fuel t = restart_from stages fuel t.finished t
