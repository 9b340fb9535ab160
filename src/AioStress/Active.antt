-- ===== src/AioStress/Active.antt =====
-- aio-stress.c: a round of `run_active_list` over the operations of a thread, where there is always
-- an io unit, and the kernel takes all ios that are submitted.
pub mod Built
pub mod Moved
pub mod Settled
pub mod Walking
pub mod Walked
pub mod Round
pub mod Restart
mod Tests
use longan_chkout.Base.{
  ℕ, zero, suc, ◌+◌, ◌*◌, ◌≡◌, Bool, true, false, ◌||◌, not, Option, none, some, ltb, ◌==◌,
  if◌then◌else◌,
}
use longan_chkout.Base.Maybe.{◌>>=◌}
use longan_chkout.Base.Lists.{length}
use longan_chkout.AioStress.{
  Stage, write, read, rwrite, rread, IoOper, build_oper, update_iou_counters,
}
use longan_chkout.AioStress.Ring.{Links, assign, oper_list_add, oper_list_del}

-- The operations by their addresses, and the lists of `struct thread_info`.
pub record Thread : Type 0 where
  pub links : Links
  pub opers : ℕ → IoOper
  pub active : Option ℕ
  pub finished : Option ℕ

-- The state of the first loop: `built_opers`, `num_built`, the number of draws, and how many of the
-- built ios each operation has.
pub record Walk : Type 0 where
  pub thread : Thread
  pub built : Option ℕ
  pub num_built : ℕ
  pub draws : ℕ
  pub ios : ℕ → ℕ

unfoldable pub is_random : Stage → Bool
is_random write = false
is_random read = false
is_random rwrite = true
is_random rread = true

-- The size of a regular file, `none` for another one.
unfoldable pub reaches : ℕ → Option ℕ → Bool
reaches start none = true
reaches start (some st_size) = not (ltb st_size start)

unfoldable pub oper_runnable : Option ℕ → IoOper → Bool
unfolding is_random reaches
oper_runnable size oper =
    not (oper.started_ios == 0) || (oper.start == 0) || is_random oper.rw || reaches oper.start size

unfoldable pub set_oper : (ℕ → IoOper) → ℕ → IoOper → ℕ → IoOper
set_oper opers at oper x = if x == at then oper else opers x

-- `oper_list_del` through the pointer to a list, which is not NULL where it is called.
unfoldable pub list_del : ℕ → Option ℕ → Links → Option ℕ × Links
unfolding oper_list_del
list_del oper none l = (none, l)
list_del oper (some list) l = oper_list_del oper list l

-- What the first loop does for an operation that can run.
unfoldable pub build_one : ℕ → (ℕ → ℕ) → ℕ → ℕ → Walk → Walk
unfolding build_oper length list_del oper_list_add set_oper assign
build_one page rand io_iter oper w =
    let t = w.thread in
    let out = build_oper page rand w.draws io_iter (t.opers oper) in
    let nr = length out.0 in
    let deleted = list_del oper t.active t.links in
    let added = oper_list_add oper w.built deleted.1 in
    record {
      thread = record {
        links = added.1;
        opers = set_oper t.opers oper out.1;
        active = deleted.0;
        finished = t.finished;
      };
      built = added.0;
      num_built = w.num_built + nr;
      draws = w.draws + 2 * nr;
      ios = assign w.ios oper nr;
    }

unfoldable pub is_start : ℕ → Option ℕ → Bool
is_start oper none = false
is_start oper (some list) = oper == list

-- Where a loop over a ring goes on: with an operation, or not at all.
pub data Next (S : Type 0) : Type 0 where
  stop : S → Next S
  go_on : Option ℕ → S → Next S

unfoldable pub after_build : ℕ → ℕ → Walk → Next Walk
after_build io_iter max_io_submit w =
    if ltb max_io_submit (w.num_built + io_iter) then stop w else go_on w.thread.active w

unfoldable pub after_skip : ℕ → Walk → Next Walk
unfolding is_start
after_skip next w = if is_start next w.thread.active then stop w else go_on (some next) w

unfoldable pub proceed : {S : Type 0} → (Option ℕ → S → Option S) → Next S → Option S
proceed f (stop w) = some w
proceed f (go_on oper w) = f oper w

module _ (page : ℕ) (rand : ℕ → ℕ) (sizes : ℕ → Option ℕ) (io_iter max_io_submit : ℕ) where
  -- The body of the first loop of `run_active_list`.
  unfoldable pub walk_step : ℕ → Walk → Next Walk
  unfolding oper_runnable build_one after_build after_skip
  walk_step oper w =
      if oper_runnable (sizes oper) (w.thread.opers oper)
      then after_build io_iter max_io_submit (build_one page rand io_iter oper w)
      else after_skip (w.thread.links.next oper) w

  -- The first loop, from an operation on; `none` where the fuel ends.
  unfoldable pub build_active : ℕ → Option ℕ → Walk → Option Walk
  unfolding walk_step proceed
  build_active zero oper w = none
  build_active (suc n) none w = some w
  build_active (suc n) (some oper) w = proceed (build_active n) (walk_step oper w)

-- `run_built`, by the counters of each operation.
unfoldable pub run_built : Walk → ℕ → IoOper
unfolding update_iou_counters
run_built w x = update_iou_counters (w.ios x) (w.thread.opers x)

-- The first operation of `built_opers` goes back to the active ones, and from there to the finished
-- ones.
unfoldable pub put_back : ℕ → Option ℕ → Thread → Option ℕ × Thread
unfolding list_del oper_list_add
put_back oper built t =
    let deleted = list_del oper built t.links in
    let added = oper_list_add oper t.active deleted.1 in
    (deleted.0, record t { links = added.1; active = added.0 })

unfoldable pub end_oper : ℕ → Thread → Thread
unfolding list_del oper_list_add
end_oper oper t =
    let deleted = list_del oper t.active t.links in
    let added = oper_list_add oper t.finished deleted.1 in
    record t { links = added.1; active = deleted.0; finished = added.0 }

-- The body of the second loop, for the first operation of `built_opers`.
unfoldable pub settle_one : ℕ → Option ℕ → Thread → Option ℕ × Thread
unfolding put_back end_oper
settle_one oper built t =
    let back = put_back oper built t in
    (
      back.0,
      if (t.opers oper).started_ios == (t.opers oper).total_ios
          then end_oper oper back.1
          else back.1,
    )

unfoldable pub settle : ℕ → Option ℕ → Thread → Option Thread
unfolding settle_one
settle zero built t = none
settle (suc n) none t = some t
settle (suc n) (some oper) t = let next = settle_one oper (some oper) t in settle n next.0 next.1

-- What follows the first loop; without built ios the list of built operations is left. Each built
-- operation has an io, so that one turn more than ios is enough.
unfoldable pub settle_built : Walk → Option Thread
unfolding settle run_built
settle_built w =
    if w.num_built == 0
    then some w.thread
    else settle (suc w.num_built) w.built (record w.thread { opers = run_built w })

unfoldable pub begin_walk : Thread → ℕ → Walk
begin_walk t draws = record { thread = t; built = none; num_built = 0; draws = draws; ios = λ _. 0 }

unfoldable pub run_active_list :
    ℕ → (ℕ → ℕ) → (ℕ → Option ℕ) → ℕ → ℕ → ℕ → ℕ → Thread → Option Thread
unfolding build_active settle_built begin_walk
run_active_list page rand sizes io_iter max_io_submit fuel draws t =
    build_active page rand sizes io_iter max_io_submit fuel t.active (begin_walk t draws)
    >>= settle_built
