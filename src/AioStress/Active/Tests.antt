-- ===== src/AioStress/Active/Tests.antt =====
-- The theorems on the rings and on a round, for two operations.
use longan_chkout.Base.{suc, ◌≡◌, Bool, true, false, [], ◌∷◌, none, some, arith}
use longan_chkout.Base.Lists.{Every, length}
use longan_chkout.Base.Count.{count}
use longan_chkout.AioStress.{Stage, write, read, rwrite, rread, create_oper}
use longan_chkout.AioStress.Ring.{Links, oper_list_add, oper_list_del}
use longan_chkout.AioStress.Ring.Linked.{IsFresh}
use longan_chkout.AioStress.Ring.Kept.{IsRing, oper_list_add-IsRing, oper_list_del-IsRing}
use longan_chkout.AioStress.Active.{Thread, run_active_list}
use longan_chkout.AioStress.Active.Moved.{IsRound}
use longan_chkout.AioStress.Active.Walked.{fuel_for}
use longan_chkout.AioStress.Active.Restart.{restart_finished}
use longan_chkout.AioStress.Active.Restart.Restarted.{
  IsResting, IsRestart, restart_finished-IsRestart,
}
use longan_chkout.AioStress.Active.Round.{IsRoundOf, run_active_list-IsRoundOf}

abbrev no_links : Links
no_links = record { next = λ _. 0; prev = λ _. 0 }

-- The operation at 1, and then the one at 2.
abbrev one_link : Links
one_link = (oper_list_add 1 none no_links).1

abbrev two_links : Links
two_links = (oper_list_add 2 (some 1) one_link).1

one-IsRing : IsRing one_link (some 1) (1 ∷ [])
unfolding oper_list_add IsFresh Every IsRing
one-IsRing = oper_list_add-IsRing 1 none [] no_links tt tt

not_one : ¬ (suc 1 ≡ 1)
not_one e = omega (arith, e)

oper_list_add-IsRing_example : IsRing two_links (oper_list_add 2 (some 1) one_link).0 (1 ∷ (2 ∷ []))
unfolding oper_list_add IsFresh Every IsRing
oper_list_add-IsRing_example =
    oper_list_add-IsRing 2 (some 1) (1 ∷ []) one_link (not_one, tt) one-IsRing

two-IsRing : IsRing two_links (some 1) (1 ∷ (2 ∷ []))
unfolding oper_list_add IsFresh Every IsRing
two-IsRing = oper_list_add-IsRing 2 (some 1) (1 ∷ []) one_link (not_one, tt) one-IsRing

oper_list_del-IsRing_example :
    IsRing (oper_list_del 1 1 two_links).1 (oper_list_del 1 1 two_links).0 (2 ∷ [])
oper_list_del-IsRing_example = oper_list_del-IsRing 1 1 [] (2 ∷ []) two_links two-IsRing

-- Sixteen ios of 64 KiB each, and none is started.
abbrev two_opers : Thread
two_opers = record {
  links = two_links;
  opers = λ _. create_oper write 0 1048576 65536 64;
  active = some 1;
  finished = none;
}

two_opers-IsRound : IsRound two_opers (1 ∷ (2 ∷ [])) []
unfolding count create_oper IsRing
two_opers-IsRound = record {
  held = record { first = tt; second = two-IsRing; third = tt; once = λ x. ground arith };
  left = λ x _. omega arith;
  done = λ x some_of. absurd (omega (arith, some_of));
}

run_active_list-IsRoundOf_example :
    IsRoundOf (run_active_list 4096 (λ _. 0) (λ _. some 0) 8 64 4 0 two_opers) (1 ∷ (2 ∷ [])) []
unfolding fuel_for length
run_active_list-IsRoundOf_example =
    run_active_list-IsRoundOf 4096 (λ _. 0) (λ _. some 0) 8 64 4 0 two_opers (1 ∷ (2 ∷ [])) []
      (omega arith) two_opers-IsRound

-- The same two operations behind their writes, and a stage that reads.
abbrev two_done : Thread
two_done = record two_opers {
  opers = λ _. record (create_oper write 0 1048576 65536 64) { started_ios = 16 };
  active = none;
  finished = some 1;
}

abbrev reads : Stage → Bool
reads write = true
reads read = true
reads rwrite = false
reads rread = false

two_done-IsResting : IsResting two_done (1 ∷ (2 ∷ [])) []
unfolding count create_oper IsRing
two_done-IsResting = record {
  held = record { first = two-IsRing; second = tt; third = tt; once = λ x. ground arith };
  left = λ x some_of. absurd (omega (arith, some_of));
  some_ios = λ x _. omega arith;
}

restart_finished-IsRestart_example :
    IsRestart reads (restart_finished reads 4 two_done) (1 ∷ (2 ∷ [])) []
unfolding fuel_for length
restart_finished-IsRestart_example =
    restart_finished-IsRestart reads 4 two_done (1 ∷ (2 ∷ [])) [] (omega arith) two_done-IsResting
