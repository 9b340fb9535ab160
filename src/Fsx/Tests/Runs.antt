-- ===== src/Fsx/Tests/Runs.antt =====
-- Whole operations and runs of fsx.c at concrete inputs.
use longan_chkout.Base.{◌⊎◌, ◌+◌, ◌%◌, ◌≤◌, ◌≡◌, inl, false, none, Holds, Passes, arith}
use longan_chkout.Fsx.Kernel.Reference.{reference}
use longan_chkout.Fsx.State.{op_write, op_copy_range}
use longan_chkout.Fsx.Choose.{Call, choose, pick_dest, pick_dedupe}
use longan_chkout.Fsx.Choose.Destination.{IsFree, pick_dest_hangs, pick_dedupe_sound}
use longan_chkout.Fsx.Choose.Fit.{IsFit, FitsAll}
use longan_chkout.Fsx.Choose.Drawn.{choose-FitsAll}
use longan_chkout.Fsx.Step.{run, run_call, perform}
use longan_chkout.Fsx.Live.{Live}
use longan_chkout.Fsx.Live.Run.{Ready, run-Passes, run_call-Live}
use longan_chkout.Fsx.Live.Perform.{perform-Live}
use longan_chkout.Fsx.Tests.{
  small, small-IsSetUp, small-IsDrawable, start, start-Live, start-Ready, correct,
}

run-Passes_example :
    Passes (Ready reference small correct small-IsSetUp) (run reference small 10 50 start)
run-Passes_example =
    run-Passes reference small correct small-IsSetUp small-IsDrawable 10 50 start start-Ready

abbrev a_write : Call
a_write = record { op = op_write; offset = 30; size = 9; offset2 = 0; keep = false }

a_write-IsFit : IsFit small 20 a_write
a_write-IsFit = record { small_offset = omega arith; small_size = omega arith; drawn = tt }

run_call-Live_example :
    Holds (Live reference small correct) (run_call reference small a_write start)
run_call-Live_example =
    run_call-Live reference small correct small-IsSetUp a_write start a_write-IsFit start-Live

perform-Live_example :
    Holds (Live reference small correct) (perform reference small op_copy_range 2 5 30 false start)
perform-Live_example =
    perform-Live reference small correct small-IsSetUp op_copy_range 2 5 30 false start
      (omega arith) (omega arith) (λ p. (omega arith, omega arith, inl (omega arith))) start-Live

choose-FitsAll_example : FitsAll small 20 (choose small 50 20 false 3)
choose-FitsAll_example = choose-FitsAll small small-IsDrawable 20 (omega arith) 50 3 false

pick_dest_hangs_example : pick_dest small 1 20 4 10 1000 0 ≡ none
pick_dest_hangs_example =
    pick_dest_hangs small 1 20 4 10 1000 0 (λ n. omega arith) (omega arith) (omega arith)
      (omega arith)

pick_dedupe_sound_example :
    let (dest, n, d') = pick_dedupe small 20 0 4 30 0 0 in
    ((n ≡ 0) ⊎ ((n ≡ 4) × IsFree 0 4 20 dest × (dest % 4 ≡ 0))) × (d' ≤ 0 + 30)
pick_dedupe_sound_example = pick_dedupe_sound small 20 0 4 30 0 0 (λ n. omega arith) (omega arith)
