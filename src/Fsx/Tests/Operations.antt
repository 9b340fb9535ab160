-- ===== src/Fsx/Tests/Operations.antt =====
-- The operations of fsx.c at concrete inputs.
use longan_chkout.Base.{◌+◌, inl, refl, Holds, arith}
use longan_chkout.Fsx.Kernel.Reference.{reference}
use longan_chkout.Fsx.Tests.{small, small-IsSetUp, start, correct, disk}
use longan_chkout.Fsx.Duplicate.{copy_loop}
use longan_chkout.Fsx.Live.Copy.{CopiedAll, copy_loop_lem, copy-none}

copy_loop_lem_example :
    Holds
      (CopiedAll reference small correct small-IsSetUp disk.file 2 (0 + 5) 30 start)
      (copy_loop reference small 6 0 2 30 5 start)
copy_loop_lem_example =
    copy_loop_lem reference small correct small-IsSetUp 6 0 0 5 2 30 2 30 disk.file start
      (omega arith) refl refl (omega arith) (inl (omega arith)) (copy-none disk.file 2 30)
