-- ===== src/Fsx/Tests/Start.antt =====
-- The preparations of fsx.c at concrete inputs.
use longan_chkout.Base.{refl, false, Holds}
use longan_chkout.Fsx.Kernel.Reference.{Disk, reading, reading-IsCorrect}
use longan_chkout.Fsx.SetUp.{Lacks}
use longan_chkout.Fsx.Boot.{boot_file}
use longan_chkout.Fsx.Boot.Image.{Pictured, boot_file-Pictured}
use longan_chkout.Fsx.Tests.{start}

abbrev no_lacks : Lacks Disk
no_lacks = record {
  lacks_fallocate = λ s. false;
  lacks_clone = λ s. false;
  lacks_dedupe = λ s. false;
  lacks_copy = λ s. false;
}

-- On a kernel that reads 6 bytes at once at most, a file of 20 bytes takes four turns.
boot_file-Pictured_example :
    Holds
      (Pictured (reading 5) 16 4 6 (reading-IsCorrect 5 16 4) no_lacks)
      (boot_file (reading 5) no_lacks start)
boot_file-Pictured_example =
    boot_file-Pictured (reading 5) 16 4 6 (reading-IsCorrect 5 16 4) no_lacks start refl refl
