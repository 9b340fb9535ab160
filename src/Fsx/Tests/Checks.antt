-- ===== src/Fsx/Tests/Checks.antt =====
-- The checks of fsx.c at concrete inputs.
use longan_chkout.Fsx.Kernel.Reference.{Disk}
use longan_chkout.Fsx.State.{Fsx}
use longan_chkout.Fsx.Tests.{start, disk}

-- The read leaves the file position at the end.
abbrev checked : Fsx Disk
checked = record start { kernel = record disk { offset = 20 } }
