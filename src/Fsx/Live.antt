-- ===== src/Fsx/Live.antt =====
-- The invariant of a run that has reached its first real operation: `good_buf` and `file_size`
-- are what a correct file system holds.
pub mod Page
pub mod Basics
pub mod Read
pub mod Write
pub mod MapWrite
pub mod Range
pub mod Duplicate
pub mod Copy
pub mod Step
pub mod Shift
pub mod Perform
pub mod Run
use longan_chkout.Base.{ℕ, ◌+◌, ◌^◌, ◌≤◌, ◌<◌, ◌≡◌, false}
use longan_chkout.Fsx.File.{Same}
use longan_chkout.Fsx.Kernel.{Kernel, IsCorrect}
use longan_chkout.Fsx.State.{Config, Fsx}
use longan_chkout.Fsx.Model.Refines.{model}

-- What the command line and `main` see to, for a run without `-L`.
pub record IsSetUp (c : Config) : Type 0 where
  pub readbdy_pos : 0 < c.readbdy
  pub writebdy_pos : 0 < c.writebdy
  pub truncbdy_pos : 0 < c.truncbdy
  pub block_pos : 0 < c.block_size
  pub page_pos : 0 < c.page_size
  pub small_file : c.maxfilelen < 2 ^ 31
  pub small_page : c.page_size < 2 ^ 31
  pub not_lite : c.lite ≡ false

module _ (k : Kernel) (c : Config) (w : IsCorrect k c.page_size c.block_size c.maxfilelen) where
  pub record Live (s : Fsx k.State) : Type 0 where
    pub bounded : s.file_size ≤ c.maxfilelen
    pub real : c.simulatedopcount < s.testcalls
    pub same : Same (w.view s.kernel) (model s)

  -- A step that leaves the model and the contents of the file alone.
  pub Live-same :
      (s t : Fsx k.State)
      → t.file_size ≡ s.file_size
      → t.good_buf ≡ s.good_buf
      → t.testcalls ≡ s.testcalls
      → w.view t.kernel ≡ w.view s.kernel
      → Live s
      → Live t
  Live-same s t size good calls view v = record {
    bounded = rw size v.bounded;
    real = rw calls v.real;
    same = rw (view, size, good) v.same;
  }
