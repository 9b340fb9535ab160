-- ===== src/Fsx/SetUp.antt =====
-- fsx.c: `main` between the options and the run: the sizes, the buffers, the first contents of the
-- file, and the probes for calls that the file system lacks. `malloc` and `calloc` do not fail
-- here, and `fstat` in `check_trunc_hack` fails like a wrong size.
pub mod Probes
use longan_chkout.Base.{
  ℕ, zero, suc, ◌+◌, ◌-◌, ◌*◌, ◌%◌, ◌∙◌, Bool, true, false, ◌&&◌, ◌||◌, not, Option, none, some,
  Buf, memcpy, Outcome, ok, failed, out_of_fuel, ◌>>=◌, expect, ltb, ◌==◌, if◌then◌else◌,
}
use longan_chkout.Fsx.Kernel.{
  Kernel, FallocMode, plain, keep_size, punch_hole, zeroing, collapsing, inserting, Dedupe,
  ioctl_failed, status_failed, deduped, Copied, again, broken, bytes,
}
use longan_chkout.Fsx.State.{Config, Fsx, LogEntry}
use longan_chkout.Fsx.Check.{is_size}

-- The globals at the end of `main`'s preparations.
pub record Boot (S : Type 0) : Type 0 where
  pub config : Config
  pub fsx : Fsx S

-- Whether the `errno` of a call that has just failed is one of those that stand for a call that
-- the file system lacks.
pub record Lacks (S : Type 0) : Type 0 where
  pub lacks_fallocate : S → Bool
  pub lacks_clone : S → Bool
  pub lacks_dedupe : S → Bool
  pub lacks_copy : S → Bool

module _ (k : Kernel) (l : Lacks k.State) where
  unfoldable pub check_trunc_hack : Fsx k.State → Outcome (Fsx k.State)
  unfolding is_size
  check_trunc_hack s = do
    let offset = s.file_size + 100000
    let (cut, k1) = k.ftruncate s.kernel s.file_size
    s1 ← expect cut 131 (record s { kernel = k1 })
    let (grown, k2) = k.ftruncate s1.kernel offset
    s2 ← expect grown 131 (record s1 { kernel = k2 })
    s3 ← expect (is_size offset (k.fstat s2.kernel)) 130 s2
    let (back, k3) = k.ftruncate s3.kernel s3.file_size
    expect back 131 (record s3 { kernel = k3 })

  unfoldable pub test_fallocate : Bool → FallocMode → Fsx k.State → Outcome (Bool × Fsx k.State)
  test_fallocate lite mode s =
      if lite
      then ok (false, s)
      else (let (done, k1) = k.fallocate s.kernel mode s.file_size 1 in
          let (cut, k2) = k.ftruncate k1 s.file_size in
          if not done && l.lacks_fallocate k1
          then ok (false, record s { kernel = k1 })
          else expect cut 132 (true, record s { kernel = k2 }))

  -- A length of 0 stands for all of the file.
  unfoldable pub test_clone_range : Fsx k.State → Outcome (Bool × Fsx k.State)
  test_clone_range s =
      let (done, k1) = k.clone s.kernel 0 0 0 in
      ok (done || not (l.lacks_clone k1), record s { kernel = k1 })

  -- `ftruncate(fd, size)` if the file is smaller than two blocks.
  unfoldable pub truncate_small : ℕ → ℕ → Bool × Fsx k.State → Outcome (Bool × Fsx k.State)
  truncate_small new_len size (ret, s) =
      let (done, k1) = k.ftruncate s.kernel size in
      if ltb s.file_size new_len
      then expect done 132 (ret, record s { kernel = k1 })
      else ok (ret, s)

  unfoldable pub dedupe_error : Dedupe → k.State → Bool
  dedupe_error deduped s = false
  dedupe_error ioctl_failed s = l.lacks_dedupe s
  dedupe_error status_failed s = l.lacks_dedupe s

  unfoldable pub test_dedupe_range : ℕ → Fsx k.State → Outcome (Bool × Fsx k.State)
  unfolding truncate_small dedupe_error
  test_dedupe_range block_size s = do
    let new_len = block_size * 2
    s1 ← truncate_small new_len new_len (true, s)
    let (status, k1) = k.dedupe s1.1.kernel 0 block_size block_size
    truncate_small new_len s.file_size (not (dedupe_error status k1), record s1.1 { kernel = k1 })

  -- Whether `copy_file_range` failed.
  unfoldable pub copy_failed : Copied → Bool
  copy_failed (bytes n) = false
  copy_failed again = true
  copy_failed broken = true

  -- One byte from offset 0 to offset 1, in the file itself.
  unfoldable pub test_copy_range : Fsx k.State → Outcome (Bool × Fsx k.State)
  unfolding copy_failed
  test_copy_range s =
      let (result, k1) = k.copy_file_range s.kernel 0 1 1 in
      ok (not (copy_failed result && l.lacks_copy k1), record s { kernel = k1 })

  -- The answer of a probe goes to its global.
  unfoldable pub answer :
      (Bool → Config → Config)
      → Boot k.State
      → Outcome (Bool × Fsx k.State)
      → Outcome (Boot k.State)
  answer set b (ok (ret, s)) = ok (record { config = set ret b.config; fsx = s })
  answer set b (failed code (ret, s)) = failed code (record b { fsx = s })
  answer set b out_of_fuel = out_of_fuel

  -- `if (calls) calls = test(...)`
  unfoldable pub probe :
      Bool
      → (Bool → Config → Config)
      → (Fsx k.State → Outcome (Bool × Fsx k.State))
      → Boot k.State
      → Outcome (Boot k.State)
  unfolding answer
  probe calls set t b = if calls then answer set b (t b.fsx) else ok b

  unfoldable pub probes : Boot k.State → Outcome (Boot k.State)
  unfolding probe test_fallocate test_clone_range test_dedupe_range test_copy_range
  probes b = do
    let lite = b.config.lite
    b1 ←
        probe b.config.fallocate_calls (λ r c. record c { fallocate_calls = r })
          (test_fallocate lite plain) b
    b2 ←
        probe b1.config.keep_size_calls (λ r c. record c { keep_size_calls = r })
          (test_fallocate lite keep_size) b1
    b3 ←
        probe b2.config.punch_hole_calls (λ r c. record c { punch_hole_calls = r })
          (test_fallocate lite punch_hole) b2
    b4 ←
        probe b3.config.zero_range_calls (λ r c. record c { zero_range_calls = r })
          (test_fallocate lite zeroing) b3
    b5 ←
        probe b4.config.collapse_range_calls (λ r c. record c { collapse_range_calls = r })
          (test_fallocate lite collapsing) b4
    b6 ←
        probe b5.config.insert_range_calls (λ r c. record c { insert_range_calls = r })
          (test_fallocate lite inserting) b5
    b7 ←
        probe b6.config.clone_range_calls (λ r c. record c { clone_range_calls = r })
          test_clone_range b6
    b8 ←
        probe b7.config.dedupe_range_calls (λ r c. record c { dedupe_range_calls = r })
          (test_dedupe_range b7.config.block_size) b7
    probe b8.config.copy_range_calls (λ r c. record c { copy_range_calls = r }) test_copy_range b8
