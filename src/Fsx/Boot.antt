-- ===== src/Fsx/Boot.antt =====
-- fsx.c: `main` from the open file to the run: sizes, buffers, first contents, and the probes.
pub mod Image
use longan_chkout.Base.{
  ℕ, zero, suc, ◌+◌, ◌-◌, ◌%◌, Bool, true, false, not, Option, none, some, Buf, memcpy, Outcome, ok,
  failed, out_of_fuel, ◌>>=◌, expect, ◌==◌, if◌then◌else◌,
}
use longan_chkout.Fsx.Kernel.{Kernel}
use longan_chkout.Fsx.State.{Config, Fsx}
use longan_chkout.Fsx.Check.{is_size}
use longan_chkout.Fsx.SetUp.{Boot, Lacks, check_trunc_hack, probes}

module _ (k : Kernel) (l : Lacks k.State) where
  -- `file_size = maxfilelen = biggest = size`
  unfoldable pub take_size : Option ℕ → Boot k.State → Outcome (Boot k.State)
  take_size none b = failed 94 b
  take_size (some n) b = ok (record {
    config = record b.config { maxfilelen = n };
    fsx = record b.fsx { file_size = n; biggest = n };
  })

  -- Unless the file was truncated when it was opened, its size is the limit.
  unfoldable pub boot_sizes : Bool → Boot k.State → Outcome (Boot k.State)
  unfolding take_size
  boot_sizes truncate b = if truncate then ok b else do
    let (size, k1) = k.seek_end b.fsx.kernel
    b1 ← take_size size (record b { fsx = record b.fsx { kernel = k1 } })
    let (sought, k2) = k.lseek b1.fsx.kernel 0
    expect sought 95 (record b1 { fsx = record b1.fsx { kernel = k2 } })

  -- A random byte for every byte of the file, and zeros.
  unfoldable pub boot_buffers : Boot k.State → Boot k.State
  boot_buffers b = record {
    config = record b.config { original_buf = λ i. b.config.random (b.fsx.draws + i) % 256 };
    fsx = record b.fsx {
      good_buf = λ i. 0;
      temp_buf = λ i. 0;
      draws = b.fsx.draws + b.config.maxfilelen;
    };
  }

  -- The result of one `read` goes to `good_buf` from `off` on; `rec` is the next round.
  unfoldable pub store_read :
      (ℕ → ℕ → Fsx k.State → Outcome (Fsx k.State))
      → ℕ
      → ℕ
      → Option ℕ
      → Buf
      → Fsx k.State
      → Outcome (Fsx k.State)
  store_read rec len off none got s = failed 98 s
  store_read rec len off (some n) got s =
      rec (len - n) (off + n) (record s { good_buf = memcpy s.good_buf off got 0 n })

  -- `while (len > 0)`
  unfoldable pub read_loop : ℕ → ℕ → ℕ → Fsx k.State → Outcome (Fsx k.State)
  unfolding store_read
  read_loop zero len off s = out_of_fuel
  read_loop (suc fuel) len off s =
      let (ret, got, k1) = k.sys_read s.kernel len in
      if len == 0
      then ok s
      else store_read (read_loop fuel) len off ret got (record s { kernel = k1 })

  -- The file as it is, then the test of `ftruncate`.
  unfoldable pub boot_file : Fsx k.State → Outcome (Fsx k.State)
  unfolding read_loop
  boot_file s = read_loop (s.file_size + 1) s.file_size 0 s >>= check_trunc_hack k l

  -- In lite mode all of the file is overwritten with zeros.
  unfoldable pub boot_lite : ℕ → Fsx k.State → Outcome (Fsx k.State)
  unfolding is_size
  boot_lite maxfilelen s =
      let (written, k1) = k.sys_write s.kernel s.good_buf 0 maxfilelen in
      expect (is_size maxfilelen written) 98 (record s { kernel = k1 })

  unfoldable pub with_file : Config → Outcome (Fsx k.State) → Outcome (Boot k.State)
  with_file c (ok s) = ok (record { config = c; fsx = s })
  with_file c (failed code s) = failed code (record { config = c; fsx = s })
  with_file c out_of_fuel = out_of_fuel

  -- `truncate` is `o_flags & O_TRUNC`.
  unfoldable pub boot : Bool → Boot k.State → Outcome (Boot k.State)
  unfolding boot_sizes boot_buffers boot_file boot_lite with_file
  boot truncate b = do
    b1 ← boot_sizes truncate b
    let b2 = boot_buffers b1
    let c = b2.config
    b3 ← with_file c (if c.lite then boot_lite c.maxfilelen b2.fsx else boot_file b2.fsx)
    probes k l b3
