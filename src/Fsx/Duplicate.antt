-- ===== src/Fsx/Duplicate.antt =====
-- fsx.c: `FICLONERANGE`, `FIDEDUPERANGE` and `copy_file_range` within the test file.
use longan_chkout.Base.{
  ℕ, zero, suc, ◌+◌, ◌-◌, Bool, true, false, ◌||◌, Outcome, ok, failed, out_of_fuel, ◌>>=◌, expect,
  ltb, leb, ◌==◌, if◌then◌else◌, add32,
}
use longan_chkout.Fsx.Kernel.{
  Kernel, Dedupe, ioctl_failed, status_failed, deduped, Copied, again, broken, bytes,
}
use longan_chkout.Fsx.State.{
  Config, Fsx, op_clone_range, op_dedupe_range, op_copy_range, fl_none, fl_skipped, log5,
}
use longan_chkout.Fsx.Model.{note_biggest, copy_model}
use longan_chkout.Fsx.Transfer.{simulated}

-- The `EAGAIN`s after which the loop of `do_copy_range` gives up.
abbrev pub max_tries : ℕ
max_tries = 300

unfoldable pub is_deduped : Dedupe → Bool
is_deduped deduped = true
is_deduped ioctl_failed = false
is_deduped status_failed = false

module _ (k : Kernel) (c : Config) where
  unfoldable pub do_clone_range : ℕ → ℕ → ℕ → Fsx k.State → Outcome (Fsx k.State)
  unfolding simulated
  do_clone_range offset length dest s =
      if length == 0 || leb s.file_size offset
      then ok (log5 op_clone_range offset length dest fl_skipped s)
      else (let s1 =
            log5 op_clone_range offset length dest fl_none (note_biggest (add32 dest length) s) in
          if simulated k c s1 then ok s1 else do
            let (done, k1) = k.clone s1.kernel offset length dest
            s2 ← expect done 161 (record s1 { kernel = k1 })
            ok (copy_model offset length dest s2))

  -- `calloc` does not fail here.
  unfoldable pub do_dedupe_range : ℕ → ℕ → ℕ → Fsx k.State → Outcome (Fsx k.State)
  unfolding simulated is_deduped
  do_dedupe_range offset length dest s =
      if length == 0 || leb s.file_size offset
      then ok (log5 op_dedupe_range offset length dest fl_skipped s)
      else (let s1 = log5 op_dedupe_range offset length dest fl_none s in
          let (status, k1) = k.dedupe s1.kernel offset length dest in
          if simulated k c s1
          then ok s1
          else expect (is_deduped status) 161 (record s1 { kernel = k1 }))

  -- The loop body of `do_copy_range` behind its call: `rec` is the next round. The kernel moves
  -- `o1` and `o2` on by what it copies.
  unfoldable pub copy_step :
      (ℕ → ℕ → ℕ → ℕ → Fsx k.State → Outcome (Fsx k.State))
      → ℕ
      → ℕ
      → ℕ
      → ℕ
      → Copied
      → Fsx k.State
      → Outcome (Fsx k.State)
  copy_step rec tries o1 o2 olen again s =
      if leb max_tries tries then failed 161 s else rec (tries + 1) o1 o2 olen s
  copy_step rec tries o1 o2 olen broken s = failed 161 s
  copy_step rec tries o1 o2 olen (bytes nr) s =
      if ltb olen nr then failed 161 s else rec tries (o1 + nr) (o2 + nr) (olen - nr) s

  -- `while (olen > 0)`
  unfoldable pub copy_loop : ℕ → ℕ → ℕ → ℕ → ℕ → Fsx k.State → Outcome (Fsx k.State)
  unfolding copy_step
  copy_loop zero tries o1 o2 olen s = out_of_fuel
  copy_loop (suc fuel) tries o1 o2 olen s =
      let (result, k1) = k.copy_file_range s.kernel o1 o2 olen in
      if olen == 0
      then ok s
      else copy_step (copy_loop fuel) tries o1 o2 olen result (record s { kernel = k1 })

  -- Each round copies a byte at least or is one of `max_tries`: the fuel is one more than that.
  unfoldable pub do_copy_range : ℕ → ℕ → ℕ → Fsx k.State → Outcome (Fsx k.State)
  unfolding simulated copy_loop
  do_copy_range offset length dest s =
      if length == 0 || leb s.file_size offset
      then ok (log5 op_copy_range offset length dest fl_skipped s)
      else (let s1 =
            log5 op_copy_range offset length dest fl_none (note_biggest (add32 dest length) s) in
          if simulated k c s1 then ok s1 else do
            s2 ← copy_loop (length + max_tries + 2) 0 offset dest length s1
            ok (copy_model offset length dest s2))
