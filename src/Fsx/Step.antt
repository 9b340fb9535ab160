-- ===== src/Fsx/Step.antt =====
-- fsx.c: `test`, which draws or replays one operation, trims its arguments, runs it and checks
-- the file, and the loop of `main` around it.
use longan_chkout.Base.{
  ℕ, zero, suc, ◌+◌, Bool, true, ◌&&◌, ◌||◌, not, Option, none, some, Outcome, ok, out_of_fuel,
  ◌>>=◌, expect, ltb, leb, ◌==◌, if◌then◌else◌, u32, add64, sub64, align_down,
}
use longan_chkout.Fsx.Kernel.{Kernel}
use longan_chkout.Fsx.State.{
  Op, op_read, op_write, op_mapread, op_mapwrite, op_truncate, op_fallocate, op_punch_hole,
  op_zero_range, op_collapse_range, op_insert_range, op_clone_range, op_dedupe_range, op_copy_range,
  op_fsync, Config, Fsx, fl_none, fl_skipped, log4, log5,
}
use longan_chkout.Fsx.Check.{is_size, is_whole, check_size, check_contents}
use longan_chkout.Fsx.Transfer.{simulated, doread, dowrite, domapread, domapwrite, dotruncate}
use longan_chkout.Fsx.Range.{
  do_punch_hole, do_zero_range, do_collapse_range, do_insert_range, do_preallocate,
}
use longan_chkout.Fsx.Duplicate.{do_clone_range, do_dedupe_range, do_copy_range}
use longan_chkout.Fsx.Choose.{Call, trim_off, trim_len, choose}

-- `file_size - 1`, as `%` reads it.
unfoldable pub last_of : ℕ → ℕ
last_of n = sub64 n 1

module _ (k : Kernel) (c : Config) where
  -- A write from `good_buf` in one piece, then a truncation unless in lite mode.
  unfoldable pub writefileimage : Fsx k.State → Outcome (Fsx k.State)
  unfolding is_whole
  writefileimage s = do
    let (sought, k1) = k.lseek s.kernel 0
    s1 ← expect sought 171 (record s { kernel = k1 })
    let (ret, k2) = k.sys_write s1.kernel s1.good_buf 0 s1.file_size
    s2 ← expect (is_size s1.file_size ret) 172 (record s1 { kernel = k2 })
    let (done, k3) = k.ftruncate s2.kernel s2.file_size
    if c.lite then ok s2 else expect done 173 (record s2 { kernel = k3 })

  unfoldable pub docloseopen : Fsx k.State → Outcome (Fsx k.State)
  unfolding simulated
  docloseopen s = if simulated k c s then ok s else do
    let (closed, k1) = k.close_fd s.kernel
    s1 ← expect closed 180 (record s { kernel = k1 })
    let (opened, k2) = k.open_fd s1.kernel
    expect opened 181 (record s1 { kernel = k2 })

  -- With `mark_log` and `dump_fsync_buffer`, which leave the test file alone.
  unfoldable pub dofsync : Fsx k.State → Outcome (Fsx k.State)
  unfolding simulated
  dofsync s = if simulated k c s then ok s else do
    let s1 = log4 op_fsync 0 0 fl_none s
    let (synced, k1) = k.fsync s1.kernel
    s2 ← expect synced 210 (record s1 { kernel = k1 })
    let (marked, k2) = k.dm_mark s2.kernel
    s3 ← expect marked 211 (record s2 { kernel = k2 })
    let (opened, k3) = k.open_mark s3.kernel
    s4 ← expect opened 212 (record s3 { kernel = k3 })
    ok (record s4 { mark_nr = s4.mark_nr + 1 })

  -- What follows the switch, unless the code went to `out`.
  unfoldable pub after_op : Fsx k.State → Outcome (Fsx k.State)
  unfolding simulated
  after_op s = if c.check_file && not (simulated k c s) then check_contents k c s else ok s

  -- The second switch of `have_op`: trim the arguments and run the operation.
  unfoldable pub perform : Op → ℕ → ℕ → ℕ → Bool → Fsx k.State → Outcome (Fsx k.State)
  unfolding after_op trim_off trim_len last_of
  perform op_read off len off2 keep s =
      let offset = trim_off off s.file_size in
      doread k c (u32 offset) (u32 (trim_len offset len s.file_size)) s >>= after_op
  perform op_write off len off2 keep s =
      let offset = trim_off off c.maxfilelen in
      dowrite k c (u32 offset) (u32 (trim_len offset len c.maxfilelen)) s >>= after_op
  perform op_mapread off len off2 keep s =
      let offset = trim_off off s.file_size in
      domapread k c (u32 offset) (u32 (trim_len offset len s.file_size)) s >>= after_op
  perform op_mapwrite off len off2 keep s =
      let offset = trim_off off c.maxfilelen in
      domapwrite k c (u32 offset) (u32 (trim_len offset len c.maxfilelen)) s >>= after_op
  perform op_truncate off len off2 keep s = dotruncate k c (u32 len) s >>= after_op
  perform op_fallocate off len off2 keep s =
      let offset = trim_off off c.maxfilelen in
      do_preallocate k c (u32 offset) (u32 (trim_len offset len c.maxfilelen)) keep s >>= after_op
  perform op_punch_hole off len off2 keep s =
      let offset = trim_off off s.file_size in
      do_punch_hole k c (u32 offset) (u32 (trim_len offset len s.file_size)) s >>= after_op
  perform op_zero_range off len off2 keep s =
      let offset = trim_off off s.file_size in
      do_zero_range k c (u32 offset) (u32 (trim_len offset len s.file_size)) keep s >>= after_op
  perform op_collapse_range off len off2 keep s =
      let trimmed = trim_off off (last_of s.file_size) in
      let offset = align_down trimmed c.block_size in
      let size = align_down (trim_len trimmed len (last_of s.file_size)) c.block_size in
      if size == 0
      then ok (log4 op_collapse_range offset size fl_skipped s)
      else do_collapse_range k c (u32 offset) (u32 size) s >>= after_op
  perform op_insert_range off len off2 keep s =
      let offset = align_down (trim_off off s.file_size) c.block_size in
      let size = align_down (trim_len s.file_size len c.maxfilelen) c.block_size in
      if size == 0 || ltb c.maxfilelen (add64 s.file_size size)
      then ok (log4 op_insert_range offset size fl_skipped s)
      else do_insert_range k c (u32 offset) (u32 size) s >>= after_op
  perform op_clone_range off len off2 keep s =
      if len == 0 || ltb c.maxfilelen (add64 off2 len)
      then ok (log5 op_clone_range off len off2 fl_skipped s)
      else do_clone_range k c (u32 off) (u32 len) (u32 off2) s >>= after_op
  perform op_dedupe_range off len off2 keep s =
      if len == 0 || ltb c.maxfilelen (add64 off2 len)
      then ok (log5 op_dedupe_range off len off2 fl_skipped s)
      else do_dedupe_range k c (u32 off) (u32 len) (u32 off2) s >>= after_op
  perform op_copy_range off len off2 keep s =
      if len == 0 || ltb c.maxfilelen (add64 off2 len)
      then ok (log5 op_copy_range off len off2 fl_skipped s)
      else do_copy_range k c (u32 off) (u32 len) (u32 off2) s >>= after_op
  perform op_fsync off len off2 keep s = dofsync s >>= after_op

  -- The first switch of `have_op`: replace or skip what is disabled.
  unfoldable pub have_op : Op → ℕ → ℕ → ℕ → Bool → Fsx k.State → Outcome (Fsx k.State)
  have_op op_mapread off len off2 keep s =
      perform (if c.mapped_reads then op_mapread else op_read) off len off2 keep s
  have_op op_mapwrite off len off2 keep s =
      perform (if c.mapped_writes then op_mapwrite else op_write) off len off2 keep s
  have_op op_fallocate off len off2 keep s =
      if c.fallocate_calls
      then perform op_fallocate off len off2 keep s
      else ok (log4 op_fallocate off len fl_skipped s)
  have_op op_punch_hole off len off2 keep s =
      if c.punch_hole_calls
      then perform op_punch_hole off len off2 keep s
      else ok (log4 op_punch_hole off len fl_skipped s)
  have_op op_zero_range off len off2 keep s =
      if c.zero_range_calls
      then perform op_zero_range off len off2 keep s
      else ok (log4 op_zero_range off len fl_skipped s)
  have_op op_collapse_range off len off2 keep s =
      if c.collapse_range_calls
      then perform op_collapse_range off len off2 keep s
      else ok (log4 op_collapse_range off len fl_skipped s)
  have_op op_insert_range off len off2 keep s =
      if c.insert_range_calls
      then perform op_insert_range off len off2 keep s
      else ok (log4 op_insert_range off len fl_skipped s)
  have_op op_clone_range off len off2 keep s =
      if c.clone_range_calls
      then perform op_clone_range off len off2 keep s
      else ok (log5 op_clone_range off len off2 fl_skipped s)
  have_op op_dedupe_range off len off2 keep s =
      if c.dedupe_range_calls
      then perform op_dedupe_range off len off2 keep s
      else ok (log5 op_dedupe_range off len off2 fl_skipped s)
  have_op op_copy_range off len off2 keep s =
      if c.copy_range_calls
      then perform op_copy_range off len off2 keep s
      else ok (log5 op_copy_range off len off2 fl_skipped s)
  have_op op off len off2 keep s = perform op off len off2 keep s

  -- From `out` to the end.
  unfoldable pub finish : Fsx k.State → Outcome (Fsx k.State)
  unfolding simulated docloseopen
  finish s = do
    s1 ← if c.sizechecks && not (simulated k c s) then check_size k c s else ok s
    if s1.closeopen then docloseopen s1 else ok s1

  unfoldable pub run_call : Call → Fsx k.State → Outcome (Fsx k.State)
  unfolding finish
  run_call call s = have_op call.op call.offset call.size call.offset2 call.keep s >>= finish

  -- `test` up to its source of operations.
  unfoldable pub begin : Fsx k.State → Outcome (Fsx k.State)
  unfolding writefileimage
  begin s = do
    s1 ←
        if ltb 0 c.simulatedopcount && (s.testcalls == c.simulatedopcount)
        then writefileimage s
        else ok s
    let calls = s1.testcalls + 1
    ok (record s1 {
      testcalls = calls;
      debug = if ltb 0 c.debugstart && leb c.debugstart calls then true else s1.debug;
    })

  unfoldable pub run_chosen : Option (Call × ℕ × Bool) → Fsx k.State → Outcome (Fsx k.State)
  unfolding run_call
  run_chosen none s = out_of_fuel
  run_chosen (some (call, draws, close)) s =
      run_call call (record s { draws = draws; closeopen = close })

  -- `test` with no replay file. The fuel bounds each search for a destination.
  unfoldable pub test : ℕ → Fsx k.State → Outcome (Fsx k.State)
  unfolding begin run_chosen
  test fuel s = do s1 ← begin s; run_chosen (choose c fuel s1.file_size s1.closeopen s1.draws) s1

  -- `while (numops--) test()`
  unfoldable pub run : ℕ → ℕ → Fsx k.State → Outcome (Fsx k.State)
  unfolding test
  run zero fuel s = ok s
  run (suc n) fuel s = test fuel s >>= run n fuel
