-- ===== src/Fsx/Transfer.antt =====
-- fsx.c: reads, writes, mapped reads, mapped writes and truncations. What `prt` prints is left
-- out, with the tests that only choose whether to print.
use longan_chkout.Base.{
  ℕ, ◌-◌, ◌%◌, Bool, ◌&&◌, ◌||◌, not, memcpy, Outcome, ok, ◌>>=◌, expect, ltb, leb, ◌==◌,
  if◌then◌else◌, add32, sub32, align_rest,
}
use longan_chkout.Fsx.Kernel.{Kernel}
use longan_chkout.Fsx.State.{
  Config, Fsx, op_read, op_mapread, op_write, op_mapwrite, op_truncate, fl_none, fl_skipped, log4,
}
use longan_chkout.Fsx.Model.{put_data, resize_model, note_biggest}
use longan_chkout.Fsx.Check.{is_whole, count_of, check_buffers, check_eofpage, doflush}

-- `size -= size % bdy` under `if (o_direct)`
unfoldable pub trim_direct : Bool → ℕ → ℕ → ℕ
trim_direct o_direct bdy size = if o_direct then size - size % bdy else size

module _ (k : Kernel) (c : Config) where
  -- `testcalls <= simulatedopcount`: the operation is only simulated.
  unfoldable pub simulated : Fsx k.State → Bool
  simulated s = leb s.testcalls c.simulatedopcount

  unfoldable pub read_back : ℕ → ℕ → Fsx k.State → Outcome (Fsx k.State)
  read_back offset size s = do
    let (sought, k1) = k.lseek s.kernel offset
    s1 ← expect sought 140 (record s { kernel = k1 })
    let (ret, got, k2) = k.sys_read s1.kernel size
    s2 ←
        expect (is_whole ret size) 141
          (record s1 { kernel = k2; temp_buf = memcpy s1.temp_buf 0 got 0 (count_of ret) })
    check_buffers k c s2.temp_buf offset size s2

  unfoldable pub doread : ℕ → ℕ → Fsx k.State → Outcome (Fsx k.State)
  unfolding trim_direct simulated
  doread off len s =
      let offset = off - off % c.readbdy in
      let size = trim_direct c.o_direct c.readbdy len in
      if size == 0 || ltb s.file_size (add32 size offset)
      then ok (log4 op_read offset size fl_skipped s)
      else (let s1 = log4 op_read offset size fl_none s in
          if simulated s1 then ok s1 else read_back offset size s1)

  unfoldable pub map_back : ℕ → ℕ → Fsx k.State → Outcome (Fsx k.State)
  map_back offset size s = do
    let pg_offset = align_rest offset c.page_size
    let base = sub32 offset pg_offset
    let (mapped, k1) = k.mmap s.kernel base (add32 pg_offset size)
    s1 ← expect mapped 190 (record s { kernel = k1 })
    let s2 = record s1 {
      temp_buf = memcpy s1.temp_buf 0 (k.map_byte s1.kernel base) pg_offset size;
    }
    s3 ← check_eofpage k c offset base size s2
    let (unmapped, k2) = k.munmap s3.kernel
    s4 ← expect unmapped 191 (record s3 { kernel = k2 })
    check_buffers k c s4.temp_buf offset size s4

  unfoldable pub domapread : ℕ → ℕ → Fsx k.State → Outcome (Fsx k.State)
  unfolding simulated
  domapread off size s =
      let offset = off - off % c.readbdy in
      if size == 0 || ltb s.file_size (add32 size offset)
      then ok (log4 op_mapread offset size fl_skipped s)
      else (let s1 = log4 op_mapread offset size fl_none s in
          if simulated s1 then ok s1 else map_back offset size s1)

  unfoldable pub write_out : ℕ → ℕ → Fsx k.State → Outcome (Fsx k.State)
  write_out offset size s = do
    let (sought, k1) = k.lseek s.kernel offset
    s1 ← expect sought 150 (record s { kernel = k1 })
    let (ret, k2) = k.sys_write s1.kernel s1.good_buf offset size
    s2 ← expect (is_whole ret size) 151 (record s1 { kernel = k2 })
    let (synced, k3) = k.fsync s2.kernel
    s3 ← if c.do_fsync then expect synced 152 (record s2 { kernel = k3 }) else ok s2
    if c.flush then doflush k c offset size s3 else ok s3

  unfoldable pub dowrite : ℕ → ℕ → Fsx k.State → Outcome (Fsx k.State)
  unfolding trim_direct simulated
  dowrite off len s =
      let offset = off - off % c.writebdy in
      let size = trim_direct c.o_direct c.writebdy len in
      if size == 0 then ok (log4 op_write offset size fl_skipped s) else do
        let s1 = put_data c offset size (log4 op_write offset size fl_none s)
        s2 ← expect (not (c.lite && ltb s.file_size (add32 offset size))) 149 s1
        if simulated s2 then ok s2 else write_out offset size s2

  -- `grown` is `file_size > cur_filesize`.
  unfoldable pub map_out : Bool → ℕ → ℕ → Fsx k.State → Outcome (Fsx k.State)
  map_out grown offset size s = do
    let (longer, k1) = k.ftruncate s.kernel s.file_size
    s1 ← if grown then expect longer 201 (record s { kernel = k1 }) else ok s
    let pg_offset = align_rest offset c.page_size
    let base = sub32 offset pg_offset
    let (mapped, k2) = k.mmap s1.kernel base (add32 pg_offset size)
    s2 ← expect mapped 202 (record s1 { kernel = k2 })
    let k3 = k.map_store s2.kernel base pg_offset s2.good_buf offset size
    let (synced, k4) = k.msync k3
    s3 ← expect synced 203 (record s2 { kernel = k4 })
    s4 ← check_eofpage k c offset base size s3
    let (unmapped, k5) = k.munmap s4.kernel
    expect unmapped 204 (record s4 { kernel = k5 })

  unfoldable pub domapwrite : ℕ → ℕ → Fsx k.State → Outcome (Fsx k.State)
  unfolding simulated
  domapwrite off size s =
      let offset = off - off % c.writebdy in
      if size == 0 then ok (log4 op_mapwrite offset size fl_skipped s) else do
        let s1 = put_data c offset size (log4 op_mapwrite offset size fl_none s)
        s2 ← expect (not (c.lite && ltb s.file_size (add32 offset size))) 200 s1
        if simulated s2 then ok s2 else map_out (ltb s.file_size s2.file_size) offset size s2

  unfoldable pub dotruncate : ℕ → Fsx k.State → Outcome (Fsx k.State)
  unfolding simulated
  dotruncate len s =
      let size = len - len % c.truncbdy in
      let s1 = resize_model size (log4 op_truncate 0 size fl_none (note_biggest size s)) in
      let (done, k1) = k.ftruncate s1.kernel size in
      if simulated s1 then ok s1 else expect done 160 (record s1 { kernel = k1 })
