-- ===== src/Fsx/Live/Write.antt =====
-- Writes, mapped writes and truncations keep the invariant on a correct file system.
use native.Mathlib.Nat.{mod-le}
use longan_chkout.Base.{
  ℕ, ◌+◌, ◌-◌, ◌%◌, ◌^◌, ◌≤◌, ◌<◌, max, ◌≡◌, refl, ap, ◌∙◌, Bool, true, Buf, arith, ltb, leb, ◌==◌,
  add32, if◌then◌else◌, ok, expect, Holds, Holds-bind, Holds-if, align_down, align_rest, ◌&&◌, not,
}
use longan_chkout.Fsx.File
use longan_chkout.Fsx.File.{File, Same, Same-refl, Same-trans, Same-sym}
use longan_chkout.Fsx.File.Congruence.{write-Same}
use longan_chkout.Fsx.Kernel.{Kernel, IsCorrect}
use longan_chkout.Fsx.State.{Config, Fsx, op_write, fl_none, fl_skipped, log4}
use longan_chkout.Fsx.Model.{put_data, gen_byte}
use longan_chkout.Fsx.Model.Refines.{model, put_data_refines}
use longan_chkout.Fsx.Check.{doflush}
use longan_chkout.Fsx.Transfer.{simulated, trim_direct, write_out, dowrite}
use longan_chkout.Fsx.Live.{IsSetUp, Live, Live-same}
use longan_chkout.Fsx.Live.Page.{align_down-mod}
use longan_chkout.Fsx.Live.Basics.{is_whole_lem, trim_direct-le, log4-Live, real_lem, base_lem}

-- A file that is another one with a write at `off` is that file with its own bytes written there.
pub write_own :
    (h g : File) (off n : ℕ) (src : Buf)
    → Same h (File.write g off src off n)
    → Same h (File.write g off h.byte off n)
write_own h g off n src p = record {
  same_size = p.same_size;
  same_byte = λ j l. ground (arith, p.same_byte j, back j);
}
  where
    back : (j : ℕ) → off ≤ j → h.byte (off + (j - off)) ≡ h.byte j
    back j l = ap h.byte (omega arith)

module _ (k : Kernel) (c : Config) (w : IsCorrect k c.page_size c.block_size c.maxfilelen)
    (u : IsSetUp c) where
  pub doflush-Live :
      (offset size : ℕ) (s : Fsx k.State)
      → 0 < size
      → offset + size < 2 ^ 31
      → Live k c w s
      → Holds (Live k c w) (doflush k c offset size s)
  unfolding doflush
  doflush-Live offset size s p h v =
      Holds-if (Live k c w) c.o_direct _ _ (λ _. v)
        (λ _. rw (base_lem c.page_size offset (omega arith)) (
          rw
            (w.mmap_ok s.kernel base len (omega (arith, mod-le offset c.page_size))
              (align_down-mod offset c.page_size))
            (rw (w.msync_ok k1) (
              rw (w.munmap_ok k2) (
                Live-same k c w s _ refl refl refl
                  (w.munmap_view k2 ∙ w.msync_view k1 ∙ w.mmap_view s.kernel base len) v)))))
    where
      base : ℕ
      base = align_down offset c.page_size

      len : ℕ
      len = add32 (align_rest offset c.page_size) size

      k1 : k.State
      k1 = (k.mmap s.kernel base len).1

      k2 : k.State
      k2 = (k.msync k1).1

  pub write_out-Live :
      (offset size : ℕ) (s : Fsx k.State)
      → 0 < size
      → offset + size ≤ s.file_size
      → s.file_size ≤ c.maxfilelen
      → c.simulatedopcount < s.testcalls
      → Same (model s) (File.write (w.view s.kernel) offset s.good_buf offset size)
      → Holds (Live k c w) (write_out k c offset size s)
  unfolding write_out
  write_out-Live offset size s p h b r e = rw (w.lseek_ok s.kernel offset) (
      rw (w.write_ok sought s.good_buf offset size few) (
        rw (is_whole_lem size (omega (arith, u.small_file))) (
          Holds-bind (Live k c w) (Live k c w)
            (if c.do_fsync
              then expect (k.fsync k2).0 152 (record t { kernel = (k.fsync k2).1 })
              else ok t)
            _ synced (λ a va. flushed a va))))
    where
      sought : k.State
      sought = (k.lseek s.kernel offset).1

      k2 : k.State
      k2 = (k.sys_write sought s.good_buf offset size).1

      t : Fsx k.State
      t = record s { kernel = k2 }

      few : size ≤ c.maxfilelen
      few = omega (arith, h, b)

      written : Same (w.view k2) (File.write (w.view s.kernel) offset s.good_buf offset size)
      written =
          rw (w.lseek_view s.kernel offset, w.lseek_pos s.kernel offset) at
            (w.write_view sought s.good_buf offset size few)

      vt : Live k c w t
      vt = record { bounded = b; real = r; same = Same-trans written (Same-sym e) }

      synced : Holds (Live k c w) (
          if c.do_fsync
          then expect (k.fsync k2).0 152 (record t { kernel = (k.fsync k2).1 })
          else ok t)
      synced =
          Holds-if (Live k c w) c.do_fsync _ _
            (λ _. rw (w.fsync_ok k2) (Live-same k c w t _ refl refl refl (w.fsync_view k2) vt))
            (λ _. vt)

      flushed :
          (a : Fsx k.State)
          → Live k c w a
          → Holds (Live k c w) (if c.flush then doflush k c offset size a else ok a)
      flushed a va =
          Holds-if (Live k c w) c.flush _ _
            (λ _. doflush-Live offset size a p (omega (arith, u.small_file)) va) (λ _. va)

  -- `good_buf` after a write, against the file before it.
  pub put_data_lem :
      (offset size : ℕ) (s : Fsx k.State)
      → 0 < size
      → offset + size ≤ c.maxfilelen
      → Live k c w s
      → let t = put_data c offset size s in
        Same (model t) (File.write (w.view s.kernel) offset t.good_buf offset size)
  put_data_lem offset size s p h v =
      write_own (model (put_data c offset size s)) (w.view s.kernel) offset size
        (gen_byte c s.testcalls)
        (Same-trans (put_data_refines c offset size s (omega (arith, u.small_file)) p) (
          write-Same offset (gen_byte c s.testcalls) (gen_byte c s.testcalls) offset size
            (Same-sym v.same) (λ i l. refl)))

  pub put_data_parts :
      (offset size : ℕ) (s : Fsx k.State)
      → offset + size ≤ c.maxfilelen
      → Live k c w s
      → let t = put_data c offset size s in
        (t.kernel ≡ s.kernel)
        × (t.testcalls ≡ s.testcalls)
        × (t.file_size ≡ max s.file_size (offset + size))
  unfolding put_data
  put_data_parts offset size s h v = (ground arith, ground arith, ground (arith, u.small_file))

  pub not_lite_lem : (b : Bool) → not (c.lite && b) ≡ true
  not_lite_lem b = ground (arith, u.not_lite)

  -- On a correct file system and for options as set up, `dowrite` of a range within `maxfilelen`
  -- ends without failure and keeps the invariant.
  pub dowrite-Live :
      (off len : ℕ) (s : Fsx k.State)
      → off + len ≤ c.maxfilelen
      → Live k c w s
      → Holds (Live k c w) (dowrite k c off len s)
  unfolding dowrite
  dowrite-Live off len s h v =
      Holds-if (Live k c w) (size == 0) _ _
        (λ _. log4-Live k c w u op_write offset size fl_skipped s v)
        (λ some_bytes.
          rw (not_lite_lem (ltb s.file_size (add32 offset size)), calls, real_lem k c w u s1 v1)
            (write_out-Live offset size t (ground (arith, some_bytes)) (omega (arith, parts.2))
              (omega (arith, parts.2, v1.bounded, inside)) (omega (arith, parts.1, v1.real))
              (rw parts.0 (put_data_lem offset size s1 (ground (arith, some_bytes)) inside v1))))
    where
      offset : ℕ
      offset = off - off % c.writebdy

      size : ℕ
      size = trim_direct c.o_direct c.writebdy len

      s1 : Fsx k.State
      s1 = log4 op_write offset size fl_none s

      v1 : Live k c w s1
      v1 = log4-Live k c w u op_write offset size fl_none s v

      t : Fsx k.State
      t = put_data c offset size s1

      inside : offset + size ≤ c.maxfilelen
      inside = omega (arith, trim_direct-le c.o_direct c.writebdy len, h)

      parts :
          (t.kernel ≡ s1.kernel)
          × (t.testcalls ≡ s1.testcalls)
          × (t.file_size ≡ max s1.file_size (offset + size))
      parts = put_data_parts offset size s1 inside v1

      calls : simulated k c t ≡ simulated k c s1
      calls = ap (λ n. leb n c.simulatedopcount) parts.1
