-- ===== src/Fsx/Live/MapWrite.antt =====
-- Mapped writes and truncations keep the invariant on a correct file system.
use native.Mathlib.Nat.{mod-le}
use longan_chkout.Base.{
  ℕ, ◌+◌, ◌-◌, ◌%◌, ◌≤◌, ◌<◌, max, ◌≡◌, refl, ap, Bool, true, false, Buf, arith, ltb, leb, ◌==◌,
  add32, if◌then◌else◌, ok, expect, ◌>>=◌, Holds, Holds-bind, Holds-if, tests, align_down,
  align_rest, sub32,
}
use longan_chkout.Fsx.File
use longan_chkout.Fsx.File.{File, Same, Same-refl, Same-trans, Same-sym}
use longan_chkout.Fsx.File.Congruence.{write-Same, resize-Same}
use longan_chkout.Fsx.Kernel.{Kernel, IsCorrect}
use longan_chkout.Fsx.State.{Config, Fsx, op_mapwrite, fl_none, fl_skipped, log4}
use longan_chkout.Fsx.State.Log.{file_size-log4}
use longan_chkout.Fsx.Model.{put_data, resize_model, note_biggest}
use longan_chkout.Fsx.Model.Refines.{model, resize_model_refines}
use longan_chkout.Fsx.Check.{check_eofpage}
use longan_chkout.Fsx.Transfer.{simulated, map_out, domapwrite, dotruncate}
use longan_chkout.Fsx.Live.{IsSetUp, Live, Live-same}
use longan_chkout.Fsx.Live.Page.{align_down-mod}
use longan_chkout.Fsx.Live.Basics.{log4-Live, real_lem, base_lem, check_eofpage_pass}
use longan_chkout.Fsx.Live.Write.{put_data_lem, put_data_parts, not_lite_lem}

-- Growing a file before a write that ends at the new size makes no difference.
pub write-resize :
    (g : File) (n off : ℕ) (src : Buf) (at m : ℕ)
    → n ≡ (File.write g off src at m).size
    → Same (File.write (File.resize g n) off src at m) (File.write g off src at m)
write-resize g n off src at m e = record {
  same_size = ground (arith, e);
  same_byte = λ j l. ground (arith, e);
}

-- Where a write that makes a file of `n` bytes ends.
pub write-end :
    (g : File) (n off : ℕ) (src : Buf) (at m : ℕ)
    → 0 < m
    → n ≡ (File.write g off src at m).size
    → off + m ≤ n
write-end g n off src at m p e = ground (arith, e)

module _ (k : Kernel) (c : Config) (w : IsCorrect k c.page_size c.block_size c.maxfilelen)
    (u : IsSetUp c) where
  -- The file has its final size, and `good_buf` is that file with the write.
  record Sized (offset size : ℕ) (s : Fsx k.State) : Type 0 where
    bounded : s.file_size ≤ c.maxfilelen
    real : c.simulatedopcount < s.testcalls
    sized : (w.view s.kernel).size ≡ s.file_size
    written : Same (model s) (File.write (w.view s.kernel) offset s.good_buf offset size)

  map_out-Sized :
      (grown : Bool) (offset size : ℕ) (s : Fsx k.State)
      → s.file_size ≤ c.maxfilelen
      → c.simulatedopcount < s.testcalls
      → Same (model s) (File.write (w.view s.kernel) offset s.good_buf offset size)
      → (grown ≡ false → (w.view s.kernel).size ≡ s.file_size)
      → Holds (Sized offset size) (
          if grown
          then expect
              (k.ftruncate s.kernel s.file_size).0
              201
              (record s { kernel = (k.ftruncate s.kernel s.file_size).1 })
          else ok s)
  map_out-Sized false offset size s b r e z = record {
    bounded = b;
    real = r;
    sized = z refl;
    written = e;
  }
  map_out-Sized true offset size s b r e z = rw (w.ftruncate_ok s.kernel s.file_size) (record {
    bounded = b;
    real = r;
    sized = (w.ftruncate_view s.kernel s.file_size).same_size;
    written = Same-trans e (
        Same-trans
          (Same-sym
            (write-resize (w.view s.kernel) s.file_size offset s.good_buf offset size e.same_size))
          (write-Same offset s.good_buf s.good_buf offset size
            (Same-sym (w.ftruncate_view s.kernel s.file_size)) (λ i l. refl)));
  })

  map_in-Live :
      (offset size : ℕ)
      → 0 < size
      → offset + size ≤ c.maxfilelen
      → (s : Fsx k.State) → Sized offset size s
      → Holds (Live k c w) (do
        let pg_offset = align_rest offset c.page_size
        let base = sub32 offset pg_offset
        let (mapped, k2) = k.mmap s.kernel base (add32 pg_offset size)
        s2 ← expect mapped 202 (record s { kernel = k2 })
        let k3 = k.map_store s2.kernel base pg_offset s2.good_buf offset size
        let (synced, k4) = k.msync k3
        s3 ← expect synced 203 (record s2 { kernel = k4 })
        s4 ← check_eofpage k c offset base size s3
        let (unmapped, k5) = k.munmap s4.kernel
        expect unmapped 204 (record s4 { kernel = k5 }))
  map_in-Live offset size p h s z = rw (base_lem c.page_size offset (omega (arith, u.small_file))) (
      rw
        (w.mmap_ok s.kernel base len
          (omega (arith, u.small_file, u.small_page, mod-le offset c.page_size))
          (align_down-mod offset c.page_size))
        (rw (w.msync_ok k3) (
          rw (check_eofpage_pass k c w u offset size t vt ends)
            (rw (w.munmap_ok k4) (Live-same k c w t _ refl refl refl (w.munmap_view k4) vt)))))
    where
      base : ℕ
      base = align_down offset c.page_size

      len : ℕ
      len = add32 (align_rest offset c.page_size) size

      k2 : k.State
      k2 = (k.mmap s.kernel base len).1

      k3 : k.State
      k3 = k.map_store k2 base (align_rest offset c.page_size) s.good_buf offset size

      k4 : k.State
      k4 = (k.msync k3).1

      t : Fsx k.State
      t = record s { kernel = k4 }

      ends : offset + size ≤ s.file_size
      ends =
          write-end (w.view s.kernel) s.file_size offset s.good_buf offset size p
            z.written.same_size

      start : base + align_rest offset c.page_size ≡ offset
      start = omega (arith, mod-le offset c.page_size)

      k2_size : (w.view k2).size ≡ s.file_size
      k2_size = rw (w.mmap_view s.kernel base len) z.sized

      stored : Same (w.view k4) (File.write (w.view s.kernel) offset s.good_buf offset size)
      stored = rw (w.msync_view k3) (
          rw (start, w.mmap_view s.kernel base len) at
            (w.map_store_view k2 base (align_rest offset c.page_size) s.good_buf offset size
              (omega (arith, start, k2_size, ends))))

      vt : Live k c w t
      vt = record {
        bounded = z.bounded;
        real = z.real;
        same = Same-trans stored (Same-sym z.written);
      }

  map_out-Live :
      (grown : Bool) (offset size : ℕ) (s : Fsx k.State)
      → 0 < size
      → offset + size ≤ c.maxfilelen
      → s.file_size ≤ c.maxfilelen
      → c.simulatedopcount < s.testcalls
      → Same (model s) (File.write (w.view s.kernel) offset s.good_buf offset size)
      → (grown ≡ false → (w.view s.kernel).size ≡ s.file_size)
      → Holds (Live k c w) (map_out k c grown offset size s)
  unfolding map_out
  map_out-Live grown offset size s p h b r e z =
      Holds-bind (Sized offset size) (Live k c w) _ _ (map_out-Sized grown offset size s b r e z)
        (map_in-Live offset size p h)

  -- On a correct file system and for options as set up, `domapwrite` of a range within `maxfilelen`
  -- ends without failure and keeps the invariant.
  pub domapwrite-Live :
      (off size : ℕ) (s : Fsx k.State)
      → off + size ≤ c.maxfilelen
      → Live k c w s
      → Holds (Live k c w) (domapwrite k c off size s)
  unfolding domapwrite
  domapwrite-Live off size s h v =
      Holds-if (Live k c w) (size == 0) _ _
        (λ _. log4-Live k c w u op_mapwrite offset size fl_skipped s v)
        (λ some_bytes.
          rw
            (
              not_lite_lem k c w u (ltb s.file_size (add32 offset size)),
              calls,
              real_lem k c w u s1 v1,
            )
            (map_out-Live (ltb s.file_size t.file_size) offset size t (ground (arith, some_bytes))
              inside (omega (arith, parts.2, v1.bounded, inside)) (omega (arith, parts.1, v1.real))
              (rw parts.0
                (put_data_lem k c w u offset size s1 (ground (arith, some_bytes)) inside v1))
              (λ same_size. rw parts.0 (
                omega (
                  tests,
                  same_size,
                  parts.2,
                  v1.same.same_size,
                  file_size-log4 op_mapwrite offset size fl_none s,
                )))))
    where
      offset : ℕ
      offset = off - off % c.writebdy

      s1 : Fsx k.State
      s1 = log4 op_mapwrite offset size fl_none s

      v1 : Live k c w s1
      v1 = log4-Live k c w u op_mapwrite offset size fl_none s v

      t : Fsx k.State
      t = put_data c offset size s1

      inside : offset + size ≤ c.maxfilelen
      inside = omega (arith, h)

      parts :
          (t.kernel ≡ s1.kernel)
          × (t.testcalls ≡ s1.testcalls)
          × (t.file_size ≡ max s1.file_size (offset + size))
      parts = put_data_parts k c w u offset size s1 inside v1

      calls : simulated k c t ≡ simulated k c s1
      calls = ap (λ n. leb n c.simulatedopcount) parts.1

  -- On a correct file system and for options as set up, `dotruncate` to at most `maxfilelen` ends
  -- without failure and keeps the invariant.
  pub dotruncate-Live :
      (len : ℕ) (s : Fsx k.State)
      → len ≤ c.maxfilelen
      → Live k c w s
      → Holds (Live k c w) (dotruncate k c len s)
  unfolding dotruncate resize_model log4 note_biggest
  dotruncate-Live len s h v =
      rw (real_lem k c w u s v, w.ftruncate_ok s.kernel size)
        (record { bounded = omega (arith, h); real = v.real; same = same })
    where
      size : ℕ
      size = len - len % c.truncbdy

      same : Same (w.view (k.ftruncate s.kernel size).1) (model (resize_model size s))
      same =
          Same-trans (w.ftruncate_view s.kernel size)
            (Same-trans (resize-Same size v.same) (Same-sym (resize_model_refines size s)))
