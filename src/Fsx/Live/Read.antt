-- ===== src/Fsx/Live/Read.antt =====
-- Reads of a correct file system raise no alarm.
use native.Mathlib.Nat.{mod-le}
use longan_chkout.Base.{
  ℕ, ◌+◌, ◌-◌, ◌%◌, ◌^◌, ◌≤◌, ◌<◌, ◌≡◌, refl, ap, ◌∙◌, Buf, memcpy, arith, ltb, ◌==◌, add32, Holds,
  Bool-cases, inl, inr, ◌||◌, align_down, align_rest,
}
use longan_chkout.Fsx.Kernel.{Kernel, IsCorrect}
use longan_chkout.Fsx.State.{Config, Fsx, op_read, op_mapread, fl_none, fl_skipped, log4}
use longan_chkout.Fsx.State.Log.{file_size-log4}
use longan_chkout.Fsx.Check.{count_of}
use longan_chkout.Fsx.Transfer.{read_back, doread, trim_direct, map_back, domapread}
use longan_chkout.Fsx.Live.{IsSetUp, Live, Live-same}
use longan_chkout.Fsx.Live.Page.{align_down-mod}
use longan_chkout.Fsx.Live.Basics.{
  is_whole_lem, trim_direct-le, check_buffers_pass, log4-Live, real_lem, base_lem,
  check_eofpage_pass,
}

module _ (k : Kernel) (c : Config) (w : IsCorrect k c.page_size c.block_size c.maxfilelen)
    (u : IsSetUp c) where
  pub read_back-Live :
      (offset size : ℕ) (s : Fsx k.State)
      → Live k c w s
      → offset + size ≤ s.file_size
      → Holds (Live k c w) (read_back k c offset size s)
  unfolding read_back count_of
  read_back-Live offset size s v h = rw (w.lseek_ok s.kernel offset) (
      rw (w.read_ok sought size few inside) (
        rw (is_whole_lem size (omega (arith, v.bounded, u.small_file))) (
          rw (check_buffers_pass k c w u buf offset size t equal) (
            Live-same k c w s _ refl refl refl
              (w.read_view sought size ∙ w.lseek_view s.kernel offset) v))))
    where
      sought : k.State
      sought = (k.lseek s.kernel offset).1

      buf : Buf
      buf = memcpy s.temp_buf 0 (k.sys_read sought size).1 0 size

      t : Fsx k.State
      t = record s { kernel = (k.sys_read sought size).2; temp_buf = buf }

      few : size ≤ c.maxfilelen
      few = omega (arith, v.bounded, h)

      inside : w.pos sought + size ≤ (w.view sought).size
      inside =
          rw (w.lseek_pos s.kernel offset, w.lseek_view s.kernel offset)
            (omega (arith, v.same.same_size))

      got : (i : ℕ) → i < size → (k.sys_read sought size).1 i ≡ (w.view s.kernel).byte (offset + i)
      got i l =
          rw (w.lseek_pos s.kernel offset, w.lseek_view s.kernel offset) at
            (w.read_byte sought size size i inside (w.read_ok sought size few inside) l)

      equal :
          (i : ℕ)
          → i < size
          → s.good_buf (offset + i) ≡ memcpy s.temp_buf 0 (k.sys_read sought size).1 0 size i
      equal i l = ground (arith, got i l, v.same.same_byte (offset + i), v.same.same_size)

  -- On a correct file system and for options as set up, `doread` with offset and size below 2 ^ 31
  -- ends without failure and keeps the invariant.
  pub doread-Live :
      (off len : ℕ) (s : Fsx k.State)
      → off < 2 ^ 31
      → len < 2 ^ 31
      → Live k c w s
      → Holds (Live k c w) (doread k c off len s)
  unfolding doread
  doread-Live off len s ho hl v =
      elim (Bool-cases (size == 0 || ltb s.file_size (add32 size offset))) [
        | inl skip ↦ rw skip (log4-Live k c w u op_read offset size fl_skipped s v)
        | inr go ↦
            rw (go, real_lem k c w u s1 v1)
              (read_back-Live offset size s1 v1 (
                ground (
                  arith,
                  trim_direct-le c.o_direct c.readbdy len,
                  file_size-log4 op_read offset size fl_none s,
                  go,
                )))
      ]
    where
      offset : ℕ
      offset = off - off % c.readbdy

      size : ℕ
      size = trim_direct c.o_direct c.readbdy len

      s1 : Fsx k.State
      s1 = log4 op_read offset size fl_none s

      v1 : Live k c w s1
      v1 = log4-Live k c w u op_read offset size fl_none s v

  pub map_back-Live :
      (offset size : ℕ) (s : Fsx k.State)
      → 0 < size
      → Live k c w s
      → offset + size ≤ s.file_size
      → Holds (Live k c w) (map_back k c offset size s)
  unfolding map_back
  map_back-Live offset size s p v h =
      rw
        (
          base_lem c.page_size offset (omega (arith, v.bounded, u.small_file)),
          w.mmap_ok s.kernel base len some_bytes (align_down-mod offset c.page_size),
        )
        (rw (check_eofpage_pass k c w u offset size t vt h) (
          rw (w.munmap_ok k1) (
            rw
              (check_buffers_pass k c w u t.temp_buf offset size
                (record t { kernel = (k.munmap k1).1 }) equal)
              (Live-same k c w t _ refl refl refl (w.munmap_view k1) vt))))
    where
      base : ℕ
      base = align_down offset c.page_size

      len : ℕ
      len = add32 (align_rest offset c.page_size) size

      some_bytes : 0 < len
      some_bytes = omega (arith, v.bounded, u.small_file, mod-le offset c.page_size)

      k1 : k.State
      k1 = (k.mmap s.kernel base len).1

      t : Fsx k.State
      t = record s {
        kernel = k1;
        temp_buf = memcpy s.temp_buf 0 (k.map_byte k1 base) (align_rest offset c.page_size) size;
      }

      vt : Live k c w t
      vt = Live-same k c w s t refl refl refl (w.mmap_view s.kernel base len) v

      sum : (i : ℕ) → base + (align_rest offset c.page_size + i) ≡ offset + i
      sum i = omega (arith, mod-le offset c.page_size)

      equal : (i : ℕ) → i < size → s.good_buf (offset + i) ≡ t.temp_buf i
      equal i l = ground (
        arith,
        w.map_byte_in k1 base (align_rest offset c.page_size + i)
            (omega (arith, vt.same.same_size, mod-le offset c.page_size)),
        vt.same.same_byte (offset + i),
        vt.same.same_size,
        ap (w.view k1).byte (sum i),
      )

  -- On a correct file system and for options as set up, `domapread` with offset and size below 2 ^
  -- 31 ends without failure and keeps the invariant.
  pub domapread-Live :
      (off size : ℕ) (s : Fsx k.State)
      → off < 2 ^ 31
      → size < 2 ^ 31
      → Live k c w s
      → Holds (Live k c w) (domapread k c off size s)
  unfolding domapread
  domapread-Live off size s ho hl v =
      elim (Bool-cases (size == 0 || ltb s.file_size (add32 size offset))) [
        | inl skip ↦ rw skip (log4-Live k c w u op_mapread offset size fl_skipped s v)
        | inr go ↦
            rw (go, real_lem k c w u s1 v1)
              (map_back-Live offset size s1 (ground (arith, go)) v1
                (ground (arith, file_size-log4 op_mapread offset size fl_none s, go)))
      ]
    where
      offset : ℕ
      offset = off - off % c.readbdy

      s1 : Fsx k.State
      s1 = log4 op_mapread offset size fl_none s

      v1 : Live k c w s1
      v1 = log4-Live k c w u op_mapread offset size fl_none s v
