-- ===== src/Fsx/Live/Step.antt =====
-- A correct file system passes a whole run of fsx.
use native.Mathlib.Nat.{mod-le, mod-eq_of_lt, mod-eq-sub-mod}
use longan_chkout.Base.{
  ℕ, ◌+◌, ◌-◌, ◌%◌, ◌^◌, ◌≤◌, ◌<◌, ◌≡◌, refl, subst, ◌∙◌, true, arith, ltb, ◌==◌, if◌then◌else◌,
  u32, sub32, align_down, ok, Holds, Holds-if, Holds-bind, ◌&&◌, not, inl, inr, Bool-cases, ltb→lt,
  ltb→le, tests,
}
use longan_chkout.Fsx.Kernel.{Kernel, IsCorrect}
use longan_chkout.Fsx.State.{Config, Fsx, log4}
use longan_chkout.Fsx.Check.{
  is_size, check_size, check_contents, check_whole, eof_map_offset, check_eofpage,
}
use longan_chkout.Fsx.Transfer.{simulated}
use longan_chkout.Fsx.Step.{docloseopen, dofsync, after_op, finish}
use longan_chkout.Fsx.Live.{IsSetUp, Live, Live-same}
use longan_chkout.Fsx.Live.Page.{align_down-mod}
use longan_chkout.Fsx.Live.Basics.{is_whole_lem, check_buffers_pass, check_eofpage_pass, real_lem}

-- For a page of at least one byte and a size from 1 to 2 ^ 31 - 1, the last page that
-- `check_contents` maps starts below the size and at a page boundary.
pub eof_map_offset_lem :
    (page size : ℕ)
    → 0 < page
    → 0 < size
    → size < 2 ^ 31
    → let o = eof_map_offset page size in (o < size) × (o % page ≡ 0)
unfolding eof_map_offset
eof_map_offset_lem page size q p h = elim (Bool-cases (align_down size page == size)) [
  | inl whole ↦ rw whole (whole_pages (ground (arith, whole)))
  | inr part ↦ rw part (ground (arith, part), align_down-mod size page)
]
  where
    down : size - size % page ≡ size → page ≤ size → sub32 (align_down size page) page ≡ size - page
    down e l = omega (arith, e, l, h)

    whole_pages :
        size - size % page ≡ size
        → (sub32 (align_down size page) page < size)
          × (sub32 (align_down size page) page % page ≡ 0)
    whole_pages e = elim (Bool-cases (ltb size page)) [
      | inl short ↦
          absurd
            (omega (tests, short, e, mod-eq_of_lt {n = size} {m = page} (ltb→lt size page short)))
      | inr long ↦ rw (down e (ltb→le size page long)) (
        omega (tests, long),
        omega (tests, e, mod-eq-sub-mod {n = size} {m = page} (ltb→le size page long)),
      )
    ]

module _ (k : Kernel) (c : Config) (w : IsCorrect k c.page_size c.block_size c.maxfilelen)
    (u : IsSetUp c) where
  pub check_size-Live : (s : Fsx k.State) → Live k c w s → Holds (Live k c w) (check_size k c s)
  unfolding check_size is_size
  check_size-Live s v =
      rw (w.fstat_ok s.kernel, w.seek_end_ok s.kernel, agree)
        (Live-same k c w s _ refl refl refl (w.seek_end_view s.kernel) v)
    where
      agree : (s.file_size == (w.view s.kernel).size) ≡ true
      agree = ground (arith, v.same.same_size)

  pub docloseopen-Live : (s : Fsx k.State) → Live k c w s → Holds (Live k c w) (docloseopen k c s)
  unfolding docloseopen
  docloseopen-Live s v =
      rw (real_lem k c w u s v, w.close_ok s.kernel, w.open_ok (k.close_fd s.kernel).1)
        (Live-same k c w s _ refl refl refl
          (w.open_view (k.close_fd s.kernel).1 ∙ w.close_view s.kernel) v)

  pub dofsync-Live : (s : Fsx k.State) → Live k c w s → Holds (Live k c w) (dofsync k c s)
  unfolding dofsync log4
  dofsync-Live s v =
      rw (real_lem k c w u s v, w.fsync_ok s.kernel, w.mark_ok k1, w.dump_ok k2)
        (Live-same k c w s _ refl refl refl
          (w.dump_view k2 ∙ w.mark_view k1 ∙ w.fsync_view s.kernel) v)
    where
      k1 : k.State
      k1 = (k.fsync s.kernel).1

      k2 : k.State
      k2 = (k.dm_mark k1).1

  pub check_whole-Live :
      (size : ℕ) (s : Fsx k.State)
      → 0 < size
      → size ≤ s.file_size
      → Live k c w s
      → Holds (Live k c w) (check_whole k c size s)
  unfolding check_whole
  check_whole-Live size s p h v =
      rw
        (
          w.lseek_ok s.kernel 0,
          w.read_ok k1 size few inside,
          is_whole_lem size (omega (arith, v.bounded, u.small_file, h)),
        )
        (rw (check_buffers_pass k c w u (k.sys_read k1 size).1 0 size t2 equal) (
          rw (w.mmap_ok k2 o len (omega (arith, last, v.bounded, u.small_file, h)) last.1) (
            rw eof
              (rw (w.munmap_ok k3) (Live-same k c w t3 _ refl refl refl (w.munmap_view k3) v3)))))
    where
      k1 : k.State
      k1 = (k.lseek s.kernel 0).1

      k2 : k.State
      k2 = (k.sys_read k1 size).2

      t2 : Fsx k.State
      t2 = record s { kernel = k2 }

      few : size ≤ c.maxfilelen
      few = omega (arith, v.bounded, h)

      inside : w.pos k1 + size ≤ (w.view k1).size
      inside =
          rw (w.lseek_pos s.kernel 0, w.lseek_view s.kernel 0) (omega (arith, h, v.same.same_size))

      got : (i : ℕ) → i < size → (k.sys_read k1 size).1 i ≡ (w.view s.kernel).byte (0 + i)
      got i l =
          rw (w.lseek_pos s.kernel 0, w.lseek_view s.kernel 0) at
            (w.read_byte k1 size size i inside (w.read_ok k1 size few inside) l)

      equal : (i : ℕ) → i < size → s.good_buf (0 + i) ≡ (k.sys_read k1 size).1 i
      equal i l = ground (arith, got i l, v.same.same_byte (0 + i), v.same.same_size)

      o : ℕ
      o = eof_map_offset c.page_size size

      last : (o < size) × (o % c.page_size ≡ 0)
      last =
          eof_map_offset_lem c.page_size size u.page_pos p
            (omega (arith, v.bounded, u.small_file, h))

      len : ℕ
      len = sub32 size o

      k3 : k.State
      k3 = (k.mmap k2 o len).1

      t3 : Fsx k.State
      t3 = record s { kernel = k3 }

      v3 : Live k c w t3
      v3 =
          Live-same k c w s t3 refl refl refl
            (w.mmap_view k2 o len ∙ w.read_view k1 size ∙ w.lseek_view s.kernel 0) v

      base : align_down o c.page_size ≡ o
      base = omega (arith, last.1)

      eof : check_eofpage k c o o len t3 ≡ ok t3
      eof =
          subst (λ b. check_eofpage k c o b len t3 ≡ ok t3) base
            (check_eofpage_pass k c w u o len t3 v3
              (omega (arith, last, v.bounded, u.small_file, h)))

  -- On a correct file system and for options as set up, `check_contents` reports no failure in a
  -- state of the invariant, and keeps it.
  pub check_contents-Live :
      (s : Fsx k.State) → Live k c w s → Holds (Live k c w) (check_contents k c s)
  unfolding check_contents
  check_contents-Live s v =
      Holds-if (Live k c w) (size == 0) _ _ (λ _. v)
        (λ some_bytes.
          check_whole-Live size s (ground (arith, some_bytes))
            (ground (arith, mod-le all c.readbdy, mod-le s.file_size (2 ^ 32))) v)
    where
      all : ℕ
      all = u32 s.file_size

      size : ℕ
      size = if c.o_direct then all - all % c.readbdy else all

  pub after_op-Live : (s : Fsx k.State) → Live k c w s → Holds (Live k c w) (after_op k c s)
  unfolding after_op
  after_op-Live s v =
      Holds-if (Live k c w) (c.check_file && not (simulated k c s)) _ _
        (λ _. check_contents-Live s v) (λ _. v)

  pub finish-Live : (s : Fsx k.State) → Live k c w s → Holds (Live k c w) (finish k c s)
  unfolding finish
  finish-Live s v =
      Holds-bind (Live k c w) (Live k c w) _ _
        (Holds-if (Live k c w) (c.sizechecks && not (simulated k c s)) (check_size k c s) (ok s)
          (λ _. check_size-Live s v) (λ _. v))
        (λ t vt. Holds-if (Live k c w) t.closeopen _ _ (λ _. docloseopen-Live t vt) (λ _. vt))
