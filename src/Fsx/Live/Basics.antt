-- ===== src/Fsx/Live/Basics.antt =====
-- What the proofs about single operations share.
use native.Mathlib.Nat.{mod-le, mod-lt}
use longan_chkout.Base.{
  ℕ, zero, suc, ◌+◌, ◌-◌, ◌^◌, ◌%◌, ◌≤◌, ◌<◌, ◌≡◌, refl, Bool, true, false, Buf, some, arith, leb,
  u32, add32, memcmp_eq_complete, ok, Bool-cases, inl, inr, ==-refl, tests, align_down, align_rest,
  sub32,
}
use longan_chkout.Fsx.Kernel.{Kernel, IsCorrect}
use longan_chkout.Fsx.State.{Config, Fsx, Op, OpFlags, log4, log5}
use longan_chkout.Fsx.Check.{is_whole, all_zero, check_buffers, check_eofpage}
use longan_chkout.Fsx.Transfer.{simulated, trim_direct}
use longan_chkout.Fsx.Live.{IsSetUp, Live, Live-same}
use longan_chkout.Fsx.Live.Page.{align_down-mod, last_page_lem}

pub is_whole_lem : (n : ℕ) → n < 2 ^ 32 → is_whole (some n) n ≡ true
unfolding is_whole
is_whole_lem n h = rw (small) (==-refl n)
  where
    small : u32 n ≡ n
    small = omega arith

pub trim_direct-le : (o : Bool) (bdy len : ℕ) → trim_direct o bdy len ≤ len
unfolding trim_direct
trim_direct-le o bdy len = ground arith

-- The rest of the last page of a mapping is zero.
pub all_zero_lem :
    (map : Buf) (i n : ℕ) → ((j : ℕ) → i ≤ j → j < i + n → map j ≡ 0) → all_zero map i n ≡ true
unfolding all_zero
all_zero_lem map i zero h = refl
all_zero_lem map i (suc n) h = ground (
  arith,
  h i (omega arith) (omega arith),
  all_zero_lem map (i + 1) n (λ j a b. h j (omega arith) (omega arith)),
)

-- The file offset that a range is mapped from.
pub base_lem :
    (p offset : ℕ) → offset < 2 ^ 31 → sub32 offset (align_rest offset p) ≡ align_down offset p
base_lem p offset h = omega (arith, mod-le offset p)

module _ (k : Kernel) (c : Config) (w : IsCorrect k c.page_size c.block_size c.maxfilelen)
    (u : IsSetUp c) where
  -- Equal buffers pass `check_buffers`, which changes nothing.
  pub check_buffers_pass :
      (buf : Buf) (offset size : ℕ) (s : Fsx k.State)
      → ((i : ℕ) → i < size → s.good_buf (offset + i) ≡ buf i)
      → check_buffers k c buf offset size s ≡ ok s
  unfolding check_buffers
  check_buffers_pass buf offset size s h =
      rw (memcmp_eq_complete s.good_buf offset buf 0 size (λ i l. rw (z i) (h i l)))
    where
      z : (i : ℕ) → 0 + i ≡ i
      z i = omega arith

  pub log4-Live :
      (op : Op) (a b : ℕ) (f : OpFlags) (s : Fsx k.State)
      → Live k c w s
      → Live k c w (log4 op a b f s)
  unfolding log4
  log4-Live op a b f s v = Live-same k c w s _ refl refl refl refl v

  pub log5-Live :
      (op : Op) (a b d : ℕ) (f : OpFlags) (s : Fsx k.State)
      → Live k c w s
      → Live k c w (log5 op a b d f s)
  unfolding log5
  log5-Live op a b d f s v = Live-same k c w s _ refl refl refl refl v

  pub real_lem : (s : Fsx k.State) → Live k c w s → simulated k c s ≡ false
  unfolding simulated
  real_lem s v = ground (arith, v.real)

  -- On a correct file system and for options as set up, `check_eofpage` of a range inside the file
  -- passes in a state of the invariant and changes nothing, if the range is mapped from its first
  -- page on.
  pub check_eofpage_pass :
      (offset size : ℕ) (s : Fsx k.State)
      → Live k c w s
      → offset + size ≤ s.file_size
      → check_eofpage k c offset (align_down offset c.page_size) size s ≡ ok s
  unfolding check_eofpage
  check_eofpage_pass offset size s v h =
      elim (Bool-cases (leb (add32 offset size) (align_down s.file_size c.page_size))) [
        | inl early ↦ rw early
        | inr late ↦ rw (
          late,
          all_zero_lem (k.map_byte s.kernel (align_down offset c.page_size)) _ _ (zeros late),
        )
      ]
    where
      sizes : (w.view s.kernel).size ≡ s.file_size
      sizes = v.same.same_size

      partial :
          leb (add32 offset size) (align_down s.file_size c.page_size) ≡ false
          → 0 < s.file_size % c.page_size
      partial late = omega (tests, late, h, v.bounded, u.small_file)

      page :
          leb (add32 offset size) (align_down s.file_size c.page_size) ≡ false
          → align_down offset c.page_size
              + align_down (align_rest offset c.page_size + size) c.page_size
            ≡ align_down s.file_size c.page_size
      page late =
          last_page_lem c.page_size offset size s.file_size u.page_pos h
            (omega (tests, late, v.bounded, u.small_file))

      zeros :
          leb (add32 offset size) (align_down s.file_size c.page_size) ≡ false
          → (j : ℕ)
          → align_down (align_rest offset c.page_size + size) c.page_size
              + align_rest s.file_size c.page_size
            ≤ j
          → j
            < align_down (align_rest offset c.page_size + size) c.page_size
              + align_rest s.file_size c.page_size
              + (c.page_size - align_rest s.file_size c.page_size)
          → k.map_byte s.kernel (align_down offset c.page_size) j ≡ 0
      zeros late j a b =
          w.map_byte_past s.kernel (align_down offset c.page_size) j
            (align_down-mod offset c.page_size)
            (omega (arith, page late, v.same.same_size, mod-le s.file_size c.page_size))
            (rw sizes (partial late))
            (rw sizes (
              omega
                (arith, page late, mod-le s.file_size c.page_size, mod-lt s.file_size u.page_pos)))
