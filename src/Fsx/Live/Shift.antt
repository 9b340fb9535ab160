-- ===== src/Fsx/Live/Shift.antt =====
-- `test` keeps the invariant where it collapses or inserts a range.
use longan_chkout.Base.{
  ℕ, ◌+◌, ◌^◌, ◌≤◌, ◌<◌, ◌≡◌, Bool, arith, ltb, ◌==◌, u32, add64, align_down, Holds, Holds-if,
  Holds-bind, ◌||◌,
}
use longan_chkout.Fsx.Kernel.{Kernel, IsCorrect}
use longan_chkout.Fsx.State.{op_collapse_range, op_insert_range, Config, Fsx, fl_skipped}
use longan_chkout.Fsx.Choose.{trim_off, trim_len}
use longan_chkout.Fsx.Choose.Fit.{trim_off-le_size, trim_off-le, trim_len-inside, trim_len-le}
use longan_chkout.Fsx.Step.{perform, last_of}
use longan_chkout.Fsx.Live.{IsSetUp, Live}
use longan_chkout.Fsx.Live.Page.{align_down-mod}
use longan_chkout.Fsx.Live.Basics.{log4-Live}
use longan_chkout.Fsx.Live.Range.{do_collapse_range-Live, do_insert_range-Live}
use longan_chkout.Fsx.Live.Step.{after_op-Live}

-- Arguments that fit an `unsigned`.
pub u32-id : (n : ℕ) → n < 2 ^ 32 → u32 n ≡ n
u32-id n h = omega arith

pub last_of-lt : (n : ℕ) → last_of n < 2 ^ 64
unfolding last_of
last_of-lt n = omega arith

module _ (k : Kernel) (c : Config) (w : IsCorrect k c.page_size c.block_size c.maxfilelen)
    (u : IsSetUp c) where
  -- The range that an operation gets, for a limit of at most `maxfilelen`.
  pub trimmed :
      (off len size : ℕ)
      → size ≤ c.maxfilelen
      → len < 2 ^ 31
      → let o = trim_off off size in (u32 o + u32 (trim_len o len size) ≤ size)
  trimmed off len size h l = omega (
    arith,
    trim_len-inside (trim_off off size) len size (trim_off-le_size off size)
        (omega (arith, h, u.small_file)) l,
  )

  pub perform_collapse :
      (off len off2 : ℕ) (keep : Bool) (s : Fsx k.State)
      → off < 2 ^ 31
      → len < 2 ^ 31
      → Live k c w s
      → Holds (Live k c w) (perform k c op_collapse_range off len off2 keep s)
  unfolding perform
  perform_collapse off len off2 keep s ho hl v =
      Holds-if (Live k c w) (size == 0) _ _
        (λ _. log4-Live k c w u op_collapse_range offset size fl_skipped s v)
        (λ _.
          rw (u32-id offset (omega (arith, small)), u32-id size (omega (arith, small)))
            (Holds-bind (Live k c w) (Live k c w) _ _
              (do_collapse_range-Live k c w u offset size s (omega (arith, small))
                (align_down-mod start c.block_size)
                (align_down-mod (trim_len start len last) c.block_size) v)
              (after_op-Live k c w u)))
    where
      last : ℕ
      last = last_of s.file_size

      start : ℕ
      start = trim_off off last

      offset : ℕ
      offset = align_down start c.block_size

      size : ℕ
      size = align_down (trim_len start len last) c.block_size

      small : (offset < 2 ^ 31) × (size < 2 ^ 31)
      small = (
        omega (arith, trim_off-le off last, ho),
        omega (
          arith,
          trim_off-le off last,
          ho,
          hl,
          trim_len-le start len last (trim_off-le_size off last) (last_of-lt s.file_size)
              (omega (arith, trim_off-le off last, ho)) hl,
        ),
      )

  pub perform_insert :
      (off len off2 : ℕ) (keep : Bool) (s : Fsx k.State)
      → off < 2 ^ 31
      → len < 2 ^ 31
      → Live k c w s
      → Holds (Live k c w) (perform k c op_insert_range off len off2 keep s)
  unfolding perform
  perform_insert off len off2 keep s ho hl v =
      Holds-if (Live k c w) (size == 0 || ltb c.maxfilelen (add64 s.file_size size)) _ _
        (λ _. log4-Live k c w u op_insert_range offset size fl_skipped s v)
        (λ _.
          rw
            (
              u32-id offset (omega (arith, trim_off-le off s.file_size, ho)),
              u32-id size (omega (arith, inside, u.small_file)),
            )
            (Holds-bind (Live k c w) (Live k c w) _ _
              (do_insert_range-Live k c w u offset size s (omega (arith, inside))
                (align_down-mod (trim_off off s.file_size) c.block_size)
                (align_down-mod (trim_len s.file_size len c.maxfilelen) c.block_size) v)
              (after_op-Live k c w u)))
    where
      offset : ℕ
      offset = align_down (trim_off off s.file_size) c.block_size

      size : ℕ
      size = align_down (trim_len s.file_size len c.maxfilelen) c.block_size

      inside : s.file_size + size ≤ c.maxfilelen
      inside = omega (arith, trim_len-inside s.file_size len c.maxfilelen v.bounded u.small_file hl)
