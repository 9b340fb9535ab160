-- ===== src/Fsx/Live/Duplicate.antt =====
-- Clones, deduplications and copies keep the invariant on a correct file system.
use longan_chkout.Base.{ℕ, ◌+◌, ◌%◌, ◌≤◌, ◌≡◌, true, false, arith, leb, ◌==◌, Holds, Holds-if, ◌||◌}
use longan_chkout.Fsx.File.{Same-trans, Same-sym}
use longan_chkout.Fsx.File.Congruence.{copy-Same}
use longan_chkout.Fsx.Kernel.{Kernel, IsCorrect, Apart}
use longan_chkout.Fsx.State.{Config, Fsx, op_clone_range, op_dedupe_range, fl_skipped, log5}
use longan_chkout.Fsx.Model.{note_biggest, copy_model}
use longan_chkout.Fsx.Model.Refines.{copy_model_refines}
use longan_chkout.Fsx.Duplicate.{do_clone_range, do_dedupe_range}
use longan_chkout.Fsx.Live.{IsSetUp, Live}
use longan_chkout.Fsx.Live.Basics.{log5-Live, real_lem}

module _ (k : Kernel) (c : Config) (w : IsCorrect k c.page_size c.block_size c.maxfilelen)
    (u : IsSetUp c) where
  pub do_clone_range-Live :
      (offset length dest : ℕ) (s : Fsx k.State)
      → offset + length ≤ s.file_size
      → dest + length ≤ c.maxfilelen
      → offset % c.block_size ≡ 0
      → length % c.block_size ≡ 0
      → dest % c.block_size ≡ 0
      → Apart offset length dest
      → Live k c w s
      → Holds (Live k c w) (do_clone_range k c offset length dest s)
  unfolding do_clone_range copy_model log5 note_biggest
  do_clone_range-Live offset length dest s h hd ao al ad apart v =
      Holds-if (Live k c w) (length == 0 || leb s.file_size offset) _ _
        (λ _. log5-Live k c w u op_clone_range offset length dest fl_skipped s v)
        (λ go.
          rw (real_lem k c w u s v, accepted go)
            (record {
              bounded = ground (arith, v.bounded, hd, u.small_file);
              real = v.real;
              same = Same-trans (w.clone_view s.kernel offset length dest (accepted go)) (
                  Same-trans
                    (copy-Same offset length dest (omega (arith, h, v.same.same_size)) v.same)
                    (Same-sym (
                      copy_model_refines offset length dest s (ground (arith, go))
                        (omega (arith, hd, u.small_file)))));
            }))
    where
      accepted :
          (length == 0 || leb s.file_size offset) ≡ false
          → (k.clone s.kernel offset length dest).0 ≡ true
      accepted go =
          w.clone_ok s.kernel offset length dest (ground (arith, go)) ao al ad
            (omega (arith, h, v.same.same_size)) apart

  pub do_dedupe_range-Live :
      (offset length dest : ℕ) (s : Fsx k.State)
      → offset + length ≤ s.file_size
      → dest + length ≤ s.file_size
      → offset % c.block_size ≡ 0
      → length % c.block_size ≡ 0
      → dest % c.block_size ≡ 0
      → Apart offset length dest
      → Live k c w s
      → Holds (Live k c w) (do_dedupe_range k c offset length dest s)
  unfolding do_dedupe_range log5
  do_dedupe_range-Live offset length dest s h hd ao al ad apart v =
      Holds-if (Live k c w) (length == 0 || leb s.file_size offset) _ _
        (λ _. log5-Live k c w u op_dedupe_range offset length dest fl_skipped s v)
        (λ go.
          rw
            (
              real_lem k c w u s v,
              w.dedupe_ok s.kernel offset length dest (ground (arith, go)) ao al ad
                  (omega (arith, h, v.same.same_size)) (omega (arith, hd, v.same.same_size)) apart,
            )
            (record {
              bounded = v.bounded;
              real = v.real;
              same = Same-trans (w.dedupe_view s.kernel offset length dest) v.same;
            }))
