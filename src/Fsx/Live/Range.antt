-- ===== src/Fsx/Live/Range.antt =====
-- The calls of `fallocate` keep the invariant on a correct file system.
use longan_chkout.Base.{
  ℕ, ◌+◌, ◌%◌, ◌^◌, ◌≤◌, ◌<◌, max, ◌≡◌, refl, Bool, true, false, arith, leb, ◌==◌, add32, Holds,
  Holds-if, ◌||◌,
}
use longan_chkout.Fsx.File.{Same, Same-trans, Same-sym}
use longan_chkout.Fsx.File.Congruence.{
  allocate-Same, punch-Same, zero_range-Same, collapse-Same, insert-Same,
}
use longan_chkout.Fsx.Kernel.{
  Kernel, IsCorrect, FallocMode, plain, keep_size, collapsing, inserting,
}
use longan_chkout.Fsx.State.{
  Config, Fsx, op_punch_hole, op_zero_range, op_collapse_range, op_insert_range, op_fallocate,
  fl_skipped, fl_keep, fl_skipped_keep, log4,
}
use longan_chkout.Fsx.Model.{
  note_biggest, punch_model, zero_model, collapse_model, insert_model, prealloc_model,
}
use longan_chkout.Fsx.Model.Refines.{
  model, punch_model_refines, zero_model_refines, collapse_model_refines, insert_model_refines,
  prealloc_model_refines,
}
use longan_chkout.Fsx.Transfer.{simulated}
use longan_chkout.Fsx.Range.{
  falloc, do_punch_hole, do_zero_range, do_collapse_range, do_insert_range, do_preallocate,
}
use longan_chkout.Fsx.Live.{IsSetUp, Live, Live-same}
use longan_chkout.Fsx.Live.Basics.{log4-Live, real_lem}

module _ (k : Kernel) (c : Config) (w : IsCorrect k c.page_size c.block_size c.maxfilelen)
    (u : IsSetUp c) where
  pub note_biggest-Live : (n : ℕ) (s : Fsx k.State) → Live k c w s → Live k c w (note_biggest n s)
  unfolding note_biggest
  note_biggest-Live n s v = Live-same k c w s _ refl refl refl refl v

  pub do_punch_hole-Live :
      (offset length : ℕ) (s : Fsx k.State)
      → offset + length < 2 ^ 32
      → Live k c w s
      → Holds (Live k c w) (do_punch_hole k c offset length s)
  unfolding do_punch_hole falloc punch_model log4
  do_punch_hole-Live offset length s h v =
      Holds-if (Live k c w) (length == 0 || leb s.file_size offset) _ _
        (λ _. log4-Live k c w u op_punch_hole offset length fl_skipped s v)
        (λ go.
          rw (real_lem k c w u s v, w.punch_ok s.kernel offset length (ground (arith, go)))
            (record {
              bounded = v.bounded;
              real = v.real;
              same = Same-trans (w.punch_view s.kernel offset length (ground (arith, go))) (
                  Same-trans (punch-Same offset length v.same)
                    (Same-sym (punch_model_refines offset length s h)));
            }))

  -- Only for a range inside the file: see `zero_model_refines`.
  pub do_zero_range-Live :
      (offset length : ℕ) (keep : Bool) (s : Fsx k.State)
      → offset + length ≤ s.file_size
      → Live k c w s
      → Holds (Live k c w) (do_zero_range k c offset length keep s)
  unfolding do_zero_range falloc zero_model log4 note_biggest
  do_zero_range-Live offset length keep s h v =
      Holds-if (Live k c w) (length == 0) _ _
        (λ _. log4-Live k c w u op_zero_range offset length (fl_skipped_keep keep) s v)
        (λ go.
          rw (real_lem k c w u s v, w.zero_ok s.kernel offset length (ground (arith, go)))
            (record {
              bounded = v.bounded;
              real = v.real;
              same = Same-trans (w.zero_view s.kernel offset length (ground (arith, go))) (
                  Same-trans (zero_range-Same offset length v.same)
                    (Same-sym (zero_model_refines offset length s h)));
            }))

  pub do_collapse_range-Live :
      (offset length : ℕ) (s : Fsx k.State)
      → offset + length < 2 ^ 32
      → offset % c.block_size ≡ 0
      → length % c.block_size ≡ 0
      → Live k c w s
      → Holds (Live k c w) (do_collapse_range k c offset length s)
  unfolding do_collapse_range falloc collapse_model log4
  do_collapse_range-Live offset length s h ao al v =
      Holds-if (Live k c w) (length == 0 || leb s.file_size (add32 offset length)) _ _
        (λ _. log4-Live k c w u op_collapse_range offset length fl_skipped s v)
        (λ go.
          rw (real_lem k c w u s v, accepted go)
            (record {
              bounded = omega (arith, v.bounded);
              real = v.real;
              same = Same-trans (w.collapse_view s.kernel offset length (accepted go)) (
                  Same-trans
                    (collapse-Same offset length (omega (arith, facts go, v.same.same_size)) v.same)
                    (Same-sym (
                      collapse_model_refines offset length s (facts go).1
                        (omega (arith, v.bounded, u.small_file)))));
            }))
    where
      facts :
          (length == 0 || leb s.file_size (add32 offset length)) ≡ false
          → (0 < length) × (offset + length < s.file_size)
      facts go = (ground (arith, go), ground (arith, go, h))

      accepted :
          (length == 0 || leb s.file_size (add32 offset length)) ≡ false
          → (k.fallocate s.kernel collapsing offset length).0 ≡ true
      accepted go =
          w.collapse_ok s.kernel offset length (facts go).0 ao al
            (omega (arith, facts go, v.same.same_size))

  pub do_insert_range-Live :
      (offset length : ℕ) (s : Fsx k.State)
      → s.file_size + length ≤ c.maxfilelen
      → offset % c.block_size ≡ 0
      → length % c.block_size ≡ 0
      → Live k c w s
      → Holds (Live k c w) (do_insert_range k c offset length s)
  unfolding do_insert_range falloc insert_model log4
  do_insert_range-Live offset length s h ao al v =
      Holds-if (Live k c w) (length == 0 || leb s.file_size offset) _ _
        (λ _. log4-Live k c w u op_insert_range offset length fl_skipped s v)
        (λ go.
          rw (real_lem k c w u s v, accepted go)
            (record {
              bounded = h;
              real = v.real;
              same = Same-trans (w.insert_view s.kernel offset length (accepted go)) (
                  Same-trans
                    (insert-Same offset length (omega (arith, facts go, v.same.same_size)) v.same)
                    (Same-sym (
                      insert_model_refines offset length s (facts go).1
                        (omega (arith, h, u.small_file)))));
            }))
    where
      facts :
          (length == 0 || leb s.file_size offset) ≡ false → (0 < length) × (offset < s.file_size)
      facts go = (ground (arith, go), ground (arith, go))

      accepted :
          (length == 0 || leb s.file_size offset) ≡ false
          → (k.fallocate s.kernel inserting offset length).0 ≡ true
      accepted go =
          w.insert_ok s.kernel offset length (facts go).0 ao al
            (omega (arith, facts go, v.same.same_size))

  -- With `FALLOC_FL_KEEP_SIZE` the model stays.
  prealloc_keeps : (s : Fsx k.State) → prealloc_model 0 s ≡ s
  unfolding prealloc_model
  prealloc_keeps s = ground arith

  prealloc_parts :
      (n : ℕ) (s : Fsx k.State)
      → let t = prealloc_model n s in
        (t.kernel ≡ s.kernel)
        × (simulated k c t ≡ simulated k c s)
        × (t.testcalls ≡ s.testcalls)
        × (t.file_size ≡ max s.file_size n)
  unfolding prealloc_model simulated
  prealloc_parts n s = (ground arith, ground arith, ground arith, ground arith)

  falloc-Live :
      (mode : FallocMode) (offset length : ℕ) (s : Fsx k.State)
      → (k.fallocate s.kernel mode offset length).0 ≡ true
      → Live k c w (record s { kernel = (k.fallocate s.kernel mode offset length).1 })
      → Holds (Live k c w) (falloc k c mode offset length s)
  unfolding falloc
  falloc-Live mode offset length s e v = rw e v

  pub do_preallocate-Live :
      (offset length : ℕ) (keep : Bool) (s : Fsx k.State)
      → offset + length ≤ c.maxfilelen
      → Live k c w s
      → Holds (Live k c w) (do_preallocate k c offset length keep s)
  unfolding do_preallocate
  do_preallocate-Live offset length true s h v =
      Holds-if (Live k c w) (length == 0) _ _
        (λ _. log4-Live k c w u op_fallocate offset length (fl_skipped_keep true) s v)
        (λ go.
          rw (prealloc_keeps s1, real_lem k c w u s1 v1)
            (falloc-Live keep_size offset length s1
              (w.keep_size_ok s1.kernel offset length (ground (arith, go)))
              (record {
                bounded = v1.bounded;
                real = v1.real;
                same =
                    Same-trans (w.keep_size_view s1.kernel offset length (ground (arith, go)))
                      v1.same;
              })))
    where
      s1 : Fsx k.State
      s1 = log4 op_fallocate offset length (fl_keep true) (note_biggest 0 s)

      v1 : Live k c w s1
      v1 =
          log4-Live k c w u op_fallocate offset length (fl_keep true) (note_biggest 0 s)
            (note_biggest-Live 0 s v)
  do_preallocate-Live offset length false s h v =
      Holds-if (Live k c w) (length == 0) _ _
        (λ _. log4-Live k c w u op_fallocate offset length (fl_skipped_keep false) s v)
        (λ go.
          rw (sum, parts.1, real_lem k c w u s1 v1)
            (falloc-Live plain offset length t
              (w.plain_ok t.kernel offset length (ground (arith, go)))
              (record {
                bounded = omega (arith, parts.3, h, v1.bounded);
                real = omega (arith, parts.2, v1.real);
                same = rw parts.0 (grown (ground (arith, go)));
              })))
    where
      n : ℕ
      n = offset + length

      sum : add32 offset length ≡ n
      sum = omega (arith, h, u.small_file)

      s1 : Fsx k.State
      s1 = log4 op_fallocate offset length (fl_keep false) (note_biggest n s)

      v1 : Live k c w s1
      v1 =
          log4-Live k c w u op_fallocate offset length (fl_keep false) (note_biggest n s)
            (note_biggest-Live n s v)

      t : Fsx k.State
      t = prealloc_model n s1

      parts :
          (t.kernel ≡ s1.kernel)
          × (simulated k c t ≡ simulated k c s1)
          × (t.testcalls ≡ s1.testcalls)
          × (t.file_size ≡ max s1.file_size n)
      parts = prealloc_parts n s1

      grown : 0 < length → Same (w.view (k.fallocate s1.kernel plain offset length).1) (model t)
      grown p = Same-trans (w.plain_view s1.kernel offset length p) (
          Same-trans (allocate-Same offset length v1.same)
            (Same-sym (prealloc_model_refines offset length s1 (omega (arith, h, u.small_file)))))
