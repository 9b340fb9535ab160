-- ===== src/Fsx/Live/Copy.antt =====
-- Copies keep the invariant on a correct file system.
use longan_chkout.Base.{
  ℕ, zero, suc, ◌+◌, ◌-◌, ◌≤◌, ◌<◌, ◌≡◌, refl, ap, ◌∙◌, false, arith, ltb, leb, ◌==◌, add32, Holds,
  Holds-if, Holds-bind, Holds-map, ◌||◌,
}
use longan_chkout.Fsx.File
use longan_chkout.Fsx.File.{File, Same, Same-trans, Same-sym}
use longan_chkout.Fsx.File.Congruence.{copy-Same, copy-copy}
use longan_chkout.Fsx.Kernel.{Kernel, IsCorrect, Apart}
use longan_chkout.Fsx.State.{Config, Fsx, op_copy_range, fl_none, fl_skipped, log5}
use longan_chkout.Fsx.State.Log.{file_size-log5}
use longan_chkout.Fsx.Model.{note_biggest, copy_model}
use longan_chkout.Fsx.Model.Refines.{model, copy_model_refines}
use longan_chkout.Fsx.Duplicate.{max_tries, copy_loop, do_copy_range}
use longan_chkout.Fsx.Live.{IsSetUp, Live}
use longan_chkout.Fsx.Live.Basics.{log5-Live, real_lem}
use longan_chkout.Fsx.Live.Range.{note_biggest-Live}

pub copy-none : (f : File) (o d : ℕ) → Same f (File.copy f o 0 d)
copy-none f o d = record { same_size = refl; same_byte = λ j l. ground arith }

copy-copy_at :
    (f : File) (o m n d o1 o2 : ℕ)
    → o1 ≡ o + m
    → o2 ≡ d + m
    → 0 < n
    → o + m + n ≤ f.size
    → Apart o (m + n) d
    → Same (File.copy (File.copy f o m d) o1 n o2) (File.copy f o (m + n) d)
copy-copy_at f o m n d o1 o2 e1 e2 p h a = rw (e1, e2) (copy-copy f o m n d p h a)

module _ (k : Kernel) (c : Config) (w : IsCorrect k c.page_size c.block_size c.maxfilelen)
    (u : IsSetUp c) where
  -- All is copied, and only the kernel has changed.
  pub record CopiedAll (f : File) (o n d : ℕ) (s t : Fsx k.State) : Type 0 where
    pub now : Same (w.view t.kernel) (File.copy f o n d)
    pub only : t ≡ record s { kernel = t.kernel }

  -- On a correct file system, with more fuel than bytes left, the loop of `do_copy_range` ends
  -- without failure from a state in which the first `m` bytes are copied and `n` are left, for
  -- ranges that are inside the file and apart, and has copied all `m + n` bytes then, with nothing
  -- changed but the kernel.
  pub copy_loop_lem :
      (fuel tries m n o d o1 o2 : ℕ) (f : File) (s : Fsx k.State)
      → n < fuel
      → o1 ≡ o + m
      → o2 ≡ d + m
      → o + (m + n) ≤ f.size
      → Apart o (m + n) d
      → Same (w.view s.kernel) (File.copy f o m d)
      → Holds (CopiedAll f o (m + n) d s) (copy_loop k c fuel tries o1 o2 n s)
  unfolding copy_loop
  copy_loop_lem zero tries m n o d o1 o2 f s l e1 e2 h a v = absurd (omega arith)
  copy_loop_lem (suc fuel) tries m zero o d o1 o2 f s l e1 e2 h a v = record {
    now = rw (none_left) v;
    only = refl;
  }
    where
      none_left : m + 0 ≡ m
      none_left = omega arith
  copy_loop_lem (suc fuel) tries m (suc n) o d o1 o2 f s l e1 e2 h a v =
      rw (more, w.copy_ok s.kernel o1 o2 (suc n) (omega arith) inside apart)
        (rw fits (
          Holds-map (CopiedAll f o ((m + cnt) + (suc n - cnt)) d t) (CopiedAll f o (m + suc n) d s)
            _
            (copy_loop_lem fuel tries (m + cnt) (suc n - cnt) o d (o1 + cnt) (o2 + cnt) f t
              (omega (arith, some_of)) (omega (arith, e1)) (omega (arith, e2)) (rw total h)
              (rw total a) copied)
            (λ x r. record { now = rw total at r.now; only = r.only })))
    where
      cnt : ℕ
      cnt = w.copied s.kernel o1 o2 (suc n)

      big : f.size ≤ (w.view s.kernel).size
      big = ground (arith, v.same_size)

      inside : o1 + suc n ≤ (w.view s.kernel).size
      inside = omega (arith, e1, h, big)

      apart : Apart o1 (suc n) o2
      apart = omega (arith, e1, e2, a)

      some_of : (0 < cnt) × (cnt ≤ suc n)
      some_of = w.copied_some s.kernel o1 o2 (suc n) (omega arith) inside apart

      fits : ltb (suc n) cnt ≡ false
      fits = ground (arith, some_of)

      t : Fsx k.State
      t = record s { kernel = (k.copy_file_range s.kernel o1 o2 (suc n)).1 }

      total : (m + cnt) + (suc n - cnt) ≡ m + suc n
      total = omega (arith, some_of)

      apart_so_far : Apart o (m + cnt) d
      apart_so_far = omega (arith, some_of, a)

      adjoin : Same (File.copy (File.copy f o m d) o1 cnt o2) (File.copy f o (m + cnt) d)
      adjoin =
          copy-copy_at f o m cnt d o1 o2 e1 e2 some_of.0 (omega (arith, some_of, h)) apart_so_far

      copied : Same (w.view t.kernel) (File.copy f o (m + cnt) d)
      copied =
          Same-trans (w.copy_view s.kernel o1 o2 (suc n) (omega arith) inside apart)
            (Same-trans (copy-Same o1 cnt o2 (omega (arith, inside, some_of)) v) adjoin)

      more : (suc n == 0) ≡ false
      more = ground arith

  file_size-note_biggest : (n : ℕ) (s : Fsx k.State) → (note_biggest n s).file_size ≡ s.file_size
  unfolding note_biggest
  file_size-note_biggest n s = refl

  copy_model-parts :
      (offset length dest : ℕ) (s : Fsx k.State)
      → dest + length ≤ c.maxfilelen
      → s.file_size ≤ c.maxfilelen
      → let t = copy_model offset length dest s in
        (t.file_size ≤ c.maxfilelen) × (t.testcalls ≡ s.testcalls) × (t.kernel ≡ s.kernel)
  unfolding copy_model
  copy_model-parts offset length dest s h b = (ground (arith, u.small_file), refl, refl)

  copied-Live :
      (offset length dest : ℕ) (s t : Fsx k.State)
      → 0 < length
      → offset + length ≤ s.file_size
      → dest + length ≤ c.maxfilelen
      → Live k c w s
      → CopiedAll (w.view s.kernel) offset length dest s t
      → Live k c w (copy_model offset length dest t)
  copied-Live offset length dest s t p h hd v r = record {
    bounded = (copy_model-parts offset length dest t hd (omega (arith, size, v.bounded))).0;
    real =
        rw (copy_model-parts offset length dest t hd (omega (arith, size, v.bounded))).1
          (omega (arith, calls, v.real));
    same =
        rw (copy_model-parts offset length dest t hd (omega (arith, size, v.bounded))).2 as_model;
  }
    where
      size : t.file_size ≡ s.file_size
      size = ap (λ (x : Fsx k.State). x.file_size) r.only

      calls : t.testcalls ≡ s.testcalls
      calls = ap (λ (x : Fsx k.State). x.testcalls) r.only

      good : t.good_buf ≡ s.good_buf
      good = ap (λ (x : Fsx k.State). x.good_buf) r.only

      source : Same (w.view s.kernel) (model t)
      source = rw (size, good) v.same

      as_model : Same (w.view t.kernel) (model (copy_model offset length dest t))
      as_model = Same-trans r.now (
          Same-trans (copy-Same offset length dest (omega (arith, h, v.same.same_size)) source) (
            Same-sym (copy_model_refines offset length dest t p (omega (arith, hd, u.small_file)))))

  pub do_copy_range-Live :
      (offset length dest : ℕ) (s : Fsx k.State)
      → offset + length ≤ s.file_size
      → dest + length ≤ c.maxfilelen
      → Apart offset length dest
      → Live k c w s
      → Holds (Live k c w) (do_copy_range k c offset length dest s)
  unfolding do_copy_range
  do_copy_range-Live offset length dest s h hd apart v =
      Holds-if (Live k c w) (length == 0 || leb s.file_size offset) _ _
        (λ _. log5-Live k c w u op_copy_range offset length dest fl_skipped s v)
        (λ go. rw (real_lem k c w u s1 v1) (
          Holds-bind (CopiedAll f offset (0 + length) dest s1) (Live k c w)
            (copy_loop k c (length + max_tries + 2) 0 offset dest length s1) _
            (copy_loop_lem (length + max_tries + 2) 0 0 length offset dest offset dest f s1
              (omega arith) (omega arith) (omega arith) inside (omega (arith, apart))
              (copy-none f offset dest))
            (λ t r.
              copied-Live offset length dest s1 t (ground (arith, go))
                (omega (arith, h, file_size-s1)) hd v1 (rw from_none at r))))
    where
      s1 : Fsx k.State
      s1 = log5 op_copy_range offset length dest fl_none (note_biggest (add32 dest length) s)

      v1 : Live k c w s1
      v1 =
          log5-Live k c w u op_copy_range offset length dest fl_none
            (note_biggest (add32 dest length) s) (note_biggest-Live k c w u (add32 dest length) s v)

      f : File
      f = w.view s1.kernel

      file_size-s1 : s1.file_size ≡ s.file_size
      file_size-s1 =
          file_size-log5 op_copy_range offset length dest fl_none
            (note_biggest (add32 dest length) s)
          ∙ file_size-note_biggest (add32 dest length) s

      inside : offset + (0 + length) ≤ f.size
      inside = omega (arith, h, file_size-s1, v1.same.same_size)

      from_none : 0 + length ≡ length
      from_none = omega arith
