-- ===== src/Fsx/Boot/Image.antt =====
-- The picture of the file at the start of a run.
use longan_chkout.Base.{
  ℕ, zero, suc, ◌+◌, ◌-◌, ◌≤◌, ◌<◌, ◌≡◌, ap, ◌∙◌, false, arith, some, ◌==◌, Holds, Holds-bind,
  Holds-map, memcpy,
}
use longan_chkout.Fsx.File.{File, Same}
use longan_chkout.Fsx.Kernel.{Kernel, IsCorrect}
use longan_chkout.Fsx.State.{Fsx}
use longan_chkout.Fsx.Model.Refines.{model}
use longan_chkout.Fsx.SetUp.{Lacks}
use longan_chkout.Fsx.SetUp.Probes.{Restored, check_trunc_hack-Restored}
use longan_chkout.Fsx.Boot.{store_read, read_loop, boot_file}

module _ (k : Kernel) (page_size block most : ℕ) (w : IsCorrect k page_size block most)
    (l : Lacks k.State) where
  -- The kernel holds the expected file.
  pub record Pictured (s : Fsx k.State) : Type 0 where
    pub same : Same (w.view s.kernel) (model s)

  -- Where the reading loop stands: the first `off` bytes are read, the file position is behind
  -- them, and `len` bytes are left.
  record IsReadTo (off len : ℕ) (s : Fsx k.State) : Type 0 where
    at : w.pos s.kernel ≡ off
    whole : (w.view s.kernel).size ≡ off + len
    sized : s.file_size ≡ off + len
    got : (j : ℕ) → j < off → (w.view s.kernel).byte j ≡ s.good_buf j

  -- What one `read` of the loop, of whatever count, leaves.
  read_on : ℕ → ℕ → ℕ → Fsx k.State → Fsx k.State
  read_on off len m s = record s {
    kernel = (k.sys_read s.kernel len).2;
    good_buf = memcpy s.good_buf off (k.sys_read s.kernel len).1 0 m;
  }

  read_on-IsReadTo :
      (off len m : ℕ) (s : Fsx k.State)
      → (k.sys_read s.kernel len).0 ≡ some m
      → m ≤ len
      → IsReadTo off len s
      → IsReadTo (off + m) (len - m) (read_on off len m s)
  unfolding read_on
  read_on-IsReadTo off len m s e l r = record {
    at = w.read_pos s.kernel len m e ∙ ap (λ x. x + m) r.at;
    whole = ap (λ (g : File). g.size) (w.read_view s.kernel len) ∙ r.whole ∙ split;
    sized = r.sized ∙ split;
    got = λ j i.
        ap (λ (g : File). g.byte j) (w.read_view s.kernel len)
        ∙ ground (arith, r.got j, i, fresh j);
  }
    where
      split : off + len ≡ (off + m) + (len - m)
      split = omega (arith, l)

      inside : w.pos s.kernel + len ≤ (w.view s.kernel).size
      inside = omega (arith, r.at, r.whole)

      fresh :
          (j : ℕ)
          → off ≤ j
          → j < off + m
          → (k.sys_read s.kernel len).1 (0 + (j - off)) ≡ (w.view s.kernel).byte j
      fresh j a b =
          w.read_byte s.kernel len m (0 + (j - off)) inside e (omega arith)
          ∙ ap (w.view s.kernel).byte (omega (arith, r.at))

  -- With more fuel than bytes left, the loop ends, whatever counts the reads give.
  read_loop-Pictured :
      (fuel off len : ℕ) (s : Fsx k.State)
      → len < fuel
      → IsReadTo off len s
      → Holds Pictured (read_loop k l fuel len off s)
  unfolding read_loop store_read read_on
  read_loop-Pictured zero off len s h r = absurd (omega arith)
  read_loop-Pictured (suc fuel) off zero s h r = record {
    same = record {
      same_size = omega (arith, r.whole, r.sized);
      same_byte = λ j i. r.got j (omega (arith, r.whole, i));
    };
  }
  read_loop-Pictured (suc fuel) off (suc len) s h r =
      rw (more, some_of.0)
        (read_loop-Pictured fuel (off + m) (suc len - m) (read_on off (suc len) m s)
          (omega (arith, some_of.1)) (read_on-IsReadTo off (suc len) m s some_of.0 some_of.2 r))
    where
      m : ℕ
      m = w.count s.kernel (suc len)

      more : (suc len == 0) ≡ false
      more = ground arith

      some_of : ((k.sys_read s.kernel (suc len)).0 ≡ some m) × (0 < m) × (m ≤ suc len)
      some_of = w.read_some s.kernel (suc len) (omega arith) (omega (arith, r.at, r.whole))

  -- On a correct file system, with the file position at 0 and `file_size` the size of the file, the
  -- reading of the existing file, however many bytes each read gives, and the test of `ftruncate`
  -- behind it end without failure, and the kernel holds the expected file then.
  pub boot_file-Pictured :
      (s : Fsx k.State)
      → w.pos s.kernel ≡ 0
      → (w.view s.kernel).size ≡ s.file_size
      → Holds Pictured (boot_file k l s)
  unfolding boot_file
  boot_file-Pictured s p v =
      Holds-bind Pictured Pictured _ _
        (read_loop-Pictured (s.file_size + 1) 0 s.file_size s (omega arith) (record {
          at = p;
          whole = omega (arith, v);
          sized = omega arith;
          got = λ j i. absurd (omega arith);
        }))
        (λ t q.
          Holds-map (Restored k page_size block most w l t) Pictured _
            (check_trunc_hack-Restored k page_size block most w l t q.same)
            (λ r u. record { same = u.same }))
