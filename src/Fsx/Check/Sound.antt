-- ===== src/Fsx/Check/Sound.antt =====
-- What the checks of fsx.c detect, on any kernel whatever.
use longan_chkout.Base.{
  ℕ, zero, suc, ◌+◌, ◌<◌, ◌≡◌, ◌≢◌, ◌⊎◌, inl, inr, refl, ◌∙◌, ap, true, false, Option, some, Buf,
  memcmp_eq, memcmp_eq_sound, ok, failed, arith, Bool-cases, ◌==◌, if◌then◌else◌, ==→eq, ==→ne,
}
use longan_chkout.Fsx.Kernel.{Kernel}
use longan_chkout.Fsx.State.{Config, Fsx}
use longan_chkout.Fsx.Check.{is_size, scan_bad, check_buffers, check_size}

-- How the scan of `check_buffers` ends: no difference and `badoff` as before, or `badoff` at the
-- last difference.
abbrev pub Scanned : Buf → Buf → ℕ → ℕ → ℕ → Option ℕ → Option ℕ → Type 0
Scanned good buf offset i size bad r =
    (((n : ℕ) → n < size → good (offset + n) ≡ buf (i + n)) × (r ≡ bad))
    ⊎ ((m : ℕ) × (m < size)
        × (r ≡ some (offset + m))
        × (good (offset + m) ≢ buf (i + m))
        × ((n : ℕ) → m < n → n < size → good (offset + n) ≡ buf (i + n)))

-- One more byte in front of a scan.
scan_step :
    (good buf : Buf) (offset i size : ℕ) (bad r : Option ℕ)
    → Scanned good buf
        (offset + 1)
        (i + 1)
        size
        (if good offset == buf i then bad else some offset)
        r
    → Scanned good buf offset i (suc size) bad r
scan_step good buf offset i size bad r (inr (m, l, e, ne, after)) =
    inr (suc m, omega arith, rw (sh offset m) e, rw (sh offset m, sh i m) ne, later)
  where
    sh : (x y : ℕ) → x + suc y ≡ x + 1 + y
    sh x y = omega arith

    later : (n : ℕ) → suc m < n → n < suc size → good (offset + n) ≡ buf (i + n)
    later zero a b = absurd (omega arith)
    later (suc n) a b = rw (sh offset n, sh i n) (after n (omega arith) (omega arith))
scan_step good buf offset i size bad r (inl (rest, e)) = elim (Bool-cases (good offset == buf i)) [
  | inl same ↦ inl (all same, e ∙ kept same)
  | inr differ ↦ inr (zero, omega arith, e ∙ marked differ, here differ, later)
]
  where
    z : (x : ℕ) → x + 0 ≡ x
    z x = omega arith

    sh : (x y : ℕ) → x + suc y ≡ x + 1 + y
    sh x y = omega arith

    kept : (good offset == buf i) ≡ true → (if good offset == buf i then bad else some offset) ≡ bad
    kept same = rw same

    marked :
        (good offset == buf i) ≡ false
        → (if good offset == buf i then bad else some offset) ≡ some (offset + 0)
    marked differ = rw (differ, z offset)

    here : (good offset == buf i) ≡ false → good (offset + 0) ≢ buf (i + 0)
    here differ = rw (z offset, z i) (==→ne _ _ differ)

    all : (good offset == buf i) ≡ true → (n : ℕ) → n < suc size → good (offset + n) ≡ buf (i + n)
    all same zero l = rw (z offset, z i) (==→eq _ _ same)
    all same (suc n) l = rw (sh offset n, sh i n) (rest n (omega arith))

    later : (n : ℕ) → 0 < n → n < suc size → good (offset + n) ≡ buf (i + n)
    later zero a b = absurd (omega arith)
    later (suc n) a b = rw (sh offset n, sh i n) (rest n (omega arith))

-- The scan of `check_buffers` leaves `badoff` alone if no byte differs, and otherwise sets it to
-- the offset of the last byte that differs.
pub scan_bad_lem :
    (good buf : Buf) (offset i size : ℕ) (bad : Option ℕ)
    → Scanned good buf offset i size bad (scan_bad good buf offset i size bad)
unfolding scan_bad
scan_bad_lem good buf offset i zero bad = inl (λ n l. absurd (omega arith), refl)
scan_bad_lem good buf offset i (suc size) bad = scan_step good buf offset i size bad _ (
    scan_bad_lem good buf (offset + 1) (i + 1) size
      (if good offset == buf i then bad else some offset))

module _ (k : Kernel) (c : Config) where
  -- On any kernel, `check_buffers` passes only buffers that agree with `good_buf` at every index
  -- below the size, and changes nothing then.
  pub check_buffers_sound :
      (buf : Buf) (offset size i : ℕ) (s t : Fsx k.State)
      → check_buffers k c buf offset size s ≡ ok t
      → i < size
      → (t ≡ s) × (s.good_buf (offset + i) ≡ buf i)
  unfolding check_buffers
  check_buffers_sound buf offset size i s t e l =
      elim (Bool-cases (memcmp_eq s.good_buf offset buf 0 size)) [
        | inl same ↦ (
          passed (rw same at e),
          memcmp_eq_sound s.good_buf offset buf 0 size i same l ∙ ap buf (z i),
        )
        | inr differ ↦ absurd (exits (rw differ at e))
      ]
    where
      z : (i : ℕ) → 0 + i ≡ i
      z i = omega arith

      passed : ok s ≡ ok t → t ≡ s
      passed q = cc

      exits :
          failed 110 (record s { badoff = scan_bad s.good_buf buf offset 0 size s.badoff }) ≡ ok t
          → ⊥
      exits q = cc

  -- On any kernel, `check_size` passes only if `fstat` and the seek to the end both give
  -- `file_size`.
  pub check_size_sound :
      (s t : Fsx k.State)
      → check_size k c s ≡ ok t
      → (k.fstat s.kernel ≡ some s.file_size) × ((k.seek_end s.kernel).0 ≡ some s.file_size)
  unfolding check_size is_size
  check_size_sound s t e = (ground (arith, e), ground (arith, e))
