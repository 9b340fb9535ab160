-- ===== src/Fsx/Choose/Drawn.antt =====
-- What `test` draws fits the operation that it draws.
use native.Mathlib.Nat.{mod-lt}
use longan_chkout.Base.{
  ℕ, ◌+◌, ◌-◌, ◌%◌, ◌^◌, ◌≤◌, ◌<◌, ◌≡◌, Bool, false, arith, ◌==◌, ◌&&◌, not, if◌then◌else◌,
  align_down, inl, inr, ◌⊎◌,
}
use longan_chkout.Fsx.Kernel.{Apart}
use longan_chkout.Fsx.State.{
  Op, op_truncate, op_fallocate, op_zero_range, op_clone_range, op_dedupe_range, op_copy_range,
  Config,
}
use longan_chkout.Fsx.Choose.{
  trim_off, trim_len, draw_args, choose, pick_dest, pick_dedupe, dedupe_tries,
}
use longan_chkout.Fsx.Choose.Destination.{IsFree, pick_dest_sound, pick_dedupe_sound}
use longan_chkout.Fsx.Transfer.{trim_direct}
use longan_chkout.Fsx.Live.Page.{align_down-mod}
use longan_chkout.Fsx.Choose.Fit.{
  Drawn, trim_off-le_size, trim_off-le, trim_len-inside, trim_len-le, IsDrawable, IsFit, Fits,
  with_dest-Fits, Fits-if, FitsAll, with_close-FitsAll, trim_direct-le,
}

module _ (c : Config) (r : IsDrawable c) (file_size : ℕ) (fs : file_size ≤ c.maxfilelen) where
  -- The source range that clone, dedupe and copy trim to the file.
  source :
      (off len : ℕ)
      → off < 2 ^ 31
      → len ≤ c.maxoplen
      → let o = trim_off off file_size in o + trim_len o len file_size ≤ file_size
  source off len ho hl =
      trim_len-inside (trim_off off file_size) len file_size (trim_off-le_size off file_size)
        (omega (arith, fs, r.filelen_small)) (omega (arith, hl, r.oplen_small))

  plain :
      (op : Op) (off len off2 : ℕ) (keep : Bool)
      → off < 2 ^ 31
      → len ≤ c.maxoplen
      → Drawn c file_size op off len off2
      → IsFit c file_size
          (record { op = op; offset = off; size = len; offset2 = off2; keep = keep })
  plain op off len off2 keep ho hl d = record {
    small_offset = ho;
    small_size = omega (arith, hl, r.oplen_small);
    drawn = d;
  }

  cut :
      (off len : ℕ)
      → off < 2 ^ 31
      → len ≤ c.maxoplen
      → trim_len (trim_off off file_size) len file_size ≤ len
  cut off len ho hl =
      trim_len-le (trim_off off file_size) len file_size (trim_off-le_size off file_size)
        (omega (arith, fs, r.filelen_small)) (omega (arith, trim_off-le off file_size, ho))
        (omega (arith, hl, r.oplen_small))

  draw_clone-Fits :
      (fuel off len d : ℕ)
      → off < 2 ^ 31
      → len ≤ c.maxoplen
      → Fits c file_size (draw_args c fuel file_size op_clone_range off len d)
  unfolding draw_args
  draw_clone-Fits fuel off len d ho hl =
      with_dest-Fits c file_size op_clone_range offset size
        (pick_dest c c.block_size c.maxfilelen offset size fuel d)
        (λ dest d' e.
          plain op_clone_range offset size dest false (omega (arith, trim_off-le off file_size, ho))
            (omega (arith, shorter))
            (λ _.
              let q =
                pick_dest_sound c c.block_size c.maxfilelen offset size fuel d dest d'
                  r.random_small (omega (arith, inside, fs, r.filelen_small)) e in
              (
                inside,
                q.0.inside,
                align_down-mod (trim_off off file_size) c.block_size,
                align_down-mod (trim_len (trim_off off file_size) len file_size) c.block_size,
                q.1,
                q.0.apart,
              )))
    where
      offset : ℕ
      offset = align_down (trim_off off file_size) c.block_size

      size : ℕ
      size = align_down (trim_len (trim_off off file_size) len file_size) c.block_size

      shorter : size ≤ c.maxoplen
      shorter = omega (arith, cut off len ho hl, hl)

      inside : offset + size ≤ file_size
      inside = omega (arith, source off len ho hl)

  draw_dedupe-Fits :
      (fuel off len d : ℕ)
      → off < 2 ^ 31
      → len ≤ c.maxoplen
      → Fits c file_size (draw_args c fuel file_size op_dedupe_range off len d)
  unfolding draw_args
  draw_dedupe-Fits fuel off len d ho hl =
      plain op_dedupe_range offset picked.1 picked.0 false
        (omega (arith, trim_off-le off file_size, ho)) (omega (arith, shorter, sound))
        (λ p. found p sound.0)
    where
      offset : ℕ
      offset = align_down (trim_off off file_size) c.block_size

      size : ℕ
      size = align_down (trim_len (trim_off off file_size) len file_size) c.block_size

      picked : ℕ × ℕ × ℕ
      picked = pick_dedupe c file_size offset size dedupe_tries 0 d

      shorter : size ≤ c.maxoplen
      shorter = omega (arith, cut off len ho hl, hl)

      inside : offset + size ≤ file_size
      inside = omega (arith, source off len ho hl)

      sound :
          ((picked.1 ≡ 0)
            ⊎ ((picked.1 ≡ size)
                × IsFree offset size file_size picked.0
                × (picked.0 % c.block_size ≡ 0)))
          × (picked.2 ≤ d + dedupe_tries)
      sound =
          pick_dedupe_sound c file_size offset size dedupe_tries 0 d r.random_small
            (omega (arith, inside, fs, r.filelen_small))

      found :
          0 < picked.1
          → ((picked.1 ≡ 0)
              ⊎ ((picked.1 ≡ size)
                  × IsFree offset size file_size picked.0
                  × (picked.0 % c.block_size ≡ 0)))
          → (offset + picked.1 ≤ file_size)
            × (picked.0 + picked.1 ≤ file_size)
            × (offset % c.block_size ≡ 0)
            × (picked.1 % c.block_size ≡ 0)
            × (picked.0 % c.block_size ≡ 0)
            × Apart offset picked.1 picked.0
      found p (inl none_found) = absurd (omega (arith, none_found, p))
      found p (inr (e, free, aligned)) = rw e (
        inside,
        free.inside,
        align_down-mod (trim_off off file_size) c.block_size,
        align_down-mod (trim_len (trim_off off file_size) len file_size) c.block_size,
        aligned,
        free.apart,
      )

  draw_copy-Fits :
      (fuel off len d : ℕ)
      → off < 2 ^ 31
      → len ≤ c.maxoplen
      → Fits c file_size (draw_args c fuel file_size op_copy_range off len d)
  unfolding draw_args
  draw_copy-Fits fuel off len d ho hl =
      with_dest-Fits c file_size op_copy_range offset size
        (pick_dest c c.writebdy c.maxfilelen offset size fuel d)
        (λ dest d' e.
          plain op_copy_range offset size dest false (omega (arith, trim_off-le off file_size, ho))
            (omega (arith, shorter))
            (λ _.
              let q =
                pick_dest_sound c c.writebdy c.maxfilelen offset size fuel d dest d' r.random_small
                  (omega (arith, inside, fs, r.filelen_small)) e in
              (inside, q.0.inside, q.0.apart)))
    where
      offset : ℕ
      offset = trim_off off file_size - trim_off off file_size % c.readbdy

      size : ℕ
      size = trim_direct c.o_direct c.readbdy (trim_len (trim_off off file_size) len file_size)

      less : size ≤ trim_len (trim_off off file_size) len file_size
      less = trim_direct-le c.o_direct c.readbdy (trim_len (trim_off off file_size) len file_size)

      shorter : size ≤ c.maxoplen
      shorter = omega (arith, cut off len ho hl, hl, less)

      inside : offset + size ≤ file_size
      inside = omega (arith, source off len ho hl, less)

  draw_truncate-Fits :
      (fuel off len d : ℕ)
      → off < 2 ^ 31
      → len ≤ c.maxoplen
      → Fits c file_size (draw_args c fuel file_size op_truncate off len d)
  unfolding draw_args
  draw_truncate-Fits fuel off len d ho hl =
      Fits-if c file_size c.style _ _
        (λ by_op. plain op_truncate off len 0 false ho hl (omega (arith, hl, r.style_fits by_op)))
        (λ _. record {
          small_offset = ho;
          small_size = omega (arith, under, r.filelen_small);
          drawn = omega (arith, under);
        })
    where
      under : c.random d % c.maxfilelen < c.maxfilelen
      under = mod-lt (c.random d) r.filelen_pos

  pub draw_args-Fits :
      (fuel : ℕ) (op : Op) (off len d : ℕ)
      → off < 2 ^ 31
      → len ≤ c.maxoplen
      → Fits c file_size (draw_args c fuel file_size op off len d)
  unfolding draw_args
  draw_args-Fits fuel op_clone_range off len d ho hl = draw_clone-Fits fuel off len d ho hl
  draw_args-Fits fuel op_dedupe_range off len d ho hl = draw_dedupe-Fits fuel off len d ho hl
  draw_args-Fits fuel op_copy_range off len d ho hl = draw_copy-Fits fuel off len d ho hl
  draw_args-Fits fuel op_truncate off len d ho hl = draw_truncate-Fits fuel off len d ho hl
  draw_args-Fits fuel op_fallocate off len d ho hl =
      Fits-if c file_size (c.fallocate_calls && not (len == 0) && c.keep_size_calls) _ _
        (λ _. plain op_fallocate off len 0 (c.random d % 2 == 1) ho hl tt)
        (λ _. plain op_fallocate off len 0 false ho hl tt)
  draw_args-Fits fuel op_zero_range off len d ho hl =
      Fits-if c file_size (c.zero_range_calls && not (len == 0) && c.keep_size_calls) _ _
        (λ _. plain op_zero_range off len 0 (c.random d % 2 == 1) ho hl tt)
        (λ _. plain op_zero_range off len 0 false ho hl tt)
  draw_args-Fits fuel op off len d ho hl = plain op off len 0 false ho hl tt

  -- For drawable options and a file of at most `maxfilelen` bytes, what `test` draws, if its search
  -- ends within the fuel, has offset and size below 2 ^ 31. A truncation goes to at most
  -- `maxfilelen`. A clone, dedupe or copy of at least one byte has its source inside the file, and
  -- its destination ends within `maxfilelen`, for dedupe within the file; for clone and dedupe both
  -- ranges are on block boundaries, and for all three they are apart.
  pub choose-FitsAll :
      (fuel d : ℕ) (close : Bool) → FitsAll c file_size (choose c fuel file_size close d)
  unfolding choose
  choose-FitsAll fuel d close = with_close-FitsAll c file_size _ _ (
      draw_args-Fits fuel _ (c.random (d + 1)) size _ (r.random_small (d + 1))
        (ground (arith, mod-lt (c.random (d + 2)) {m = c.maxoplen + 1})))
    where
      size : ℕ
      size = if c.randomoplen then c.random (d + 2) % (c.maxoplen + 1) else c.maxoplen
