-- ===== src/Iogen/Form.antt =====
-- iogen.c: `form_iorequest` and the loop of `main`. `random_range` is a parameter: it gets the number
-- of the draw, the limits and the multiple, and is `none` where it reports an error.
use longan_chkout.Base.{ℕ, zero, suc, ◌+◌, ◌-◌, List, [], ◌++◌, Option, none, some, if◌then◌else◌}
use longan_chkout.Base.Lists.{length, get_elem?}
use longan_chkout.Base.Maybe.{◌>>=◌}
use longan_chkout.Iogen.{
  OffsetMode, random, sequential, reverse, Options, FileInfo, Syscall, Flag, Request, Placed,
  bad_length, Formed, multiple, round_down, lesser, overlaps, minlength_of, placed_or_refused,
  sequential_offset, starts_over, minoffset_of, maxoffset_of, fill_in, written_out,
}

-- `random_range` has a number of its own for each of its calls.
module _ (random_range : ℕ → ℕ → ℕ → ℕ → Option ℕ) where
  -- Behind the last io, or inside it.
  unfoldable pub next_start : Options → FileInfo → ℕ → Option ℕ
  unfolding overlaps
  next_start o fptr d =
      if overlaps o fptr
      then random_range d fptr.f_lastoffset (fptr.f_lastoffset + fptr.f_lastlength - 1) 1
      else some (fptr.f_lastoffset + fptr.f_lastlength)

  -- How far a reversed io reaches into the last one.
  unfoldable pub into_last : Options → FileInfo → ℕ → Option ℕ
  unfolding overlaps
  into_last o fptr d =
      if overlaps o fptr then random_range d 1 (fptr.f_lastlength - 1) 1 else some 0

  unfoldable pub place_sequential : Options → FileInfo → ℕ → ℕ → Option (ℕ × ℕ)
  unfolding next_start sequential_offset lesser minlength_of
  place_sequential o fptr mult d = do
    start ← next_start o fptr d
    let offset = sequential_offset o fptr mult start
    len ←
        random_range (d + 1) (minlength_of o mult) (lesser (fptr.f_length - offset) o.maxtrans) mult
    some (offset, len)

  unfoldable pub place_at_end : Options → FileInfo → ℕ → ℕ → Option (ℕ × ℕ)
  unfolding minlength_of round_down
  place_at_end o fptr mult d = do
    len ← random_range d (minlength_of o mult) o.maxtrans mult
    some (round_down (fptr.f_length - len) mult, len)

  unfoldable pub place_before : Options → FileInfo → ℕ → ℕ → Option (ℕ × ℕ)
  unfolding into_last lesser minlength_of round_down
  place_before o fptr mult d = do
    len ← random_range d (minlength_of o mult) (lesser fptr.f_lastoffset o.maxtrans) mult
    more ← into_last o fptr (d + 1)
    some (round_down (fptr.f_lastoffset - len + more) mult, len)

  unfoldable pub place_reverse : Options → FileInfo → ℕ → ℕ → Option (ℕ × ℕ)
  unfolding starts_over place_at_end place_before
  place_reverse o fptr mult d =
      if starts_over o fptr mult then place_at_end o fptr mult d else place_before o fptr mult d

  unfoldable pub place_length : Options → FileInfo → ℕ → ℕ → Option ℕ → Placed
  unfolding minoffset_of maxoffset_of placed_or_refused
  place_length o fptr mult d none = bad_length
  place_length o fptr mult d (some len) = placed_or_refused (
      random_range (d + 1) (minoffset_of o fptr len) (maxoffset_of o fptr len) mult >>= λ offset.
      some (offset, len))

  unfoldable pub place_random : Options → FileInfo → ℕ → ℕ → Placed
  unfolding place_length
  place_random o fptr mult d =
      place_length o fptr mult d (random_range d o.mintrans o.maxtrans mult)

  -- The switch on the mode.
  unfoldable pub place_by : OffsetMode → Options → FileInfo → ℕ → ℕ → Placed
  unfolding place_sequential place_reverse place_random placed_or_refused
  place_by sequential o fptr mult d = placed_or_refused (place_sequential o fptr mult d)
  place_by reverse o fptr mult d = placed_or_refused (place_reverse o fptr mult d)
  place_by random o fptr mult d = place_random o fptr mult d

  unfoldable pub place : Options → FileInfo → ℕ → ℕ → Placed
  unfolding place_by
  place o fptr mult d = place_by o.offset_mode o fptr mult d

  unfoldable pub pattern_of : Syscall → ℕ → Option ℕ
  pattern_of sc d = if sc.is_write then (random_range d 0 25 1 >>= λ k. some (65 + k)) else some 0

  -- A choice from a list, one of the `random_range(0, n - 1, 1, NULL)`.
  unfoldable pub chosen {ℓ} : {A : Type ℓ} → List A → ℕ → Option (ℕ × A)
  unfolding length get_elem?
  chosen l d = do i ← random_range d 0 (length l - 1) 1; x ← get_elem? l i; some (i, x)

  -- `form_iorequest`; each request has eight draws from `d` on.
  unfoldable pub form_chosen :
      Options → ℕ → List FileInfo → Syscall → ℕ → ℕ × FileInfo → ℕ × Flag → Formed
  unfolding multiple place fill_in
  form_chosen o d files sc pattern file flag =
      fill_in sc pattern flag.1 file.0 files file.1
        (place o file.1 (multiple file.1 flag.1) (d + 4))

  unfoldable pub form_iorequest :
      Options → List Syscall → List Flag → ℕ → List FileInfo → Option Formed
  unfolding chosen pattern_of form_chosen
  form_iorequest o calls flags d files = do
    sc ← chosen calls d
    pattern ← pattern_of sc.1 (d + 1)
    file ← chosen files (d + 2)
    flag ← chosen flags (d + 3)
    some (form_chosen o d files sc.1 pattern file flag)

  -- The loop of `main` for `n` requests: those that are written out, and the files behind them.
  unfoldable pub requests_from :
      Options
      → List Syscall
      → List Flag
      → ℕ
      → ℕ
      → List FileInfo
      → Option (List Request × List FileInfo)
  unfolding form_iorequest written_out
  requests_from o calls flags zero d files = some ([], files)
  requests_from o calls flags (suc n) d files = do
    step ← form_iorequest o calls flags d files >>= written_out files
    rest ← requests_from o calls flags n (d + 8) step.1
    some (step.0 ++ rest.0, rest.1)
