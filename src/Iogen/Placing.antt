-- ===== src/Iogen/Placing.antt =====
-- Each mode places a request inside the file, in multiples of the unit, and of a length between the
-- limits.
use longan_chkout.Base.{
  ℕ, ◌+◌, ◌-◌, ◌≤◌, ◌<◌, ◌≡◌, refl, subst, true, false, Option, none, some, arith, Bool-cases, inl,
  inr,
}
use longan_chkout.Base.Chain.{some_of_bind, some_of_chain}
use mathlib.Core.Option.{some-injective}
use longan_chkout.Iogen.{
  Options, OffsetMode, random, sequential, reverse, FileInfo, Placed, placed, bad_length,
  round_down, lesser, overlaps, minlength_of, placed_or_refused, sequential_offset, starts_over,
  maxoffset_of,
}
use longan_chkout.Iogen.Form.{
  next_start, into_last, place_sequential, place_at_end, place_before, place_reverse, place_length,
  place_random, place_by, place,
}
use longan_chkout.Iogen.Within.{
  IsRandomRange, IsReady, IsWithin, round_down-mod, round_down_le, sequential_offset-mod,
  sequential_offset_le, lesser_le, minlength_ge,
}

-- What `random_range` and the code around it give for each mode.
placed_or_refused_placed :
    (at : Option (ℕ × ℕ)) (offset len : ℕ)
    → placed_or_refused at ≡ placed offset len
    → at ≡ some (offset, len)
unfolding placed_or_refused
placed_or_refused_placed none offset len e = ground (arith, e)
placed_or_refused_placed (some (a, b)) offset len e = ground (arith, e)

placed_or_refused_length : (at : Option (ℕ × ℕ)) → ¬ (placed_or_refused at ≡ bad_length)
unfolding placed_or_refused
placed_or_refused_length none e = ground (arith, e)
placed_or_refused_length (some at) e = ground (arith, e)

module _ (random_range : ℕ → ℕ → ℕ → ℕ → Option ℕ) (range : IsRandomRange random_range) where
  place_sequential-IsWithin :
      (o : Options) (fptr : FileInfo) (mult d : ℕ) (at : ℕ × ℕ)
      → 0 < mult
      → place_sequential random_range o fptr mult d ≡ some at
      → IsWithin o fptr mult at.0 at.1
  unfolding place_sequential
  place_sequential-IsWithin o fptr mult d at p e =
      let (start, len, _, drawn, same) =
        some_of_chain (next_start random_range o fptr d)
          (λ start.
            random_range (d + 1) (minlength_of o mult)
              (lesser (fptr.f_length - sequential_offset o fptr mult start) o.maxtrans) mult)
          (λ start len. (sequential_offset o fptr mult start, len)) at e in
      let (low, high, unit) = range.drawn _ _ _ _ len p drawn in
      let (near, most) =
        lesser_le (fptr.f_length - sequential_offset o fptr mult start) o.maxtrans in
      subst (λ place. IsWithin o fptr mult place.0 place.1) same
        (record {
          inside = omega (arith, high, near, sequential_offset_le o fptr mult start);
          offset_unit = sequential_offset-mod o fptr mult start p;
          length_unit = unit;
          least = omega (arith, low, minlength_ge o mult);
          most = omega (arith, high, most);
        })

  place_at_end-IsWithin :
      (o : Options) (fptr : FileInfo) (mult d : ℕ) (at : ℕ × ℕ)
      → 0 < mult
      → o.maxtrans ≤ fptr.f_length
      → place_at_end random_range o fptr mult d ≡ some at
      → IsWithin o fptr mult at.0 at.1
  unfolding place_at_end
  place_at_end-IsWithin o fptr mult d at p wide e =
      let (len, drawn, same) =
        some_of_bind (random_range d (minlength_of o mult) o.maxtrans mult)
          (λ len. some (round_down (fptr.f_length - len) mult, len)) at e in
      let (low, high, unit) = range.drawn _ _ _ _ len p drawn in
      subst (λ place. IsWithin o fptr mult place.0 place.1) (some-injective _ _ same)
        (record {
          inside = omega (arith, high, wide, round_down_le (fptr.f_length - len) mult);
          offset_unit = round_down-mod (fptr.f_length - len) mult;
          length_unit = unit;
          least = omega (arith, low, minlength_ge o mult);
          most = high;
        })

  -- The last io reaches as far as the way into it.
  into_last_le :
      (o : Options) (fptr : FileInfo) (d more : ℕ)
      → into_last random_range o fptr d ≡ some more
      → more ≤ fptr.f_lastlength
  unfolding into_last
  into_last_le o fptr d more e = elim (Bool-cases (overlaps o fptr)) [
    | inl over ↦
        omega (arith, (range.drawn d 1 (fptr.f_lastlength - 1) 1 more (omega arith) (past over)).1)
    | inr not_over ↦ omega (arith, none_of_it not_over)
  ]
    where
      past : overlaps o fptr ≡ true → random_range d 1 (fptr.f_lastlength - 1) 1 ≡ some more
      past over = ground (arith, e, over)

      none_of_it : overlaps o fptr ≡ false → 0 ≡ more
      none_of_it not_over = ground (arith, e, not_over)

  place_before-IsWithin :
      (o : Options) (fptr : FileInfo) (mult d : ℕ) (at : ℕ × ℕ)
      → 0 < mult
      → fptr.f_lastoffset + fptr.f_lastlength ≤ fptr.f_length
      → place_before random_range o fptr mult d ≡ some at
      → IsWithin o fptr mult at.0 at.1
  unfolding place_before
  place_before-IsWithin o fptr mult d at p last e =
      let (len, more, drawn, into, same) =
        some_of_chain
          (random_range d (minlength_of o mult) (lesser fptr.f_lastoffset o.maxtrans) mult)
          (λ _. into_last random_range o fptr (d + 1))
          (λ len more. (round_down (fptr.f_lastoffset - len + more) mult, len)) at e in
      let (low, high, unit) = range.drawn _ _ _ _ len p drawn in
      let (near, most) = lesser_le fptr.f_lastoffset o.maxtrans in
      subst (λ place. IsWithin o fptr mult place.0 place.1) same
        (record {
          inside = omega (
            arith,
            high,
            near,
            last,
            into_last_le o fptr (d + 1) more into,
            round_down_le (fptr.f_lastoffset - len + more) mult,
          );
          offset_unit = round_down-mod (fptr.f_lastoffset - len + more) mult;
          length_unit = unit;
          least = omega (arith, low, minlength_ge o mult);
          most = omega (arith, high, most);
        })

  place_reverse-IsWithin :
      (o : Options) (fptr : FileInfo) (mult d : ℕ) (at : ℕ × ℕ)
      → 0 < mult
      → IsReady o fptr
      → place_reverse random_range o fptr mult d ≡ some at
      → IsWithin o fptr mult at.0 at.1
  unfolding place_reverse
  place_reverse-IsWithin o fptr mult d at p ready e = elim (Bool-cases (starts_over o fptr mult)) [
    | inl over ↦ place_at_end-IsWithin o fptr mult d at p ready.wide (at_end over)
    | inr not_over ↦ place_before-IsWithin o fptr mult d at p ready.last (before not_over)
  ]
    where
      at_end : starts_over o fptr mult ≡ true → place_at_end random_range o fptr mult d ≡ some at
      at_end over = ground (arith, e, over)

      before : starts_over o fptr mult ≡ false → place_before random_range o fptr mult d ≡ some at
      before not_over = ground (arith, e, not_over)

  -- A random offset leaves room for the io.
  maxoffset_le :
      (o : Options) (fptr : FileInfo) (len : ℕ)
      → len ≤ fptr.f_length
      → maxoffset_of o fptr len + len ≤ fptr.f_length
  unfolding maxoffset_of overlaps
  maxoffset_le o fptr len fits = ground arith

  place_length-IsWithin :
      (o : Options) (fptr : FileInfo) (mult d : ℕ) (drawn : Option ℕ) (offset len : ℕ)
      → 0 < mult
      → o.maxtrans ≤ fptr.f_length
      → random_range d o.mintrans o.maxtrans mult ≡ drawn
      → place_length random_range o fptr mult d drawn ≡ placed offset len
      → IsWithin o fptr mult offset len
  unfolding place_length
  place_length-IsWithin o fptr mult d none offset len p wide first e = absurd (no e)
    where
      no : ¬ (Placed.bad_length ≡ placed offset len)
      no h = ground (arith, h)
  place_length-IsWithin o fptr mult d (some l) offset len p wide first e =
      let (at, second, same) =
        some_of_bind _ (λ offset. some (offset, l)) (offset, len)
          (placed_or_refused_placed _ offset len e) in
      let (low, high, unit) = range.drawn _ _ _ _ l p first in
      let (_, top, offset_unit) = range.drawn _ _ _ _ at p second in
      subst (λ place. IsWithin o fptr mult place.0 place.1) (some-injective _ _ same)
        (record {
          inside = omega (arith, top, maxoffset_le o fptr l (omega (arith, high, wide)));
          offset_unit = offset_unit;
          length_unit = unit;
          least = low;
          most = high;
        })

  place_by-IsWithin :
      (mode : OffsetMode) (o : Options) (fptr : FileInfo) (mult d offset len : ℕ)
      → 0 < mult
      → IsReady o fptr
      → place_by random_range mode o fptr mult d ≡ placed offset len
      → IsWithin o fptr mult offset len
  unfolding place_by place_random
  place_by-IsWithin sequential o fptr mult d offset len p ready e =
      place_sequential-IsWithin o fptr mult d (offset, len) p
        (placed_or_refused_placed _ offset len e)
  place_by-IsWithin reverse o fptr mult d offset len p ready e =
      place_reverse-IsWithin o fptr mult d (offset, len) p ready
        (placed_or_refused_placed _ offset len e)
  place_by-IsWithin random o fptr mult d offset len p ready e =
      place_length-IsWithin o fptr mult d _ offset len p ready.wide refl e

  -- For a file that is at least as long as the greatest length and has its last io inside it, and a
  -- positive unit, an io that is placed in any of the modes is inside the file, with an offset and
  -- a length that are multiples of the unit, and a length between the limits, if `random_range`
  -- gives a multiple between its limits.
  pub place-IsWithin :
      (o : Options) (fptr : FileInfo) (mult d offset len : ℕ)
      → 0 < mult
      → IsReady o fptr
      → place random_range o fptr mult d ≡ placed offset len
      → IsWithin o fptr mult offset len
  unfolding place
  place-IsWithin o fptr = place_by-IsWithin o.offset_mode o fptr
