-- ===== src/Iogen/Progress.antt =====
-- A sequential and a reversed request are always placed.
use longan_chkout.Base.{
  ℕ, ◌+◌, ◌-◌, ◌*◌, ◌≤◌, ◌<◌, ◌≡◌, refl, ap, true, false, Bool, if◌then◌else◌, Option, some, arith,
  Bool-cases, inl, inr,
}
use longan_chkout.Iogen.{
  Options, OffsetMode, random, sequential, reverse, FileInfo, placed, round_down, lesser, overlaps,
  minlength_of, placed_or_refused, sequential_offset, starts_over,
}
use longan_chkout.Iogen.Form.{
  next_start, into_last, place_sequential, place_at_end, place_before, place_reverse, place_by,
  place,
}
use longan_chkout.Iogen.Within.{IsRandomRange, IsReady, IsWithin}
use longan_chkout.Iogen.Placing.{place-IsWithin}

-- The least length is a multiple that the limits admit.
pub record IsEven (o : Options) (mult k : ℕ) : Type 0 where
  pub whole : minlength_of o mult ≡ k * mult
  pub fitting : minlength_of o mult ≤ o.maxtrans

-- A least length leaves room behind the offset that a sequential request is tried at.
sequential_offset-room :
    (o : Options) (fptr : FileInfo) (mult start : ℕ)
    → o.maxtrans ≤ fptr.f_length
    → minlength_of o mult ≤ o.maxtrans
    → minlength_of o mult ≤ lesser (fptr.f_length - sequential_offset o fptr mult start) o.maxtrans
unfolding sequential_offset lesser
sequential_offset-room o fptr mult start wide admitted = ground arith

not_over-room :
    (o : Options) (fptr : FileInfo) (mult : ℕ)
    → starts_over o fptr mult ≡ false
    → minlength_of o mult ≤ lesser fptr.f_lastoffset o.maxtrans
unfolding starts_over
not_over-room o fptr mult e = ground (arith, e)

overlaps_long : (o : Options) (fptr : FileInfo) → overlaps o fptr ≡ true → 2 ≤ fptr.f_lastlength
unfolding overlaps
overlaps_long o fptr e = ground (arith, e)

-- A draw that one branch makes.
if_drawn :
    (b : Bool) (m : Option ℕ) (y : ℕ)
    → (b ≡ true → (x : ℕ) × (m ≡ some x))
    → (x : ℕ) × ((if b then m else some y) ≡ some x)
if_drawn true m y drawn = drawn refl
if_drawn false m y drawn = (y, refl)

placed_of_some :
    (m : Option (ℕ × ℕ)) (at : ℕ × ℕ) → m ≡ some at → placed_or_refused m ≡ placed at.0 at.1
unfolding placed_or_refused
placed_of_some m at e = ap placed_or_refused e

module _ (random_range : ℕ → ℕ → ℕ → ℕ → Option ℕ) (range : IsRandomRange random_range) where
  length-drawn :
      (o : Options) (mult k d high : ℕ)
      → 0 < mult
      → IsEven o mult k
      → minlength_of o mult ≤ high
      → (len : ℕ) × (random_range d (minlength_of o mult) high mult ≡ some len)
  length-drawn o mult k d high p even room =
      range.draws d (minlength_of o mult) high mult k p (omega (arith, even.whole))
        (omega (arith, even.whole, room))

  next_start-drawn :
      (o : Options) (fptr : FileInfo) (d : ℕ)
      → (x : ℕ) × (next_start random_range o fptr d ≡ some x)
  unfolding next_start
  next_start-drawn o fptr d = if_drawn (overlaps o fptr) _ _ (λ over.
      range.draws d _ _ 1 fptr.f_lastoffset (omega arith) (omega arith)
        (omega (arith, overlaps_long o fptr over)))

  into_last-drawn :
      (o : Options) (fptr : FileInfo) (d : ℕ) → (x : ℕ) × (into_last random_range o fptr d ≡ some x)
  unfolding into_last
  into_last-drawn o fptr d = if_drawn (overlaps o fptr) _ _ (λ over.
      range.draws d _ _ 1 1 (omega arith) (omega arith) (omega (arith, overlaps_long o fptr over)))

  place_sequential-drawn :
      (o : Options) (fptr : FileInfo) (mult k d : ℕ)
      → 0 < mult
      → IsReady o fptr
      → IsEven o mult k
      → (at : ℕ × ℕ) × (place_sequential random_range o fptr mult d ≡ some at)
  unfolding place_sequential
  place_sequential-drawn o fptr mult k d p ready even =
      let (start, first) = next_start-drawn o fptr d in
      let room = sequential_offset-room o fptr mult start ready.wide even.fitting in
      let (len, second) = length-drawn o mult k (d + 1) _ p even room in
      ((sequential_offset o fptr mult start, len), ground (arith, first, second))

  place_reverse-drawn :
      (o : Options) (fptr : FileInfo) (mult k d : ℕ)
      → 0 < mult
      → IsEven o mult k
      → (at : ℕ × ℕ) × (place_reverse random_range o fptr mult d ≡ some at)
  unfolding place_reverse place_at_end place_before
  place_reverse-drawn o fptr mult k d p even = elim (Bool-cases (starts_over o fptr mult)) [
    | inl over ↦
        let (len, drawn) = length-drawn o mult k d o.maxtrans p even even.fitting in
        ((round_down (fptr.f_length - len) mult, len), ground (arith, over, drawn))
    | inr not_over ↦
        let (len, drawn) = length-drawn o mult k d _ p even (not_over-room o fptr mult not_over) in
        let (more, into) = into_last-drawn o fptr (d + 1) in
        (
          (round_down (fptr.f_lastoffset - len + more) mult, len),
          ground (arith, not_over, drawn, into),
        )
  ]

  place_by-Placed :
      (mode : OffsetMode) (o : Options) (fptr : FileInfo) (mult k d : ℕ)
      → ¬ (mode ≡ random)
      → 0 < mult
      → IsReady o fptr
      → IsEven o mult k
      → (at : ℕ × ℕ) × (place_by random_range mode o fptr mult d ≡ placed at.0 at.1)
  unfolding place_by
  place_by-Placed sequential o fptr mult k d _ p ready even =
      let (at, e) = place_sequential-drawn o fptr mult k d p ready even in
      (at, placed_of_some _ at e)
  place_by-Placed reverse o fptr mult k d _ p ready even =
      let (at, e) = place_reverse-drawn o fptr mult k d p even in (at, placed_of_some _ at e)
  place_by-Placed random o fptr mult k d not_random p ready even = absurd (not_random refl)

  -- In the modes `sequential` and `reverse`, for a file that is at least as long as the greatest
  -- length and has its last io inside it, with the least length a multiple of the positive unit and
  -- not above the greatest, an io is placed, inside the file, in multiples of the unit, with a
  -- length between the limits, if `random_range` gives a multiple between its limits where there is
  -- one.
  pub place-Succeeds :
      (o : Options) (fptr : FileInfo) (mult k d : ℕ)
      → ¬ (o.offset_mode ≡ random)
      → 0 < mult
      → IsReady o fptr
      → IsEven o mult k
      → (at : ℕ × ℕ) × (place random_range o fptr mult d ≡ placed at.0 at.1)
        × IsWithin o fptr mult at.0 at.1
  unfolding place
  place-Succeeds o fptr mult k d mode p ready even =
      let (at, e) = place_by-Placed o.offset_mode o fptr mult k d mode p ready even in
      (at, e, place-IsWithin random_range range o fptr mult d at.0 at.1 p ready e)
