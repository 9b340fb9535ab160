-- ===== src/AioStress/Offsets.antt =====
-- The ios of an operation stay within its part of the file.
use longan_chkout.Base.{
  ℕ, zero, suc, ◌+◌, ◌-◌, ◌*◌, ◌/◌, ◌%◌, ◌^◌, ◌≤◌, ◌<◌, ◌≡◌, ◌∙◌, List, [], ◌∷◌, ltb, if◌then◌else◌,
  ◌⊎◌, inl, inr, arith,
}
use native.Mathlib.Nat.{
  div-lt_iff_lt-mul, mul-lt-mul_of_pos_left, div-add-mod', mul-le-mul_right, add-mul, suc-mul,
  div-mul-le_self,
}
use longan_chkout.AioStress.{
  Stage, write, read, IoOper, megabyte, scaled_rand, megabyte_range, random_byte_offset, build_iocb,
  build_ios, clipped, build_oper,
}

scaled_rand_bound : (range r : ℕ) → 0 < range → r < 2 ^ 31 → scaled_rand range r ≤ range
unfolding scaled_rand
scaled_rand_bound range r p l = omega (arith, below)
  where
    below : range * r / 2 ^ 31 < range
    below = (div-lt_iff_lt-mul (omega arith)).1 (mul-lt-mul_of_pos_left l p)

-- Rounding down to a page does not fall behind a boundary of one that is passed.
page_bound : (x m page : ℕ) → 0 < page → m % page ≡ 0 → x < m + page → x - x % page ≤ m
page_bound x m page p d l =
    omega (arith, div-add-mod' x page, div-add-mod' m page, d, mul-le-mul_right page whole)
  where
    whole : x / page ≤ m / page
    whole = omega (arith, fewer)
      where
        fewer : x / page < m / page + 1
        fewer =
            (div-lt_iff_lt-mul p).1
              (omega (arith, l, d, div-add-mod' m page, add-mul (m / page) 1 page))

-- For a part of the file of at least 2 MiB, records of at most 1 MiB and pages whose size divides 1
-- MiB, each random offset is in the part of the file, and the record at it too.
pub random_byte_offset-bounds :
    (page r r1 : ℕ) (oper : IoOper)
    → 0 < page
    → page ≤ megabyte
    → megabyte % page ≡ 0
    → r < 2 ^ 31
    → r1 < 2 ^ 31
    → oper.start + 2 * megabyte ≤ oper.end
    → oper.reclen ≤ megabyte
    → (oper.start ≤ random_byte_offset page r r1 oper)
      × (random_byte_offset page r r1 oper + oper.reclen ≤ oper.end)
unfolding random_byte_offset megabyte_range
random_byte_offset-bounds page r r1 oper p small whole l l1 wide short =
    (ground (arith, low, mb, size, short, wide), ground (arith, high, mb, size, short, wide))
  where
    range : ℕ
    range = (oper.end - oper.start) / megabyte - (if ltb megabyte page then page / megabyte else 1)

    num : ℕ
    num = scaled_rand megabyte r1 + page - 1

    size : range + 1 ≡ (oper.end - oper.start) / megabyte
    size = ground (arith, small, wide)

    mb : scaled_rand range r ≤ range
    mb = scaled_rand_bound range r (omega (arith, size, wide)) l

    low : 1 ≤ scaled_rand range r
    low = unfold scaled_rand in (omega arith)

    high : num - num % page ≤ megabyte
    high =
        page_bound num megabyte page p whole
          (omega (arith, p, scaled_rand_bound megabyte r1 (omega arith) l1))

-- Each io of the list is within the range.
pub AllWithin : ℕ → ℕ → ℕ → List ℕ → Type 0
AllWithin start end len [] = Unit {0}
AllWithin start end len (x ∷ l) = (start ≤ x) × (x + len ≤ end) × AllWithin start end len l

-- A stage that goes through the file in order.
unfoldable pub IsSequential : Stage → Type 0
IsSequential rw = (rw ≡ write) ⊎ (rw ≡ read)

build_iocb-next :
    (page r r1 : ℕ) (oper : IoOper)
    → IsSequential oper.rw
    → build_iocb page r r1 oper
      ≡ (oper.last_offset, (record oper { last_offset = oper.last_offset + oper.reclen }))
unfolding build_iocb IsSequential
build_iocb-next page r r1 oper (inl e) = ground (arith, e)
build_iocb-next page r r1 oper (inr e) = ground (arith, e)

-- One io in front of the others.
build_ios-step :
    (page : ℕ) (rand : ℕ → ℕ) (i n start end : ℕ) (oper : IoOper)
    → IsSequential oper.rw
    → start ≤ oper.last_offset
    → oper.last_offset + suc n * oper.reclen ≤ end
    → AllWithin start end oper.reclen
        (build_ios page rand
          (i + 2)
          n
          (record oper { last_offset = oper.last_offset + oper.reclen })).0
      × ((build_ios page rand
            (i + 2)
            n
            (record oper { last_offset = oper.last_offset + oper.reclen })).1.last_offset
          ≡ oper.last_offset + oper.reclen + n * oper.reclen)
    → AllWithin start end oper.reclen (build_ios page rand i (suc n) oper).0
      × ((build_ios page rand i (suc n) oper).1.last_offset
          ≡ oper.last_offset + suc n * oper.reclen)
unfolding build_ios AllWithin
build_ios-step page rand i n start end oper q l h rest =
    rw (build_iocb-next page (rand i) (rand (i + 1)) oper q) (
      (l, omega (arith, h, suc-mul n oper.reclen), rest.0),
      rest.1 ∙ omega (arith, suc-mul n oper.reclen),
    )

build_ios-AllWithin :
    (page : ℕ) (rand : ℕ → ℕ) (i n start end : ℕ) (oper : IoOper)
    → IsSequential oper.rw
    → start ≤ oper.last_offset
    → oper.last_offset + n * oper.reclen ≤ end
    → AllWithin start end oper.reclen (build_ios page rand i n oper).0
      × ((build_ios page rand i n oper).1.last_offset ≡ oper.last_offset + n * oper.reclen)
unfolding build_ios AllWithin
build_ios-AllWithin page rand i zero start end oper q l h = (tt, omega arith)
build_ios-AllWithin page rand i (suc n) start end oper q l h =
    build_ios-step page rand i n start end oper q l h (
      build_ios-AllWithin page rand (i + 2) n start end
        (record oper { last_offset = oper.last_offset + oper.reclen }) q (omega (arith, l))
        (omega (arith, h, suc-mul n oper.reclen)))

pub clipped_bound :
    (num_ios : ℕ) (oper : IoOper)
    → oper.started_ios ≤ oper.total_ios
    → oper.started_ios + clipped num_ios oper ≤ oper.total_ios
unfolding clipped
clipped_bound num_ios oper l = ground (arith, l)

-- In the stages that go through the file in order, an operation whose next offset is the one behind
-- its started ios builds ios that lie within its part of the file, however many are asked for, and
-- its next offset is then the one behind them.
pub build_oper-AllWithin :
    (page : ℕ) (rand : ℕ → ℕ) (i num_ios : ℕ) (oper : IoOper)
    → IsSequential oper.rw
    → oper.start ≤ oper.end
    → oper.total_ios ≡ (oper.end - oper.start) / oper.reclen
    → oper.started_ios ≤ oper.total_ios
    → oper.last_offset ≡ oper.start + oper.started_ios * oper.reclen
    → AllWithin oper.start oper.end oper.reclen (build_oper page rand i num_ios oper).0
      × ((build_oper page rand i num_ios oper).1.last_offset
          ≡ oper.start + (oper.started_ios + clipped num_ios oper) * oper.reclen)
unfolding build_oper
build_oper-AllWithin page rand i num_ios oper q ordered total left place =
    (built.0, built.1 ∙ omega (arith, place, add-mul oper.started_ios n oper.reclen))
  where
    n : ℕ
    n = clipped num_ios oper

    whole : oper.total_ios * oper.reclen ≤ oper.end - oper.start
    whole = rw total (div-mul-le_self (oper.end - oper.start) oper.reclen)

    room : (oper.started_ios + n) * oper.reclen ≤ oper.end - oper.start
    room = omega (arith, mul-le-mul_right oper.reclen (clipped_bound num_ios oper left), whole)

    built :
        AllWithin oper.start oper.end oper.reclen (build_ios page rand i n oper).0
        × ((build_ios page rand i n oper).1.last_offset ≡ oper.last_offset + n * oper.reclen)
    built =
        build_ios-AllWithin page rand i n oper.start oper.end oper q (omega (arith, place))
          (omega (arith, place, room, ordered, add-mul oper.started_ios n oper.reclen))
