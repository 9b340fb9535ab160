-- ===== src/AioStress/Pool.antt =====
-- aio-stress.c: the io units of a thread and the list of those that are free.
pub mod Free
pub mod Found
mod Tests
use longan_chkout.Base.{
  ℕ, zero, suc, Bool, true, false, List, [], ◌∷◌, Option, none, some, ◌==◌, if◌then◌else◌,
}

pub data Busy : Type 0 where
  io_free : Busy
  io_pending : Busy

-- `struct io_unit`, without the buffer, the result and the times.
pub record IoUnit : Type 0 where
  pub io_oper : Option ℕ
  pub busy : Busy
  pub next : Option ℕ

-- The units by their addresses, and `free_ious`.
pub record Pool : Type 0 where
  pub units : ℕ → IoUnit
  pub free_ious : Option ℕ

unfoldable pub set_unit : (ℕ → IoUnit) → ℕ → IoUnit → ℕ → IoUnit
set_unit units at io x = if x == at then io else units x

-- `grab_iou`, and `none` where it reports that the unit is pending.
unfoldable pub grab_busy : Busy → ℕ → IoUnit → Option IoUnit
grab_busy io_pending oper io = none
grab_busy io_free oper io = some (record io { busy = io_pending; io_oper = some oper })

unfoldable pub grab_iou : ℕ → IoUnit → Option IoUnit
unfolding grab_busy
grab_iou oper io = grab_busy io.busy oper io

-- What `find_iou` gives: a unit, NULL, or the end of the program.
pub data Search : Type 0 where
  taken : ℕ → Pool → Search
  not_found : Pool → Search
  aborted : Search

unfoldable pub take_grabbed : ℕ → Pool → Option IoUnit → Search
unfolding set_unit
take_grabbed at p none = aborted
take_grabbed at p (some io) =
    taken at (record { units = set_unit p.units at io; free_ious = (p.units at).next })

-- The unit of an event is free again, with what `finish_io` does to it and to the list.
unfoldable pub free_iou : ℕ → Pool → Pool
unfolding set_unit
free_iou at p = record {
  units = set_unit p.units at (record (p.units at) { busy = io_free; next = p.free_ious });
  free_ious = some at;
}

-- `read_some_events`, by the units of the events.
unfoldable pub read_some_events : List ℕ → Pool → Pool
unfolding free_iou
read_some_events [] p = p
read_some_events (at ∷ events) p = read_some_events events (free_iou at p)

-- `find_iou`, with the events that the kernel has for each call of `read_some_events`.
unfoldable pub find_iou : ℕ → List (List ℕ) → Option ℕ → Pool → Search
unfolding take_grabbed grab_iou read_some_events
find_iou oper calls (some at) p = take_grabbed at p (grab_iou oper (p.units at))
find_iou oper [] none p = not_found p
find_iou oper ([] ∷ calls) none p = not_found p
find_iou oper ((at ∷ events) ∷ calls) none p =
    let read = read_some_events (at ∷ events) p in find_iou oper calls read.free_ious read

-- The loop of `setup_ious`, over units that `memset` has cleared.
unfoldable pub setup_ious : ℕ → Pool
unfolding set_unit
setup_ious zero = record {
  units = λ _. record { io_oper = none; busy = io_free; next = none };
  free_ious = none;
}
setup_ious (suc i) =
    let p = setup_ious i in
    record {
      units = set_unit p.units i (record (p.units i) { next = p.free_ious });
      free_ious = some i;
    }
