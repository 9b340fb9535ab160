-- ===== src/AioStress/Pool/Found.antt =====
-- `find_iou` finds a unit, and the list of free units is kept.
use longan_chkout.Base.{
  ℕ, ◌<◌, ◌≡◌, refl, sym, ap, ◌∙◌, subst, true, List, [], ◌∷◌, Option, none, some, ◌==◌, arith,
  Bool-cases, inl, inr,
}
use longan_chkout.Base.Count.{count}
use longan_chkout.AioStress.Pool.{
  io_free, io_pending, IoUnit, Pool, set_unit, grab_busy, grab_iou, Search, taken, take_grabbed,
  read_some_events, find_iou,
}
use longan_chkout.AioStress.Pool.Free.{
  IsList, IsPool, AreEvents, freed, set_unit_same, set_unit_other, set_unit-IsList, behind_first,
  read_some_events-IsPool,
}

-- A unit is taken from the list for an operation.
unfoldable pub IsTaken : ℕ → ℕ → Search → ℕ → List ℕ → Type 0
IsTaken n oper found at free =
    (p1 : Pool) × (found ≡ taken at p1) × IsPool n p1 free × ((p1.units at).io_oper ≡ some oper)

grab_iou-some :
    (oper : ℕ) (io : IoUnit)
    → io.busy ≡ io_free
    → grab_iou oper io ≡ some (record io { busy = io_pending; io_oper = some oper })
unfolding grab_iou grab_busy
grab_iou-some oper io e = ap (λ b. grab_busy b oper io) e

-- The first free unit is not pending, and is pending then.
take_grabbed-IsTaken :
    (n oper at : ℕ) (p : Pool) (free : List ℕ)
    → IsPool n p (at ∷ free)
    → IsTaken n oper (take_grabbed at p (grab_iou oper (p.units at))) at free
unfolding IsTaken take_grabbed count
take_grabbed-IsTaken n oper at p free s = (
  record { units = units1; free_ious = (p.units at).next },
  ap (take_grabbed at p) (grab_iou-some oper (p.units at) (s.is_free at own).0),
  record {
    list = set_unit-IsList p.units at io (p.units at).next free out (behind_first p at free s.list);
    once = λ x. omega (arith, s.once x);
    is_free = λ x some_of.
        let old = s.is_free x (omega (arith, some_of)) in
        (
          ap (λ u. u.busy)
                (set_unit_other p.units at io x
                  (λ e. omega (arith, out, subst (λ y. 0 < count y free) (sym e) some_of)))
              ∙ old.0,
          old.1,
        );
    is_pending = λ x below none_of. elim (Bool-cases (at == x)) [
      | inl same ↦
          subst (λ y. (units1 y).busy ≡ io_pending) (equal x same)
            (ap (λ u. u.busy) (set_unit_same p.units at io))
      | inr other ↦
          ap (λ u. u.busy) (set_unit_other p.units at io x (λ e. ground (arith, other, e)))
          ∙ s.is_pending x below (ground (arith, other, none_of))
    ];
  },
  ap (λ u. u.io_oper) (set_unit_same p.units at io),
)
  where
    io : IoUnit
    io = record (p.units at) { busy = io_pending; io_oper = some oper }

    units1 : ℕ → IoUnit
    units1 = set_unit p.units at io

    own : 0 < count at (at ∷ free)
    own = ground arith

    out : count at free ≡ 0
    out = ground (arith, s.once at)

    equal : (x : ℕ) → (at == x) ≡ true → at ≡ x
    equal x same = ground (arith, same)

find_iou-first :
    (n oper : ℕ) (calls : List (List ℕ)) (q : Option ℕ) (p : Pool) (at : ℕ) (free : List ℕ)
    → IsList p.units q (at ∷ free)
    → IsPool n p (at ∷ free)
    → IsTaken n oper (find_iou oper calls q p) at free
unfolding find_iou IsList
find_iou-first n oper calls none p at free list s = absurd list
find_iou-first n oper calls (some b) p at free list s =
    subst (λ b. IsTaken n oper (take_grabbed b p (grab_iou oper (p.units b))) at free) (sym list.0)
      (take_grabbed-IsTaken n oper at p free s)

freed_some :
    (events free : List ℕ) (at : ℕ) → (z : ℕ) × (zs : List ℕ) × (freed events (at ∷ free) ≡ z ∷ zs)
unfolding freed
freed_some [] free at = (at, free, refl)
freed_some (e ∷ events) free at = freed_some events (at ∷ free) e

-- In a pool where the list of free units has each unit that is not pending, once, and where the
-- events of distinct pending units are there to be read, `find_iou` neither aborts nor gives NULL:
-- it takes a free unit for the operation, and leaves such a pool.
pub find_iou-IsTaken :
    (n oper at : ℕ) (events : List ℕ) (calls : List (List ℕ)) (p : Pool) (free : List ℕ)
    → AreEvents n (at ∷ events) free
    → IsPool n p free
    → (z : ℕ) × (zs : List ℕ) × IsTaken n oper
        (find_iou oper ((at ∷ events) ∷ calls) p.free_ious p)
        z
        zs
unfolding IsList find_iou freed
find_iou-IsTaken n oper at events calls p (y ∷ free) evs s =
    (y, free, find_iou-first n oper ((at ∷ events) ∷ calls) p.free_ious p y free s.list s)
find_iou-IsTaken n oper at events calls p [] evs s = of_pointer p.free_ious s.list
  where
    read : Pool
    read = read_some_events (at ∷ events) p

    s1 : IsPool n read (freed (at ∷ events) [])
    s1 = read_some_events-IsPool n (at ∷ events) p [] evs s

    of_pointer :
        (q : Option ℕ)
        → IsList p.units q []
        → (z : ℕ) × (zs : List ℕ) × IsTaken n oper (find_iou oper ((at ∷ events) ∷ calls) q p) z zs
    of_pointer none list =
        let (z, zs, e) = freed_some events [] at in
        let s2 = subst (IsPool n read) e s1 in
        (z, zs, find_iou-first n oper calls read.free_ious read z zs s2.list s2)
    of_pointer (some b) list = absurd list
