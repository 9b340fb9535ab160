-- ===== src/AioStress/Pool/Free.antt =====
-- The list of free units has each unit that is not pending, once.
use longan_chkout.Base.{
  ℕ, zero, suc, ◌≤◌, ◌<◌, ◌≡◌, refl, sym, ap, ◌∙◌, subst, true, false, List, [], ◌∷◌, Option, none,
  some, ◌==◌, if◌then◌else◌, arith, Bool-cases, inl, inr,
}
use longan_chkout.Base.Count.{count}
use longan_chkout.AioStress.Pool.{
  io_free, io_pending, IoUnit, Pool, set_unit, free_iou, read_some_events, setup_ious,
}

-- The units from a pointer on in the order of `next`.
unfoldable pub IsList : (ℕ → IoUnit) → Option ℕ → List ℕ → Type 0
IsList units none [] = Unit {0}
IsList units none (x ∷ xs) = ⊥
IsList units (some at) [] = ⊥
IsList units (some at) (x ∷ xs) = (at ≡ x) × IsList units (units x).next xs

-- A pool of `n` units.
pub record IsPool (n : ℕ) (p : Pool) (free : List ℕ) : Type 0 where
  pub list : IsList p.units p.free_ious free
  pub once : (x : ℕ) → count x free ≤ 1
  pub is_free : (x : ℕ) → 0 < count x free → ((p.units x).busy ≡ io_free) × (x < n)
  pub is_pending : (x : ℕ) → x < n → count x free ≡ 0 → (p.units x).busy ≡ io_pending

pub set_unit_same : (units : ℕ → IoUnit) (at : ℕ) (io : IoUnit) → set_unit units at io at ≡ io
unfolding set_unit
set_unit_same units at io = ap (λ b. if b then io else units at) same
  where
    same : (at == at) ≡ true
    same = ground arith

pub set_unit_other :
    (units : ℕ → IoUnit) (at : ℕ) (io : IoUnit) (x : ℕ)
    → ¬ (at ≡ x)
    → set_unit units at io x ≡ units x
unfolding set_unit
set_unit_other units at io x differ = ap (λ b. if b then io else units x) other
  where
    other : (x == at) ≡ false
    other = ground (arith, differ)

-- A change of a unit that is not in a list.
pub set_unit-IsList :
    (units : ℕ → IoUnit) (at : ℕ) (io : IoUnit) (p : Option ℕ) (l : List ℕ)
    → count at l ≡ 0
    → IsList units p l
    → IsList (set_unit units at io) p l
unfolding IsList count
set_unit-IsList units at io none [] out list = list
set_unit-IsList units at io none (x ∷ l) out list = list
set_unit-IsList units at io (some y) [] out list = list
set_unit-IsList units at io (some y) (x ∷ l) out list = (
  list.0,
  subst (λ u. IsList (set_unit units at io) u.next l)
      (sym (set_unit_other units at io x (λ e. differ e)))
      (set_unit-IsList units at io (units x).next l (ground (arith, out)) list.1),
)
  where
    differ : ¬ (at ≡ x)
    differ e = ground (arith, out, e)

apart : (at x : ℕ) (l : List ℕ) → count x (at ∷ l) ≡ 0 → ¬ (at ≡ x)
unfolding count
apart at x l none_of e = ground (arith, none_of, e)

pub behind_first :
    (p : Pool) (at : ℕ) (free : List ℕ)
    → IsList p.units p.free_ious (at ∷ free)
    → IsList p.units (p.units at).next free
unfolding IsList
behind_first p at free list = of_pointer p.free_ious list
  where
    of_pointer :
        (q : Option ℕ) → IsList p.units q (at ∷ free) → IsList p.units (p.units at).next free
    of_pointer none list = absurd list
    of_pointer (some b) list = list.1

-- A unit goes to the front of the list, one of `n` units or the next one.
pushed-IsPool :
    (n m at : ℕ) (p : Pool) (io : IoUnit) (free : List ℕ)
    → io.busy ≡ io_free
    → io.next ≡ p.free_ious
    → at < m
    → n ≤ m
    → ((x : ℕ) → x < m → ¬ (at ≡ x) → x < n)
    → count at free ≡ 0
    → IsPool n p free
    → IsPool m (record { units = set_unit p.units at io; free_ious = some at }) (at ∷ free)
unfolding IsList count
pushed-IsPool n m at p io free busy next inside more others out s = record {
  list = (
    refl,
    subst (λ q. IsList units1 q free) (sym (ap (λ u. u.next) (set_unit_same p.units at io) ∙ next))
        (set_unit-IsList p.units at io p.free_ious free out s.list),
  );
  once = λ x. elim (Bool-cases (at == x)) [
    | inl same ↦ ground (arith, same, subst (λ y. count y free ≡ 0) (equal x same) out)
    | inr other ↦ ground (arith, other, s.once x)
  ];
  is_free = λ x some_of. elim (Bool-cases (at == x)) [
    | inl same ↦
        subst (λ y. ((units1 y).busy ≡ io_free) × (y < m)) (equal x same)
          (ap (λ u. u.busy) (set_unit_same p.units at io) ∙ busy, inside)
    | inr other ↦
        let old = s.is_free x (ground (arith, some_of, other)) in
        (
          ap (λ u. u.busy) (set_unit_other p.units at io x (λ e. ground (arith, other, e))) ∙ old.0,
          omega (arith, old.1, more),
        )
  ];
  is_pending = λ x below none_of.
      ap (λ u. u.busy) (set_unit_other p.units at io x (apart at x free none_of))
      ∙ s.is_pending x (others x below (apart at x free none_of)) (omega (arith, none_of));
}
  where
    units1 : ℕ → IoUnit
    units1 = set_unit p.units at io

    equal : (x : ℕ) → (at == x) ≡ true → at ≡ x
    equal x same = ground (arith, same)

free_iou-IsPool :
    (n at : ℕ) (p : Pool) (free : List ℕ)
    → at < n
    → count at free ≡ 0
    → IsPool n p free
    → IsPool n (free_iou at p) (at ∷ free)
unfolding free_iou
free_iou-IsPool n at p free inside out s =
    pushed-IsPool n n at p (record (p.units at) { busy = io_free; next = p.free_ious }) free refl
      refl inside (omega arith) (λ x below _. below) out s

-- The events of distinct units that are pending make them free.
pub data AreEvents (n : ℕ) : List ℕ → List ℕ → Type 0 where
  no_more : {free : List ℕ} → AreEvents n [] free
  event :
      {at : ℕ} {events free : List ℕ}
      → at < n
      → count at free ≡ 0
      → AreEvents n events (at ∷ free)
      → AreEvents n (at ∷ events) free

-- The list behind the events.
unfoldable pub freed : List ℕ → List ℕ → List ℕ
freed [] free = free
freed (at ∷ events) free = freed events (at ∷ free)

pub read_some_events-IsPool :
    (n : ℕ) (events : List ℕ) (p : Pool) (free : List ℕ)
    → AreEvents n events free
    → IsPool n p free
    → IsPool n (read_some_events events p) (freed events free)
unfolding read_some_events freed
read_some_events-IsPool n [] p free evs s = s
read_some_events-IsPool n (at ∷ events) p free (event inside out rest) s =
    read_some_events-IsPool n events (free_iou at p) (at ∷ free) rest
      (free_iou-IsPool n at p free inside out s)

-- The units that are set up, the last one first.
unfoldable pub down_from : ℕ → List ℕ
down_from zero = []
down_from (suc n) = n ∷ down_from n

count-down_from : (n x : ℕ) → n ≤ x → count x (down_from n) ≡ 0
unfolding count down_from
count-down_from zero x l = refl
count-down_from (suc n) x l = ground (arith, l, count-down_from n x (omega (arith, l)))

setup_ious-busy : (n x : ℕ) → ((setup_ious n).units x).busy ≡ io_free
unfolding setup_ious
setup_ious-busy zero x = refl
setup_ious-busy (suc n) x = elim (Bool-cases (n == x)) [
  | inl same ↦
      let e : n ≡ x = ground (arith, same) in
      subst (λ y. ((setup_ious (suc n)).units y).busy ≡ io_free) e
        (ap (λ u. u.busy) (set_unit_same (setup_ious n).units n pushed) ∙ setup_ious-busy n n)
  | inr other ↦
      ap (λ u. u.busy)
        (set_unit_other (setup_ious n).units n pushed x (λ e. ground (arith, other, e)))
      ∙ setup_ious-busy n x
]
  where
    pushed : IoUnit
    pushed = record ((setup_ious n).units n) { next = (setup_ious n).free_ious }

pub setup_ious-IsPool : (n : ℕ) → IsPool n (setup_ious n) (down_from n)
unfolding setup_ious down_from count IsList
setup_ious-IsPool zero = record {
  list = tt;
  once = λ x. omega arith;
  is_free = λ x some_of. absurd (omega (arith, some_of));
  is_pending = λ x below _. absurd (omega (arith, below));
}
setup_ious-IsPool (suc n) =
    pushed-IsPool n (suc n) n (setup_ious n)
      (record ((setup_ious n).units n) { next = (setup_ious n).free_ious }) (down_from n)
      (setup_ious-busy n n) refl (omega arith) (omega arith)
      (λ x below differ. omega (arith, below, differ)) (count-down_from n n (omega arith))
      (setup_ious-IsPool n)
