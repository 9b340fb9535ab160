-- ===== src/AioStress/Pool/Tests.antt =====
-- The theorems on the units, for two of them.
use longan_chkout.Base.{ℕ, refl, List, [], ◌∷◌, none, some, arith}
use longan_chkout.Base.Count.{count}
use longan_chkout.AioStress.Pool.{Pool, io_pending, find_iou, setup_ious}
use longan_chkout.AioStress.Pool.Found.{IsTaken, find_iou-IsTaken}
use longan_chkout.AioStress.Pool.Free.{IsList, IsPool, no_more, event, setup_ious-IsPool, down_from}

-- Both units are pending, and an event for the first comes.
abbrev none_free : Pool
none_free = record {
  units = λ _. record { io_oper = some 7; busy = io_pending; next = none };
  free_ious = none;
}

none_free-IsPool : IsPool 2 none_free []
unfolding count IsList
none_free-IsPool = record {
  list = tt;
  once = λ x. omega arith;
  is_free = λ x some_of. absurd (omega (arith, some_of));
  is_pending = λ x _ _. refl;
}

find_iou-IsTaken_example :
    (z : ℕ) × (zs : List ℕ) × IsTaken 2 5 (find_iou 5 ((0 ∷ []) ∷ []) none none_free) z zs
unfolding count
find_iou-IsTaken_example =
    find_iou-IsTaken 2 5 0 [] [] none_free [] (event (omega arith) refl no_more) none_free-IsPool

-- Two units that are set up.
two_set_up : IsPool 2 (setup_ious 2) (1 ∷ (0 ∷ []))
unfolding down_from
two_set_up = setup_ious-IsPool 2
