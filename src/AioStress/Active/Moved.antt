-- ===== src/AioStress/Active/Moved.antt =====
-- A move of an operation between the lists of a thread, by the pointers to them.
use longan_chkout.Base.{ℕ, ◌≡◌, List, [], ◌∷◌, ◌++◌, Option, none, some, ◌<◌}
use longan_chkout.Base.Count.{count}
use longan_chkout.AioStress.Ring.{Links, oper_list_add}
use longan_chkout.AioStress.Ring.Kept.{IsRing}
use longan_chkout.AioStress.Ring.Apart.{AreHeld, move-AreHeld}
use longan_chkout.AioStress.Active.{Thread, list_del}

-- A list with an operation is not NULL.
pub never_null :
    (l : Links) (oper : ℕ) (before behind : List ℕ) → ¬ IsRing l none (before ++ (oper ∷ behind))
unfolding IsRing
never_null l oper [] behind ring = ring
never_null l oper (x ∷ before) behind ring = ring

pub list_del-AreHeld :
    (l : Links) (oper : ℕ) (a b c : Option ℕ) (before behind ys zs : List ℕ)
    → AreHeld l a b c (before ++ (oper ∷ behind)) ys zs
    → AreHeld
        (oper_list_add oper b (list_del oper a l).1).1
        (list_del oper a l).0
        (oper_list_add oper b (list_del oper a l).1).0
        c
        (before ++ behind)
        (ys ++ (oper ∷ []))
        zs
unfolding list_del
list_del-AreHeld l oper (some a) b c before behind ys zs held =
    move-AreHeld l oper a b c before behind ys zs held
list_del-AreHeld l oper none b c before behind ys zs held =
    absurd (never_null l oper before behind held.first)

-- The thread with its operations in their lists: the active ones have ios left, and the finished
-- ones have none.
pub record IsRound (t : Thread) (active finished : List ℕ) : Type 0 where
  pub held : AreHeld t.links none t.active t.finished [] active finished
  pub left : (x : ℕ) → 0 < count x active → (t.opers x).started_ios < (t.opers x).total_ios
  pub done : (x : ℕ) → 0 < count x finished → (t.opers x).started_ios ≡ (t.opers x).total_ios
