-- ===== src/AioStress/Active/Restart/Restarted.antt =====
-- The restart of the finished operations: it ends, and what it leaves among them has hit an error
-- or has no stage left that is asked for.
use longan_chkout.Base.{
  ℕ, zero, suc, ◌+◌, ◌≤◌, ◌<◌, ◌≡◌, refl, sym, ◌∙◌, subst, Bool, List, [], ◌∷◌, ◌++◌, Option, none,
  some, if◌then◌else◌, arith,
}
use longan_chkout.Base.Count.{count}
use longan_chkout.Base.Lists.{length, length-append, length-append_all}
use longan_chkout.AioStress.{Stage, IoOper, restart_oper}
use longan_chkout.AioStress.Stages.{
  IsRestarted, restart_oper-IsRestarted, IsOver, restart_oper-IsOver,
}
use longan_chkout.AioStress.Ring.{oper_list_add}
use longan_chkout.AioStress.Ring.Kept.{IsRing}
use longan_chkout.AioStress.Ring.Apart.{AreHeld, count_taken, count_added}
use longan_chkout.AioStress.Active.{Thread, stop, go_on, proceed, set_oper, list_del}
use longan_chkout.AioStress.Active.Moved.{list_del-AreHeld}
use longan_chkout.AioStress.Active.Settled.{count_end}
use longan_chkout.AioStress.Active.Walking.{apart_from, set_oper_same, set_oper_other}
use longan_chkout.AioStress.Active.Walked.{fuel_for, start_last, start_inside, one_further}
use longan_chkout.AioStress.Active.Restart.{restart_next, restart_from, restart_finished}

-- The thread between two stages: the active operations have ios left, and each finished one would
-- have them in another stage.
pub record IsResting (t : Thread) (finished active : List ℕ) : Type 0 where
  pub held : AreHeld t.links t.finished t.active none finished active []
  pub left : (x : ℕ) → 0 < count x active → (t.opers x).started_ios < (t.opers x).total_ios
  pub some_ios : (x : ℕ) → 0 < count x finished → 0 < (t.opers x).total_ios

module _ (stages : Stage → Bool) where
  -- The operations of a list that are not restarted.
  AreOver : Thread → List ℕ → Type 0
  AreOver t l = (x : ℕ) → 0 < count x l → IsOver stages (t.opers x)

  unfoldable pub IsRestart : Option Thread → List ℕ → List ℕ → Type 0
  unfolding AreOver
  IsRestart r finished active =
      (t1 : Thread) × (finished1 active1 : List ℕ) × (r ≡ some t1)
      × IsResting t1 finished1 active1
      × ((x : ℕ) → count x finished1 + count x active1 ≡ count x finished + count x active)
      × AreOver t1 finished1

  IsRestart-trans :
      (r : Option Thread) (finished active finished1 active1 : List ℕ)
      → ((x : ℕ) → count x finished1 + count x active1 ≡ count x finished + count x active)
      → IsRestart r finished1 active1
      → IsRestart r finished active
  unfolding IsRestart
  IsRestart-trans r finished active finished1 active1 same (t1, f2, a2, e, s, kept, over) =
      (t1, f2, a2, e, s, (λ x. kept x ∙ same x), over)

  -- The loop from one of the finished operations, where those before it are not restarted.
  EndsAt : ℕ → Type 0
  unfolding AreOver
  EndsAt fuel =
      (t : Thread) (oper k : ℕ) (before behind active : List ℕ)
      → length before + length behind ≡ k
      → suc (length behind) + fuel_for k < fuel
      → IsResting t (before ++ (oper ∷ behind)) active
      → AreOver t before
      → IsRestart (restart_from stages fuel (some oper) t) (before ++ (oper ∷ behind)) active

  from_start :
      (fuel : ℕ) (p : Option ℕ) (t : Thread) (finished active : List ℕ)
      → EndsAt fuel
      → fuel_for (length finished) < fuel
      → IsRing t.links p finished
      → IsResting t finished active
      → IsRestart (restart_from stages fuel p t) finished active
  unfolding EndsAt IsRestart restart_from IsRing length fuel_for AreOver count
  from_start zero p t finished active ends enough ring s = absurd (omega (arith, enough))
  from_start (suc n) none t [] active ends enough ring s =
      (t, [], active, refl, s, (λ x. refl), λ x some_of. absurd (omega (arith, some_of)))
  from_start (suc n) none t (y ∷ ys) active ends enough ring s = absurd ring
  from_start (suc n) (some b) t [] active ends enough ring s = absurd ring
  from_start (suc n) (some b) t (y ∷ ys) active ends enough ring s =
      subst (λ h. IsRestart (restart_from stages (suc n) (some h) t) (y ∷ ys) active) (sym ring.0)
        (ends t y (length ys) [] ys active (omega arith) enough s
          (λ x some_of. absurd (omega (arith, some_of))))

  -- An operation that is not restarted.
  pass-IsRestart :
      (n : ℕ) (t : Thread) (oper k : ℕ) (before behind active : List ℕ)
      → EndsAt n
      → length before + length behind ≡ k
      → length behind + fuel_for k < n
      → IsResting t (before ++ (oper ∷ behind)) active
      → AreOver t (before ++ (oper ∷ []))
      → IsRestart
          (proceed (restart_from stages n) (restart_next none oper t))
          (before ++ (oper ∷ behind))
          active
  unfolding restart_next IsRestart length EndsAt proceed
  pass-IsRestart n t oper k before [] active ends size enough s over =
      subst
        (λ b.
          IsRestart
            (proceed (restart_from stages n)
              (if b then stop t else go_on (some (t.links.next oper)) t))
            (before ++ (oper ∷ [])) active)
        (sym (start_last t.links t.finished oper before s.held.first))
        (t, before ++ (oper ∷ []), active, refl, s, (λ x. refl), over)
  pass-IsRestart n t oper k before (c ∷ behind) active ends size enough s over =
      let (next, inside) = start_inside t.links t.finished oper c before behind s.held.first in
      let at_c =
        ends t c k (before ++ (oper ∷ [])) behind active
          (omega (arith, size, length-append before oper)) (omega (arith, enough))
          (subst (λ l. IsResting t l active) (sym (one_further before oper (c ∷ behind))) s) over in
      subst
        (λ b.
          IsRestart
            (proceed (restart_from stages n)
              (if b then stop t else go_on (some (t.links.next oper)) t))
            (before ++ (oper ∷ (c ∷ behind))) active)
        (sym inside)
        (subst
          (λ h.
            IsRestart (restart_from stages n (some h) t) (before ++ (oper ∷ (c ∷ behind))) active)
          (sym next)
          (subst (λ l. IsRestart (restart_from stages n (some c) t) l active)
            (one_further before oper (c ∷ behind)) at_c))

  -- The thread behind one restart.
  restarted_thread : Thread → ℕ → IoOper → Thread
  restarted_thread t oper new =
      let deleted = list_del oper t.finished t.links in
      let added = oper_list_add oper t.active deleted.1 in
      record {
        links = added.1;
        opers = set_oper t.opers oper new;
        active = added.0;
        finished = deleted.0;
      }

  restarted_thread-IsResting :
      (t : Thread) (oper : ℕ) (new : IoOper) (before behind active : List ℕ)
      → restart_oper stages (t.opers oper) ≡ some new
      → IsResting t (before ++ (oper ∷ behind)) active
      → IsResting (restarted_thread t oper new) (before ++ behind) (active ++ (oper ∷ []))
  unfolding restarted_thread
  restarted_thread-IsResting t oper new before behind active e s = record {
    held = list_del-AreHeld t.links oper t.finished t.active none before behind active [] s.held;
    left =
        count_end
          (λ x. (set_oper t.opers oper new x).started_ios < (set_oper t.opers oper new x).total_ios)
          oper active
          (λ x some_of.
            subst (λ o. o.started_ios < o.total_ios)
              (sym (changed x (apart_from oper active (omega (arith, own, once)) x some_of)))
              (s.left x some_of))
          (subst (λ o. o.started_ios < o.total_ios) (sym (set_oper_same t.opers oper new))
            (omega (arith, fresh.from_start.0, fresh.total, s.some_ios oper (omega (arith, own)))));
    some_ios = λ x some_of.
        subst (λ o. 0 < o.total_ios)
          (sym
            (changed x (apart_from oper (before ++ behind) (omega (arith, own, once)) x some_of)))
          (s.some_ios x (omega (arith, some_of, count_taken x oper before behind)));
  }
    where
      fresh : IsRestarted stages (t.opers oper) new
      fresh = restart_oper-IsRestarted stages (t.opers oper) new e

      own : count oper (before ++ (oper ∷ behind)) ≡ 1 + count oper (before ++ behind)
      own = ground (arith, count_taken oper oper before behind)

      once : count oper (before ++ (oper ∷ behind)) + count oper active + count oper [] ≤ 1
      once = s.held.once oper

      changed : (x : ℕ) → ¬ (oper ≡ x) → set_oper t.opers oper new x ≡ t.opers x
      changed x = set_oper_other t.opers oper new x

  next-IsRestart :
      (n : ℕ) (t : Thread) (oper k : ℕ) (before behind active : List ℕ) (r : Option IoOper)
      → EndsAt n
      → length before + length behind ≡ k
      → length behind + fuel_for k < n
      → IsResting t (before ++ (oper ∷ behind)) active
      → AreOver t before
      → restart_oper stages (t.opers oper) ≡ r
      → IsRestart
          (proceed (restart_from stages n) (restart_next r oper t))
          (before ++ (oper ∷ behind))
          active
  unfolding AreOver proceed restart_next restarted_thread
  next-IsRestart n t oper k before behind active none ends size enough s over e =
      pass-IsRestart n t oper k before behind active ends size enough s (
        count_end (λ x. IsOver stages (t.opers x)) oper before over
          (restart_oper-IsOver stages (t.opers oper) e))
  next-IsRestart n t oper k before behind active (some new) ends size enough s over e =
      let rest = restarted_thread-IsResting t oper new before behind active e s in
      IsRestart-trans _ (before ++ (oper ∷ behind)) active (before ++ behind)
        (active ++ (oper ∷ []))
        (λ x. omega (arith, count_taken x oper before behind, count_added x oper active))
        (from_start n (restarted_thread t oper new).finished (restarted_thread t oper new)
          (before ++ behind) (active ++ (oper ∷ [])) ends
          (subst (λ k. fuel_for k < n) (sym (length-append_all before behind ∙ size))
            (omega (arith, enough)))
          rest.held.first rest)

  walk-EndsAt : (fuel : ℕ) → EndsAt fuel
  unfolding EndsAt restart_from
  walk-EndsAt zero t oper k before behind active size enough s over = absurd (omega (arith, enough))
  walk-EndsAt (suc n) t oper k before behind active size enough s over =
      next-IsRestart n t oper k before behind active _ (walk-EndsAt n) size (omega (arith, enough))
        s over refl

  -- With fuel for the number of finished operations, where the finished and the active operations
  -- stand in two rings, none of them twice, with ios left for each active one and ios at all for
  -- each finished one, the restart of the finished operations in `worker` ends in such a state with
  -- the same operations in the two rings together, and each finished one has hit an error or has no
  -- stage behind its own that is asked for.
  pub restart_finished-IsRestart :
      (fuel : ℕ) (t : Thread) (finished active : List ℕ)
      → fuel_for (length finished) < fuel
      → IsResting t finished active
      → IsRestart (restart_finished stages fuel t) finished active
  unfolding restart_finished
  restart_finished-IsRestart fuel t finished active enough s =
      from_start fuel t.finished t finished active (walk-EndsAt fuel) enough s.held.first s
