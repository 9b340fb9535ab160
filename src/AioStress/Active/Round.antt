-- ===== src/AioStress/Active/Round.antt =====
-- A whole round of `run_active_list`.
use longan_chkout.Base.{
  ℕ, suc, ◌+◌, ◌≤◌, ◌<◌, ◌≡◌, refl, subst, Bool, true, false, List, [], ◌∷◌, Option, some, ◌==◌,
  if◌then◌else◌, arith,
}
use longan_chkout.Base.Chain.{bind_some}
use longan_chkout.Base.Count.{count}
use longan_chkout.Base.Lists.{length}
use longan_chkout.AioStress.Ring.Kept.{IsRing}
use longan_chkout.AioStress.Ring.Apart.{AreHeld-swap}
use longan_chkout.AioStress.Active.{
  Thread, Walk, run_built, settle, settle_built, begin_walk, run_active_list,
}
use longan_chkout.AioStress.Active.Moved.{IsRound}
use longan_chkout.AioStress.Active.Settled.{IsSettling, IsEnded, settle-IsEnded}
use longan_chkout.AioStress.Active.Walking.{IsWalking}
use longan_chkout.AioStress.Active.Walked.{IsWalked, fuel_for, from_start, walk-EndsAt}

begin_walk-IsWalking :
    (t : Thread) (draws : ℕ) (active finished : List ℕ)
    → IsRound t active finished
    → IsWalking (begin_walk t draws) active [] finished
unfolding begin_walk length count
begin_walk-IsWalking t draws active finished round = record {
  held = AreHeld-swap _ _ _ _ _ _ _ round.held;
  left = round.left;
  unbuilt = λ x _. refl;
  within = λ x some_of. absurd (omega (arith, some_of));
  done = round.done;
  size = omega arith;
}

-- The operations with the counters of what was submitted.
run_built-IsSettling :
    (w : Walk) (active built finished : List ℕ)
    → IsWalking w active built finished
    → IsSettling (record w.thread { opers = run_built w }) w.built active built finished
unfolding run_built
run_built-IsSettling w active built finished s = record {
  held = AreHeld-swap _ _ _ _ _ _ _ s.held;
  left = λ x some_of.
      omega (arith, s.left x some_of, s.unbuilt x (omega (arith, some_of, s.held.once x)));
  within = s.within;
  done = λ x some_of.
      omega (arith, s.done x some_of, s.unbuilt x (omega (arith, some_of, s.held.once x)));
}

-- Nothing is built only where no operation is.
no_ios : (n : ℕ) (built : List ℕ) → n ≡ 0 → length built ≤ n → built ≡ []
unfolding length
no_ios n [] e l = refl
no_ios n (y ∷ built) e l = absurd (omega (arith, e, l))

-- The result of a round.
unfoldable pub IsRoundOf : Option Thread → List ℕ → List ℕ → Type 0
IsRoundOf r active finished =
    (t1 : Thread) × (active1 finished1 : List ℕ) × (r ≡ some t1)
    × IsRound t1 active1 finished1
    × ((x : ℕ) → count x active1 + count x finished1 ≡ count x active + count x finished)

settle_built-IsRoundOf :
    (w : Walk) (active built finished all : List ℕ)
    → IsWalking w active built finished
    → ((x : ℕ) → count x active + count x built ≡ count x all)
    → IsRoundOf (settle_built w) all finished
unfolding settle_built IsRoundOf IsEnded count IsRing
settle_built-IsRoundOf w active built finished all s kept = either (w.num_built == 0) refl
  where
    ended :
        IsEnded
          (record w.thread { opers = run_built w })
          (settle (suc w.num_built) w.built (record w.thread { opers = run_built w }))
          active
          built
          finished
    ended =
        settle-IsEnded (suc w.num_built) (record w.thread { opers = run_built w }) w.built active
          built finished (omega (arith, s.size)) (run_built-IsSettling w active built finished s)

    empty : (w.num_built == 0) ≡ true → built ≡ []
    empty zero_ios = no_ios w.num_built built (ground (arith, zero_ios)) s.size

    either :
        (b : Bool)
        → (w.num_built == 0) ≡ b
        → IsRoundOf
            (if b
              then some w.thread
              else settle (suc w.num_built) w.built (record w.thread { opers = run_built w }))
            all
            finished
    either true zero_ios =
        let s1 = subst (λ l. IsWalking w active l finished) (empty zero_ios) s in
        (
          w.thread,
          active,
          finished,
          refl,
          record {
            held = record {
              first = tt;
              second = s1.held.first;
              third = s1.held.third;
              once = λ x. omega (arith, s1.held.once x);
            };
            left = s1.left;
            done = s1.done;
          },
          λ x. omega (
            arith,
            subst (λ l. count x active + count x l ≡ count x all) (empty zero_ios) (kept x),
          ),
        )
    either false _ =
        let (t1, active1, finished1, e, round, same, _) = ended in
        (t1, active1, finished1, e, round, λ x. omega (arith, same x, kept x))

-- With fuel for the number of active operations, where the active and the finished operations stand
-- in two rings, none of them twice, with ios left for each active one and none for the finished
-- ones, a round of `run_active_list` ends in such a state with the same operations in the two rings
-- together.
pub run_active_list-IsRoundOf :
    (page : ℕ) (rand : ℕ → ℕ) (sizes : ℕ → Option ℕ) (io_iter max_io_submit fuel draws : ℕ)
    (t : Thread) (active finished : List ℕ)
    → fuel_for (length active) < fuel
    → IsRound t active finished
    → IsRoundOf (run_active_list page rand sizes io_iter max_io_submit fuel draws t) active finished
unfolding run_active_list IsRoundOf IsWalked count begin_walk
run_active_list-IsRoundOf page rand sizes io_iter max_io_submit fuel draws t active finished enough
      round =
    let s = begin_walk-IsWalking t draws active finished round in
    let (w1, active1, built1, e, s1, kept) =
      from_start page rand sizes io_iter max_io_submit fuel t.active (begin_walk t draws) active []
        finished (walk-EndsAt page rand sizes io_iter max_io_submit fuel) enough s.held.first s in
    let (t1, active2, finished2, e2, round2, kept2) =
      settle_built-IsRoundOf w1 active1 built1 finished active s1 (λ x. omega (arith, kept x)) in
    (t1, active2, finished2, bind_some settle_built e e2, round2, kept2)
