-- ===== src/AioStress/Active/Settled.antt =====
-- The second loop of `run_active_list`: every built operation goes back to the active ones, or to
-- the finished ones if all its ios are started.
use longan_chkout.Base.{
  ℕ, zero, suc, ◌+◌, ◌≤◌, ◌<◌, ◌≡◌, refl, sym, ◌∙◌, subst, Bool, true, false, List, [], ◌∷◌, ◌++◌,
  Option, none, some, ◌==◌, if◌then◌else◌, arith, Bool-cases, inl, inr,
}
use longan_chkout.Base.Count.{count, count-append}
use longan_chkout.Base.Lists.{length}
use longan_chkout.AioStress.Ring.{Links}
use longan_chkout.AioStress.Ring.Kept.{IsRing}
use longan_chkout.AioStress.Ring.Apart.{AreHeld, AreHeld-swap, AreHeld-turn}
use longan_chkout.AioStress.Active.{Thread, put_back, end_oper, settle_one, settle}
use longan_chkout.AioStress.Active.Moved.{list_del-AreHeld, IsRound}

pub record IsSettling (t : Thread) (built : Option ℕ) (active waiting finished : List ℕ)
    : Type 0 where
  pub held : AreHeld t.links built t.active t.finished waiting active finished
  pub left : (x : ℕ) → 0 < count x active → (t.opers x).started_ios < (t.opers x).total_ios
  pub within : (x : ℕ) → 0 < count x waiting → (t.opers x).started_ios ≤ (t.opers x).total_ios
  pub done : (x : ℕ) → 0 < count x finished → (t.opers x).started_ios ≡ (t.opers x).total_ios

count_one : (y : ℕ) (l : List ℕ) → 0 < count y (y ∷ l)
unfolding count
count_one y l = ground arith

-- What holds of a list and of one more.
pub count_end :
    (P : ℕ → Type 0) (y : ℕ) (l : List ℕ)
    → ((x : ℕ) → 0 < count x l → P x)
    → P y
    → (x : ℕ) → 0 < count x (l ++ (y ∷ []))
    → P x
unfolding count
count_end P y l all at x some_of = elim (Bool-cases (y == x)) [
  | inl same ↦ subst P (ground (arith, same)) at
  | inr other ↦ all x (ground (arith, some_of, other, count-append x l (y ∷ [])))
]

-- The result of one turn of the loop: where the operation goes, and that it is in one place again.
IsTurn : Thread → Option ℕ → Thread → List ℕ → ℕ → List ℕ → List ℕ → Type 0
IsTurn t built t1 active y ys finished =
    (active1 finished1 : List ℕ) × IsSettling t1 built active1 ys finished1
    × ((x : ℕ)
        → count x active1 + count x finished1
          ≡ count x active + count x (y ∷ []) + count x finished)
    × (t1.opers ≡ t.opers)

put_back-AreHeld :
    (t : Thread) (built : Option ℕ) (y : ℕ) (active ys finished : List ℕ)
    → AreHeld t.links built t.active t.finished (y ∷ ys) active finished
    → AreHeld
        (put_back y built t).1.links
        (put_back y built t).0
        (put_back y built t).1.active
        t.finished
        ys
        (active ++ (y ∷ []))
        finished
unfolding put_back
put_back-AreHeld t built y active ys finished held =
    list_del-AreHeld t.links y built t.active t.finished [] ys active finished held

end_oper-AreHeld :
    (t : Thread) (built : Option ℕ) (y : ℕ) (active ys finished : List ℕ)
    → AreHeld t.links built t.active t.finished ys (active ++ (y ∷ [])) finished
    → AreHeld
        (end_oper y t).links
        built
        (end_oper y t).active
        (end_oper y t).finished
        ys
        (active ++ [])
        (finished ++ (y ∷ []))
unfolding end_oper
end_oper-AreHeld t built y active ys finished held = AreHeld-swap _ _ _ _ _ _ _ (
    AreHeld-turn _ _ _ _ _ _ _ (
      list_del-AreHeld t.links y t.active t.finished built active [] finished ys
        (AreHeld-turn _ _ _ _ _ _ _ (AreHeld-swap _ _ _ _ _ _ _ held))))

-- Both ways that an operation with its ios counted can go.
put_back-IsTurn :
    (t : Thread) (built : Option ℕ) (y : ℕ) (active ys finished : List ℕ) (all : Bool)
    → ((t.opers y).started_ios == (t.opers y).total_ios) ≡ all
    → IsSettling t built active (y ∷ ys) finished
    → IsTurn t
        (put_back y built t).0
        (if all then end_oper y (put_back y built t).1 else (put_back y built t).1)
        active
        y
        ys
        finished
unfolding IsTurn put_back end_oper count
put_back-IsTurn t built y active ys finished false more s = (
  active ++ (y ∷ []),
  finished,
  record {
    held = put_back-AreHeld t built y active ys finished s.held;
    left = count_end _ y active s.left (ground (arith, more, s.within y (count_one y ys)));
    within = λ x some_of. s.within x (omega (arith, some_of));
    done = s.done;
  },
  (λ x. omega (arith, count-append x active (y ∷ []))),
  refl,
)
put_back-IsTurn t built y active ys finished true all s = (
  active ++ [],
  finished ++ (y ∷ []),
  record {
    held =
        end_oper-AreHeld (put_back y built t).1 (put_back y built t).0 y active ys finished
          (put_back-AreHeld t built y active ys finished s.held);
    left = λ x some_of. s.left x (omega (arith, some_of, count-append x active []));
    within = λ x some_of. s.within x (omega (arith, some_of));
    done = count_end _ y finished s.done (ground (arith, all));
  },
  (λ x. omega (arith, count-append x active [], count-append x finished (y ∷ []))),
  refl,
)

-- A result in which every operation is in the one or the other list.
unfoldable pub IsEnded : Thread → Option Thread → List ℕ → List ℕ → List ℕ → Type 0
IsEnded t r active waiting finished =
    (t1 : Thread) × (active1 finished1 : List ℕ) × (r ≡ some t1)
    × IsRound t1 active1 finished1
    × ((x : ℕ)
        → count x active1 + count x finished1 ≡ count x active + count x waiting + count x finished)
    × (t1.opers ≡ t.opers)

first_of_ring : (l : Links) (b y : ℕ) (ys : List ℕ) → IsRing l (some b) (y ∷ ys) → b ≡ y
unfolding IsRing
first_of_ring l b y ys ring = ring.0

pub settle-IsEnded :
    (fuel : ℕ) (t : Thread) (built : Option ℕ) (active waiting finished : List ℕ)
    → length waiting < fuel
    → IsSettling t built active waiting finished
    → IsEnded t (settle fuel built t) active waiting finished
unfolding IsEnded settle length count IsRing IsTurn
settle-IsEnded zero t built active waiting finished enough s = absurd (omega (arith, enough))
settle-IsEnded (suc n) t none active [] finished enough s = (
  t,
  active,
  finished,
  refl,
  record { held = s.held; left = s.left; done = s.done },
  (λ x. omega arith),
  refl,
)
settle-IsEnded (suc n) t none active (y ∷ ys) finished enough s = absurd s.held.first
settle-IsEnded (suc n) t (some b) active [] finished enough s = absurd s.held.first
settle-IsEnded (suc n) t (some b) active (y ∷ ys) finished enough s =
    let at = first_of_ring t.links b y ys s.held.first in
    let (active1, finished1, s1, kept, same1) =
      put_back-IsTurn t (some y) y active ys finished _ refl
        (subst (λ h. IsSettling t (some h) active (y ∷ ys) finished) at s) in
    let (t2, active2, finished2, e, round, kept2, same2) =
      settle-IsEnded n _ _ active1 ys finished1 (omega (arith, enough)) s1 in
    subst
      (λ h.
        IsEnded t (settle n (settle_one h (some h) t).0 (settle_one h (some h) t).1) active (y ∷ ys)
          finished)
      (sym at)
      (t2, active2, finished2, e, round, (λ x. omega (arith, kept x, kept2 x)), same2 ∙ same1)
