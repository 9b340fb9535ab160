-- ===== src/AioStress/Active/Walked.antt =====
-- The first loop of `run_active_list`: it ends, and every operation is among the active or the
-- built ones.
use longan_chkout.Base.{
  ℕ, zero, suc, ◌+◌, ◌<◌, ◌≡◌, refl, sym, ap, ◌∙◌, subst, Bool, true, false, List, [], ◌∷◌, ◌++◌,
  Option, none, some, ◌==◌, ltb, if◌then◌else◌, arith,
}
use longan_chkout.Base.Count.{count}
use longan_chkout.Base.Lists.{length, length-append, length-append_all, Every}
use longan_chkout.AioStress.Ring.{Links}
use longan_chkout.AioStress.Ring.Linked.{IsPath, IsFresh, IsDistinct, IsPath-split, Every-split}
use longan_chkout.AioStress.Ring.Kept.{IsRing}
use longan_chkout.AioStress.Ring.Apart.{count_taken, count_added}
use longan_chkout.AioStress.Active.{
  Walk, stop, go_on, build_one, is_start, after_build, after_skip, proceed, oper_runnable,
  walk_step, build_active,
}
use longan_chkout.AioStress.Active.Moved.{never_null}
use longan_chkout.AioStress.Active.Walking.{IsWalking, build_one-IsWalking, same_test, other_test}

-- Fuel for the loop from the start of a list of a length.
unfoldable pub fuel_for : ℕ → ℕ
fuel_for zero = zero
fuel_for (suc n) = suc n + fuel_for n

-- A walk after which every operation is among the active or the built ones.
unfoldable pub IsWalked : Option Walk → List ℕ → List ℕ → List ℕ → Type 0
IsWalked r active built finished =
    (w1 : Walk) × (active1 built1 : List ℕ) × (r ≡ some w1)
    × IsWalking w1 active1 built1 finished
    × ((x : ℕ) → count x active1 + count x built1 ≡ count x active + count x built)

-- The operation behind another one in a ring, and the first one behind the last.
next_inside :
    (l : Links) (list oper c : ℕ) (before behind : List ℕ)
    → IsRing l (some list) (before ++ (oper ∷ (c ∷ behind)))
    → (l.next oper ≡ c) × ¬ (c ≡ list)
unfolding IsRing IsPath IsDistinct IsFresh Every
next_inside l list oper c [] behind (at, path, distinct) =
    (path.0.forth, λ e. distinct.0.0 (sym (e ∙ at)))
next_inside l list oper c (x ∷ xs) behind (at, path, distinct) =
    let (_, from_oper) = IsPath-split l x xs oper (c ∷ behind) x path in
    let (_, _, after) = Every-split (λ y. ¬ (x ≡ y)) xs oper (c ∷ behind) distinct.0 in
    (from_oper.0.forth, λ e. after.0 (sym (e ∙ at)))

next_last :
    (l : Links) (list oper : ℕ) (before : List ℕ)
    → IsRing l (some list) (before ++ (oper ∷ []))
    → l.next oper ≡ list
unfolding IsRing IsPath
next_last l list oper [] (at, path, distinct) = path.forth ∙ sym at
next_last l list oper (x ∷ xs) (at, path, distinct) =
    (IsPath-split l x xs oper [] x path).1.forth ∙ sym at

pub one_further :
    (before : List ℕ) (x : ℕ) (l : List ℕ) → (before ++ (x ∷ [])) ++ l ≡ before ++ (x ∷ l)
one_further [] x l = refl
one_further (y ∷ before) x l = ap (λ m. y ∷ m) (one_further before x l)

-- Where a list starts, for the operation behind one of its own.
pub start_last :
    (l : Links) (p : Option ℕ) (oper : ℕ) (before : List ℕ)
    → IsRing l p (before ++ (oper ∷ []))
    → is_start (l.next oper) p ≡ true
unfolding is_start
start_last l none oper before ring = absurd (never_null l oper before [] ring)
start_last l (some list) oper before ring =
    ap (λ n. n == list) (next_last l list oper before ring) ∙ same_test list

pub start_inside :
    (l : Links) (p : Option ℕ) (oper c : ℕ) (before behind : List ℕ)
    → IsRing l p (before ++ (oper ∷ (c ∷ behind)))
    → (l.next oper ≡ c) × (is_start (l.next oper) p ≡ false)
unfolding is_start
start_inside l none oper c before behind ring = absurd (never_null l oper before (c ∷ behind) ring)
start_inside l (some list) oper c before behind ring =
    let (next, apart) = next_inside l list oper c before behind ring in
    (next, ap (λ n. n == list) next ∙ other_test c list apart)

IsWalked-trans :
    (r : Option Walk) (active built active1 built1 finished : List ℕ)
    → ((x : ℕ) → count x active1 + count x built1 ≡ count x active + count x built)
    → IsWalked r active1 built1 finished
    → IsWalked r active built finished
unfolding IsWalked
IsWalked-trans r active built active1 built1 finished same (w1, active2, built2, e, s, kept) =
    (w1, active2, built2, e, s, λ x. kept x ∙ same x)

module _ (page : ℕ) (rand : ℕ → ℕ) (sizes : ℕ → Option ℕ) (io_iter max_io_submit : ℕ) where
  -- The loop from one of the active operations.
  unfoldable pub EndsAt : ℕ → Type 0
  EndsAt fuel =
      (w : Walk) (oper k : ℕ) (before behind built finished : List ℕ)
      → length before + length behind ≡ k
      → suc (length behind) + fuel_for k < fuel
      → IsWalking w (before ++ (oper ∷ behind)) built finished
      → IsWalked (build_active page rand sizes io_iter max_io_submit fuel (some oper) w)
          (before ++ (oper ∷ behind)) built finished

  pub from_start :
      (fuel : ℕ) (p : Option ℕ) (w : Walk) (active built finished : List ℕ)
      → EndsAt fuel
      → fuel_for (length active) < fuel
      → IsRing w.thread.links p active
      → IsWalking w active built finished
      → IsWalked (build_active page rand sizes io_iter max_io_submit fuel p w) active built finished
  unfolding EndsAt IsWalked build_active IsRing length fuel_for
  from_start zero p w active built finished ends enough ring s = absurd (omega (arith, enough))
  from_start (suc n) none w [] built finished ends enough ring s =
      (w, [], built, refl, s, λ x. refl)
  from_start (suc n) none w (y ∷ ys) built finished ends enough ring s = absurd ring
  from_start (suc n) (some b) w [] built finished ends enough ring s = absurd ring
  from_start (suc n) (some b) w (y ∷ ys) built finished ends enough ring s =
      subst
        (λ h.
          IsWalked (build_active page rand sizes io_iter max_io_submit (suc n) (some h) w) (y ∷ ys)
            built finished)
        (sym ring.0) (ends w y (length ys) [] ys built finished (omega arith) enough s)

  -- An operation that cannot run yet.
  after_skip-IsWalked :
      (n : ℕ) (w : Walk) (oper k : ℕ) (before behind built finished : List ℕ)
      → EndsAt n
      → length before + length behind ≡ k
      → length behind + fuel_for k < n
      → IsWalking w (before ++ (oper ∷ behind)) built finished
      → IsWalked
          (proceed
            (build_active page rand sizes io_iter max_io_submit n)
            (after_skip (w.thread.links.next oper) w))
          (before ++ (oper ∷ behind))
          built
          finished
  unfolding after_skip IsWalked length EndsAt proceed
  after_skip-IsWalked n w oper k before [] built finished ends size enough s =
      subst
        (λ b.
          IsWalked
            (proceed (build_active page rand sizes io_iter max_io_submit n)
              (if b then stop w else go_on (some (w.thread.links.next oper)) w))
            (before ++ (oper ∷ [])) built finished)
        (sym (start_last w.thread.links w.thread.active oper before s.held.first))
        (w, before ++ (oper ∷ []), built, refl, s, λ x. refl)
  after_skip-IsWalked n w oper k before (c ∷ behind) built finished ends size enough s =
      let (next, inside) =
        start_inside w.thread.links w.thread.active oper c before behind s.held.first in
      let at_c =
        ends w c k (before ++ (oper ∷ [])) behind built finished
          (omega (arith, size, length-append before oper)) (omega (arith, enough))
          (subst (λ l. IsWalking w l built finished) (sym (one_further before oper (c ∷ behind)))
            s) in
      subst
        (λ b.
          IsWalked
            (proceed (build_active page rand sizes io_iter max_io_submit n)
              (if b then stop w else go_on (some (w.thread.links.next oper)) w))
            (before ++ (oper ∷ (c ∷ behind))) built finished)
        (sym inside)
        (subst
          (λ h.
            IsWalked (build_active page rand sizes io_iter max_io_submit n (some h) w)
              (before ++ (oper ∷ (c ∷ behind))) built finished)
          (sym next)
          (subst
            (λ l.
              IsWalked (build_active page rand sizes io_iter max_io_submit n (some c) w) l built
                finished)
            (one_further before oper (c ∷ behind)) at_c))

  -- An operation that can run.
  after_build-IsWalked :
      (n : ℕ) (w : Walk) (active built finished : List ℕ)
      → EndsAt n
      → fuel_for (length active) < n
      → IsWalking w active built finished
      → IsWalked
          (proceed
            (build_active page rand sizes io_iter max_io_submit n)
            (after_build io_iter max_io_submit w))
          active
          built
          finished
  unfolding after_build IsWalked proceed
  after_build-IsWalked n w active built finished ends enough s =
      go (ltb max_io_submit (w.num_built + io_iter))
    where
      go :
          (b : Bool)
          → IsWalked
              (proceed
                (build_active page rand sizes io_iter max_io_submit n)
                (if b then stop w else go_on w.thread.active w))
              active
              built
              finished
      go true = (w, active, built, refl, s, λ x. refl)
      go false = from_start n w.thread.active w active built finished ends enough s.held.first s

  pub walk-EndsAt : (fuel : ℕ) → EndsAt fuel
  unfolding EndsAt build_active walk_step
  walk-EndsAt zero w oper k before behind built finished size enough s =
      absurd (omega (arith, enough))
  walk-EndsAt (suc n) w oper k before behind built finished size enough s =
      either_way (oper_runnable (sizes oper) (w.thread.opers oper))
        (IsWalked-trans _ _ _ _ _ _
          (λ x. omega (arith, count_taken x oper before behind, count_added x oper built))
          (after_build-IsWalked n (build_one page rand io_iter oper w) (before ++ behind)
            (built ++ (oper ∷ [])) finished (walk-EndsAt n)
            (subst (λ k. fuel_for k < n) (sym (length-append_all before behind ∙ size))
              (omega (arith, enough)))
            (build_one-IsWalking page rand io_iter oper w before behind built finished s)))
        (after_skip-IsWalked n w oper k before behind built finished (walk-EndsAt n) size
          (omega (arith, enough)) s)
    where
      either_way :
          (b : Bool)
          → IsWalked
              (proceed
                (build_active page rand sizes io_iter max_io_submit n)
                (after_build io_iter max_io_submit (build_one page rand io_iter oper w)))
              (before ++ (oper ∷ behind))
              built
              finished
          → IsWalked
              (proceed
                (build_active page rand sizes io_iter max_io_submit n)
                (after_skip (w.thread.links.next oper) w))
              (before ++ (oper ∷ behind))
              built
              finished
          → IsWalked
              (proceed (build_active page rand sizes io_iter max_io_submit n) (
                if b
                then after_build io_iter max_io_submit (build_one page rand io_iter oper w)
                else after_skip (w.thread.links.next oper) w))
              (before ++ (oper ∷ behind))
              built
              finished
      either_way true run idle = run
      either_way false run idle = idle
