-- ===== src/AioStress/Active/Walking.antt =====
-- The state of the first loop of `run_active_list`, and what the building of an operation makes of
-- it.
use longan_chkout.Base.{
  ℕ, ◌+◌, ◌≤◌, ◌<◌, ◌≡◌, sym, ap, ◌∙◌, subst, true, false, List, [], ◌∷◌, ◌++◌, ◌==◌, if◌then◌else◌,
  arith,
}
use longan_chkout.Base.Count.{count}
use longan_chkout.Base.Lists.{length, length-append}
use longan_chkout.AioStress.{IoOper, build_oper, clipped}
use longan_chkout.AioStress.Offsets.{clipped_bound}
use longan_chkout.AioStress.Ring.{assign}
use longan_chkout.AioStress.Ring.Linked.{assign_same, assign_other}
use longan_chkout.AioStress.Ring.Apart.{AreHeld, count_taken, count_added}
use longan_chkout.AioStress.Active.{Walk, set_oper, build_one}
use longan_chkout.AioStress.Active.Built.{
  IsCounted, build_oper-IsCounted, length-build_oper, clipped_positive,
}
use longan_chkout.AioStress.Active.Moved.{list_del-AreHeld}
use longan_chkout.AioStress.Active.Settled.{count_end}

pub record IsWalking (w : Walk) (active built finished : List ℕ) : Type 0 where
  pub held : AreHeld w.thread.links w.thread.active w.built w.thread.finished active built finished
  pub left :
      (x : ℕ) → 0 < count x active → (w.thread.opers x).started_ios < (w.thread.opers x).total_ios
  pub unbuilt : (x : ℕ) → count x built ≡ 0 → w.ios x ≡ 0
  pub within :
      (x : ℕ)
      → 0 < count x built
      → (w.thread.opers x).started_ios + w.ios x ≤ (w.thread.opers x).total_ios
  pub done :
      (x : ℕ) → 0 < count x finished → (w.thread.opers x).started_ios ≡ (w.thread.opers x).total_ios
  pub size : length built ≤ w.num_built

pub same_test : (x : ℕ) → (x == x) ≡ true
same_test x = ground arith

pub other_test : (x y : ℕ) → ¬ (x ≡ y) → (x == y) ≡ false
other_test x y differ = ground (arith, differ)

-- Every address in a list is another one than one that is not in it.
pub apart_from : (oper : ℕ) (l : List ℕ) → count oper l ≡ 0 → (x : ℕ) → 0 < count x l → ¬ (oper ≡ x)
apart_from oper l none_of x some_of e =
    omega (arith, none_of, subst (λ y. 0 < count y l) (sym e) some_of)

pub set_oper_same : (opers : ℕ → IoOper) (at : ℕ) (oper : IoOper) → set_oper opers at oper at ≡ oper
unfolding set_oper
set_oper_same opers at oper = ap (λ b. if b then oper else opers at) (same_test at)

pub set_oper_other :
    (opers : ℕ → IoOper) (at : ℕ) (oper : IoOper) (x : ℕ)
    → ¬ (at ≡ x)
    → set_oper opers at oper x ≡ opers x
unfolding set_oper
set_oper_other opers at oper x differ =
    ap (λ b. if b then oper else opers x) (other_test x at (λ e. differ (sym e)))

-- An operation with ios left is built.
pub build_one-IsWalking :
    (page : ℕ) (rand : ℕ → ℕ) (io_iter oper : ℕ) (w : Walk) (before behind built finished : List ℕ)
    → IsWalking w (before ++ (oper ∷ behind)) built finished
    → IsWalking
        (build_one page rand io_iter oper w)
        (before ++ behind)
        (built ++ (oper ∷ []))
        finished
unfolding build_one
build_one-IsWalking page rand io_iter oper w before behind built finished s = record {
  held =
      list_del-AreHeld w.thread.links oper w.thread.active w.built w.thread.finished before behind
        built finished s.held;
  left = λ x some_of.
      subst (λ o. o.started_ios < o.total_ios)
        (sym (changed x (apart_from oper (before ++ behind) (omega (arith, own, once)) x some_of)))
        (s.left x (omega (arith, some_of, count_taken x oper before behind)));
  unbuilt = λ x none_of.
      assign_other w.ios oper nr x (not_oper x none_of)
      ∙ s.unbuilt x (omega (arith, none_of, count_added x oper built));
  within =
      count_end P oper built
        (λ x some_of.
          let apart = apart_from oper built (omega (arith, own, once)) x some_of in
          subst (λ o. o.started_ios + assign w.ios oper nr x ≤ o.total_ios) (sym (changed x apart))
            (subst (λ n. (w.thread.opers x).started_ios + n ≤ (w.thread.opers x).total_ios)
              (sym (assign_other w.ios oper nr x apart)) (s.within x some_of)))
        (subst (λ o. o.started_ios + assign w.ios oper nr oper ≤ o.total_ios)
          (sym (set_oper_same w.thread.opers oper out))
          (omega (
            arith,
            counted.started,
            counted.total,
            assign_same w.ios oper nr,
            many,
            clipped_bound io_iter (w.thread.opers oper) (omega (arith, ios_left)),
          )));
  done = λ x some_of.
      subst (λ o. o.started_ios ≡ o.total_ios)
        (sym (changed x (apart_from oper finished (omega (arith, own, once)) x some_of)))
        (s.done x some_of);
  size = omega (
    arith,
    s.size,
    length-append built oper,
    many,
    clipped_positive io_iter (w.thread.opers oper) ios_left,
  );
}
  where
    out : IoOper
    out = (build_oper page rand w.draws io_iter (w.thread.opers oper)).1

    nr : ℕ
    nr = length (build_oper page rand w.draws io_iter (w.thread.opers oper)).0

    P : ℕ → Type 0
    P x =
        (set_oper w.thread.opers oper out x).started_ios + assign w.ios oper nr x
        ≤ (set_oper w.thread.opers oper out x).total_ios

    own : count oper (before ++ (oper ∷ behind)) ≡ 1 + count oper (before ++ behind)
    own = ground (arith, count_taken oper oper before behind)

    once : count oper (before ++ (oper ∷ behind)) + count oper built + count oper finished ≤ 1
    once = s.held.once oper

    ios_left : (w.thread.opers oper).started_ios < (w.thread.opers oper).total_ios
    ios_left = s.left oper (omega (arith, own))

    counted : IsCounted (w.thread.opers oper) out
    counted = build_oper-IsCounted page rand w.draws io_iter (w.thread.opers oper)

    many : nr ≡ clipped io_iter (w.thread.opers oper)
    many = length-build_oper page rand w.draws io_iter (w.thread.opers oper)

    changed : (x : ℕ) → ¬ (oper ≡ x) → set_oper w.thread.opers oper out x ≡ w.thread.opers x
    changed x = set_oper_other w.thread.opers oper out x

    not_oper : (x : ℕ) → count x (built ++ (oper ∷ [])) ≡ 0 → ¬ (oper ≡ x)
    not_oper x none_of e = ground (arith, none_of, count_added x oper built, e)
