-- ===== src/AioStress/Stages.antt =====
-- An operation goes through its stages in their order, each at most once.
use longan_chkout.Base.{
  ℕ, ◌<◌, ◌≡◌, ◌⊎◌, refl, Bool, true, false, Option, none, some, ◌==◌, arith, subst, inl, inr,
  Bool-cases,
}
use longan_chkout.AioStress.{Stage, write, read, rwrite, rread, IoOper, next_stage, restart_oper}

-- The number of a stage.
pub rank : Stage → ℕ
rank write = 0
rank read = 1
rank rwrite = 2
rank rread = 3

next_stage-rank :
    (stages : Stage → Bool) (rw new : Stage)
    → next_stage stages rw ≡ some new
    → (stages new ≡ true) × (rank rw < rank new)
unfolding next_stage rank
next_stage-rank stages write new e = ground (arith, e)
next_stage-rank stages read new e = ground (arith, e)
next_stage-rank stages rwrite new e = ground (arith, e)
next_stage-rank stages rread new e = ground (arith, e)

-- No stage is passed over.
next_stage-first :
    (stages : Stage → Bool) (rw new s : Stage)
    → next_stage stages rw ≡ some new
    → rank rw < rank s
    → rank s < rank new
    → stages s ≡ false
unfolding next_stage rank
next_stage-first stages write new s e l m = ground (arith, e, l, m)
next_stage-first stages read new s e l m = ground (arith, e, l, m)
next_stage-first stages rwrite new s e l m = ground (arith, e, l, m)
next_stage-first stages rread new s e l m = ground (arith, e, l, m)

-- None is left where there is no next one.
next_stage-last :
    (stages : Stage → Bool) (rw s : Stage)
    → next_stage stages rw ≡ none
    → rank rw < rank s
    → stages s ≡ false
unfolding next_stage rank
next_stage-last stages write s e l = ground (arith, e, l)
next_stage-last stages read s e l = ground (arith, e, l)
next_stage-last stages rwrite s e l = ground (arith, e, l)
next_stage-last stages rread s e l = ground (arith, e, l)

-- The operation stands at the first stage asked for behind its own, and at the start of it.
pub record IsRestarted (stages : Stage → Bool) (oper new : IoOper) : Type 0 where
  pub asked : stages new.rw ≡ true
  pub later : rank oper.rw < rank new.rw
  pub first : (s : Stage) → rank oper.rw < rank s → rank s < rank new.rw → stages s ≡ false
  pub total : new.total_ios ≡ oper.total_ios
  pub from_start : (new.started_ios ≡ 0) × (new.last_offset ≡ oper.start)

restarted :
    (stages : Stage → Bool) (oper : IoOper) (o : Option Stage) (new : IoOper)
    → next_stage stages oper.rw ≡ o
    → (elim o [
      | none ↦ none
      | some rw ↦
          some (record oper {
            started_ios = 0;
            last_offset = oper.start;
            stonewalled = false;
            rw = rw;
          })
    ])
      ≡ some new
    → IsRestarted stages oper new
restarted stages oper none new q e = absurd (ground (arith, e))
restarted stages oper (some rw) new q e =
    subst (λ x. IsRestarted stages oper x) (option_same e)
      (record {
        asked = (next_stage-rank stages oper.rw rw q).0;
        later = (next_stage-rank stages oper.rw rw q).1;
        first = λ s l m. next_stage-first stages oper.rw rw s q l m;
        total = refl;
        from_start = (refl, refl);
      })
  where
    option_same : {x y : IoOper} → some x ≡ some y → x ≡ y
    option_same h = ground (arith, h)

-- Where `restart_oper` restarts an operation, it does so in the first of the stages asked for
-- behind its own, with no io started, as many ios as before, and the next offset at the start of
-- its part of the file.
pub restart_oper-IsRestarted :
    (stages : Stage → Bool) (oper new : IoOper)
    → restart_oper stages oper ≡ some new
    → IsRestarted stages oper new
unfolding restart_oper
restart_oper-IsRestarted stages oper new e = elim (Bool-cases (oper.last_err == 0)) [
  | inl ok ↦ restarted stages oper (next_stage stages oper.rw) new refl (rw ok at e)
  | inr err ↦ absurd (ground (arith, err, e))
]

-- An operation that is not restarted: an error was hit, or no stage behind its own is asked for.
pub IsOver : (Stage → Bool) → IoOper → Type 0
IsOver stages oper =
    (¬ (oper.last_err ≡ 0)) ⊎ ((s : Stage) → rank oper.rw < rank s → stages s ≡ false)

over_stages :
    (stages : Stage → Bool) (oper : IoOper) (o : Option Stage)
    → next_stage stages oper.rw ≡ o
    → (elim o [
      | none ↦ none
      | some rw ↦
          some (record oper {
            started_ios = 0;
            last_offset = oper.start;
            stonewalled = false;
            rw = rw;
          })
    ])
      ≡ none
    → (s : Stage) → rank oper.rw < rank s
    → stages s ≡ false
over_stages stages oper none q e s l = next_stage-last stages oper.rw s q l
over_stages stages oper (some rw) q e s l = absurd (ground (arith, e))

pub restart_oper-IsOver :
    (stages : Stage → Bool) (oper : IoOper) → restart_oper stages oper ≡ none → IsOver stages oper
unfolding restart_oper IsOver
restart_oper-IsOver stages oper e = elim (Bool-cases (oper.last_err == 0)) [
  | inl ok ↦ inr (over_stages stages oper (next_stage stages oper.rw) refl (rw ok at e))
  | inr err ↦ inl (ground (arith, err))
]
