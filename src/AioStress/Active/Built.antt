-- ===== src/AioStress/Active/Built.antt =====
-- What building the ios of an operation leaves of its counters, and how many ios there are.
use longan_chkout.Base.{ℕ, zero, suc, ◌+◌, ◌<◌, ◌≡◌, refl, ap, ◌∙◌, arith, ◌⊎◌, inl, inr}
use longan_chkout.Base.Lists.{length}
use longan_chkout.AioStress.{
  Stage, write, read, rwrite, rread, IoOper, build_iocb, build_ios, clipped, build_oper,
}

-- The counters of an operation that no building changes.
pub record IsCounted (before after : IoOper) : Type 0 where
  pub started : after.started_ios ≡ before.started_ios
  pub total : after.total_ios ≡ before.total_ios

Stage-cases : (s : Stage) → (s ≡ write) ⊎ ((s ≡ read) ⊎ ((s ≡ rwrite) ⊎ (s ≡ rread)))
Stage-cases write = inl refl
Stage-cases read = inr (inl refl)
Stage-cases rwrite = inr (inr (inl refl))
Stage-cases rread = inr (inr (inr refl))

build_iocb-IsCounted :
    (page r r1 : ℕ) (oper : IoOper) → IsCounted oper (build_iocb page r r1 oper).1
unfolding build_iocb
build_iocb-IsCounted page r r1 oper = elim (Stage-cases oper.rw) [
  | inl e ↦ record { started = ground (arith, e); total = ground (arith, e) }
  | inr (inl e) ↦ record { started = ground (arith, e); total = ground (arith, e) }
  | inr (inr (inl e)) ↦ record { started = ground (arith, e); total = ground (arith, e) }
  | inr (inr (inr e)) ↦ record { started = ground (arith, e); total = ground (arith, e) }
]

build_ios-IsCounted :
    (page : ℕ) (rand : ℕ → ℕ) (i n : ℕ) (oper : IoOper)
    → IsCounted oper (build_ios page rand i n oper).1
unfolding build_ios
build_ios-IsCounted page rand i zero oper = record { started = refl; total = refl }
build_ios-IsCounted page rand i (suc n) oper =
    let one = build_iocb-IsCounted page (rand i) (rand (i + 1)) oper in
    let rest =
      build_ios-IsCounted page rand (i + 2) n (build_iocb page (rand i) (rand (i + 1)) oper).1 in
    record { started = rest.started ∙ one.started; total = rest.total ∙ one.total }

length-build_ios :
    (page : ℕ) (rand : ℕ → ℕ) (i n : ℕ) (oper : IoOper)
    → length (build_ios page rand i n oper).0 ≡ n
unfolding build_ios length
length-build_ios page rand i zero oper = refl
length-build_ios page rand i (suc n) oper = ap suc (length-build_ios page rand (i + 2) n _)

pub build_oper-IsCounted :
    (page : ℕ) (rand : ℕ → ℕ) (i num_ios : ℕ) (oper : IoOper)
    → IsCounted oper (build_oper page rand i num_ios oper).1
unfolding build_oper
build_oper-IsCounted page rand i num_ios oper =
    build_ios-IsCounted page rand i (clipped num_ios oper) oper

pub length-build_oper :
    (page : ℕ) (rand : ℕ → ℕ) (i num_ios : ℕ) (oper : IoOper)
    → length (build_oper page rand i num_ios oper).0 ≡ clipped num_ios oper
unfolding build_oper
length-build_oper page rand i num_ios oper =
    length-build_ios page rand i (clipped num_ios oper) oper

-- With ios left there is one to build.
pub clipped_positive :
    (num_ios : ℕ) (oper : IoOper) → oper.started_ios < oper.total_ios → 0 < clipped num_ios oper
unfolding clipped
clipped_positive num_ios oper left = ground (arith, left)
