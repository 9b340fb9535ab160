-- ===== src/Fsstress/Tree/Chosen.antt =====
-- `get_fname` draws a file of the types asked for whenever there is one.
use longan_chkout.Base.{
  ℕ, zero, suc, ◌+◌, ◌-◌, ◌%◌, ◌≤◌, ◌<◌, ◌≡◌, refl, subst, ◌∙◌, ap, true, false, Option, some,
  arith, ◌==◌, ltb, inl, inr, Bool-cases, tests,
}
use native.Mathlib.Nat.{mod-lt, mod-eq_of_lt}
use longan_chkout.Fsstress.Files.{Files, ft_nft}
use longan_chkout.Fsstress.Tree.{is_in, totalsum, nth_file, find_file}

-- The type and the slot of a file that `which` has.
pub record IsFile (which : ℕ) (s : Files) (at : ℕ × ℕ) : Type 0 where
  pub asked : is_in which at.0 ≡ true
  pub typed : at.0 < ft_nft
  pub inside : at.1 < (s.flist at.0).nfiles

nth_file-IsFile :
    (which x partialsum i n : ℕ) (s : Files)
    → partialsum ≤ x
    → x < partialsum + totalsum which i n s
    → i + n ≤ ft_nft
    → (at : ℕ × ℕ) × (nth_file which x partialsum i n s ≡ some at) × IsFile which s at
unfolding nth_file totalsum
nth_file-IsFile which x partialsum i zero s p l m = absurd (omega (arith, p, l))
nth_file-IsFile which x partialsum i (suc n) s p l m = elim (Bool-cases (is_in which i)) [
  | inl has ↦ elim (Bool-cases (ltb x (partialsum + (s.flist i).nfiles))) [
    | inl here ↦ (
      (i, x - partialsum),
      rw (has, here) refl,
      record { asked = has; typed = omega (arith, m); inside = omega (tests, here, p) },
    )
    | inr on ↦
        rw (has, on)
          (nth_file-IsFile which x (partialsum + (s.flist i).nfiles) (i + 1) n s (omega (tests, on))
            (ground (arith, has, l)) (omega (arith, m)))
  ]
  | inr other ↦ rw other (
      nth_file-IsFile which x partialsum (i + 1) n s p (ground (arith, other, l))
        (omega (arith, m)))
]

find_file-draws :
    (which r : ℕ) (s : Files)
    → 0 < totalsum which 0 ft_nft s
    → find_file which r s ≡ nth_file which (r % totalsum which 0 ft_nft s) 0 0 ft_nft s
unfolding find_file
find_file-draws which r s l = rw some_files refl
  where
    some_files : (totalsum which 0 ft_nft s == 0) ≡ false
    some_files = ground (arith, l)

pub find_file-IsFile :
    (which r : ℕ) (s : Files)
    → 0 < totalsum which 0 ft_nft s
    → (at : ℕ × ℕ) × (find_file which r s ≡ some at) × IsFile which s at
find_file-IsFile which r s l = (drawn.0, find_file-draws which r s l ∙ drawn.1, drawn.2)
  where
    drawn :
        (at : ℕ × ℕ) × (nth_file which (r % totalsum which 0 ft_nft s) 0 0 ft_nft s ≡ some at)
        × IsFile which s at
    drawn =
        nth_file-IsFile which (r % totalsum which 0 ft_nft s) 0 0 ft_nft s (omega arith)
          (omega (arith, mod-lt r l)) (omega arith)

-- What is drawn is a file, whatever the lists are.
pub find_file_sound :
    (which r : ℕ) (s : Files) (at : ℕ × ℕ) → find_file which r s ≡ some at → IsFile which s at
unfolding find_file
find_file_sound which r s at e = elim (Bool-cases (ltb 0 (totalsum which 0 ft_nft s))) [
  | inl l ↦ sound (find_file-IsFile which r s (omega (tests, l)))
  | inr none_left ↦ absurd (empty (omega (tests, none_left)))
]
  where
    sound : (x : ℕ × ℕ) × (find_file which r s ≡ some x) × IsFile which s x → IsFile which s at
    sound w = subst (λ x. IsFile which s x) (cc (e, w.1)) w.2

    empty : totalsum which 0 ft_nft s ≡ 0 → ⊥
    empty z = ground (arith, z, e)

-- A number under which a file is found.
record IsReached (which partialsum i n : ℕ) (s : Files) (at : ℕ × ℕ) : Type 0 where
  x : ℕ
  above : partialsum ≤ x
  below : x < partialsum + totalsum which i n s
  found : nth_file which x partialsum i n s ≡ some at

nth_file_reaches :
    (which partialsum i n : ℕ) (s : Files) (at : ℕ × ℕ)
    → IsFile which s at
    → i ≤ at.0
    → at.0 < i + n
    → IsReached which partialsum i n s at
unfolding nth_file totalsum
nth_file_reaches which partialsum i zero s at v p l = absurd (omega (arith, p, l))
nth_file_reaches which partialsum i (suc n) s at v p l = elim (Bool-cases (i == at.0)) [
  | inl same ↦ here (omega (tests, same))
  | inr apart ↦ elim (Bool-cases (is_in which i)) [
    | inl has ↦ past has (
        nth_file_reaches which (partialsum + (s.flist i).nfiles) (i + 1) n s at v
          (omega (tests, apart, p)) (omega (arith, l)))
    | inr other ↦ over other (
        nth_file_reaches which partialsum (i + 1) n s at v (omega (tests, apart, p))
          (omega (arith, l)))
  ]
]
  where
    here : i ≡ at.0 → IsReached which partialsum i (suc n) s at
    here e = record {
      x = partialsum + at.1;
      above = omega arith;
      below = ground (arith, e, v.asked, v.inside);
      found = ground (arith, e, v.asked, v.inside);
    }

    past :
        is_in which i ≡ true
        → IsReached which (partialsum + (s.flist i).nfiles) (i + 1) n s at
        → IsReached which partialsum i (suc n) s at
    past has w = record {
      x = w.x;
      above = omega (arith, w.above);
      below = ground (arith, has, w.below);
      found = ground (arith, has, w.above, w.found);
    }

    over :
        is_in which i ≡ false
        → IsReached which partialsum (i + 1) n s at
        → IsReached which partialsum i (suc n) s at
    over other w = record {
      x = w.x;
      above = w.above;
      below = ground (arith, other, w.below);
      found = ground (arith, other, w.found);
    }

-- Each file of the types asked for is what `get_fname` finds for one of the random numbers below
-- the number of such files.
pub find_file_reaches :
    (which : ℕ) (s : Files) (at : ℕ × ℕ)
    → IsFile which s at
    → (r : ℕ) × (r < totalsum which 0 ft_nft s) × (find_file which r s ≡ some at)
find_file_reaches which s at v =
    (w.x, below, find_file-draws which w.x s (omega (arith, below)) ∙ ap number drawn ∙ w.found)
  where
    w : IsReached which 0 0 ft_nft s at
    w = nth_file_reaches which 0 0 ft_nft s at v (omega arith) v.typed

    below : w.x < totalsum which 0 ft_nft s
    below = omega (arith, w.below)

    drawn : w.x % totalsum which 0 ft_nft s ≡ w.x
    drawn = mod-eq_of_lt below

    number : ℕ → Option (ℕ × ℕ)
    number x = nth_file which x 0 0 ft_nft s

-- Only directories are of the mask 1.
pub dirm_only : (i : ℕ) → i < ft_nft → is_in 1 i ≡ true → i ≡ 0
unfolding is_in
dirm_only zero l h = refl
dirm_only (suc zero) l h = ground (arith, h)
dirm_only (suc (suc zero)) l h = ground (arith, h)
dirm_only (suc (suc (suc zero))) l h = ground (arith, h)
dirm_only (suc (suc (suc (suc zero)))) l h = ground (arith, h)
dirm_only (suc (suc (suc (suc (suc i))))) l h = absurd (omega (arith, l))
