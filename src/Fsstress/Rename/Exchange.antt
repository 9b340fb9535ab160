-- ===== src/Fsstress/Rename/Exchange.antt =====
-- `fix_parent` called again undoes an exchange of children.
use longan_chkout.Base.{
  ℕ, ◌≡◌, refl, fun_ext, true, ap, inl, inr, Bool-cases, Option, none, some, arith, ltb,
}
use longan_chkout.Fsstress.Files.{Files, ft_nft}
use longan_chkout.Fsstress.Tree.{new_parent, fix_parent}

new_parent-involutive : (a b : ℕ) (p : Option ℕ) → new_parent a b true (new_parent a b true p) ≡ p
unfolding new_parent
new_parent-involutive a b none = refl
new_parent-involutive a b (some p) = ground arith

pub fix_parent-involutive : (a b : ℕ) (s : Files) → fix_parent a b true (fix_parent a b true s) ≡ s
unfolding fix_parent
fix_parent-involutive a b s = ap (λ l. record s { flist = l }) (fun_ext lists)
  where
    lists : (ft : ℕ) → (fix_parent a b true (fix_parent a b true s)).flist ft ≡ s.flist ft
    lists ft = elim (Bool-cases (ltb ft ft_nft)) [
      | inl h ↦ rw h (
          ap (λ f. record (s.flist ft) { fents = f })
            (fun_ext (λ j. elim (Bool-cases (ltb j (s.flist ft).nfiles)) [
              | inl inside ↦ rw inside (
                  ap (λ p. record ((s.flist ft).fents j) { parent = p })
                    (new_parent-involutive a b ((s.flist ft).fents j).parent))
              | inr behind ↦ rw behind refl
            ])))
      | inr h ↦ rw h refl
    ]
