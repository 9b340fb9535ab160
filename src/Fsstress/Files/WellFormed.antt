-- ===== src/Fsstress/Files/WellFormed.antt =====
-- The invariant of the lists and of the cache, and that the operations on them keep it.
use longan_chkout.Base.{
  ℕ, ◌+◌, ◌-◌, ◌%◌, ◌≤◌, ◌<◌, ◌≡◌, ◌≢◌, refl, ◌∙◌, sym, ap, some, arith, ◌==◌, if◌then◌else◌, inl,
  inr, Bool-cases, tests,
}
use longan_chkout.Fsstress.Files.{
  Fent, Files, ft_dir, ndcache, set_flist, add_to_flist, is_for, dcache_purge, purge_dir,
  del_from_flist,
}

-- Identifiers are below `nameseq` and differ within a list, the lists fit their arrays, and each
-- entry of the cache is the slot of a directory whose identifier belongs there.
pub record IsWellFormed (s : Files) : Type 0 where
  pub fits : (ft : ℕ) → (s.flist ft).nfiles ≤ (s.flist ft).nslots
  pub fresh : (ft j : ℕ) → j < (s.flist ft).nfiles → ((s.flist ft).fents j).id < s.nameseq
  pub unique :
      (ft i j : ℕ)
      → i < (s.flist ft).nfiles
      → j < (s.flist ft).nfiles
      → ((s.flist ft).fents i).id ≡ ((s.flist ft).fents j).id
      → i ≡ j
  pub inside : (h slot : ℕ) → s.dcache h ≡ some slot → slot < (s.flist ft_dir).nfiles
  pub hashed :
      (h slot : ℕ) → s.dcache h ≡ some slot → ((s.flist ft_dir).fents slot).id % ndcache ≡ h

pub add_to_flist-IsWellFormed :
    (ft : ℕ) (f : Fent) (s : Files)
    → f.id < s.nameseq
    → ((j : ℕ) → j < (s.flist ft).nfiles → ((s.flist ft).fents j).id ≢ f.id)
    → IsWellFormed s
    → IsWellFormed (add_to_flist ft f s)
unfolding add_to_flist set_flist
add_to_flist-IsWellFormed ft f s below new v = record {
  fits = λ i. ground (arith, v.fits i, v.fits ft);
  fresh = λ i j l. ground (arith, v.fresh i j, v.fresh ft j, l, below);
  unique =
      λ i a b la lb e. ground (arith, v.unique i a b, v.unique ft a b, new a, new b, la, lb, e);
  inside = λ h slot e. ground (arith, v.inside h slot e);
  hashed = λ h slot e. ground (arith, v.inside h slot e, v.hashed h slot e);
}

-- Purging drops entries of the cache and changes nothing else.
pub purge-flist : (id : ℕ) (s : Files) → (dcache_purge id s).flist ≡ s.flist
unfolding dcache_purge
purge-flist id s = ground arith

pub purge-nameseq : (id : ℕ) (s : Files) → (dcache_purge id s).nameseq ≡ s.nameseq
unfolding dcache_purge
purge-nameseq id s = ground arith

pub purge_drops :
    (id h t : ℕ) (s : Files) → (dcache_purge id s).dcache h ≡ some t → s.dcache h ≡ some t
unfolding dcache_purge
purge_drops id h t s e = ground (arith, e)

-- No entry for the slot is left behind its purge.
pub purge_clears :
    (slot h : ℕ) (s : Files)
    → IsWellFormed s
    → (dcache_purge ((s.flist ft_dir).fents slot).id s).dcache h ≢ some slot
unfolding dcache_purge is_for
purge_clears slot h s v e = clears (
    purge_drops ((s.flist ft_dir).fents slot).id h slot s
      (unfold dcache_purge in (unfold is_for in e)))
  where
    clears : s.dcache h ≡ some slot → ⊥
    clears k = ground (arith, v.hashed h slot k, k, e)

purge-IsWellFormed : (id : ℕ) (s : Files) → IsWellFormed s → IsWellFormed (dcache_purge id s)
purge-IsWellFormed id s v = record {
  fits = rw (purge-flist id s) v.fits;
  fresh = rw (purge-flist id s, purge-nameseq id s) v.fresh;
  unique = rw (purge-flist id s) v.unique;
  inside = λ h t e. rw (purge-flist id s) (v.inside h t (purge_drops id h t s e));
  hashed = λ h t e. rw (purge-flist id s) (v.hashed h t (purge_drops id h t s e));
}

pub purge_dir-IsWellFormed :
    (ft id : ℕ) (s : Files) → IsWellFormed s → IsWellFormed (purge_dir ft id s)
unfolding purge_dir
purge_dir-IsWellFormed ft id s v = elim (Bool-cases (ft == ft_dir)) [
  | inl d ↦ rw d (purge-IsWellFormed id s v)
  | inr o ↦ rw o v
]

pub purge_dir-flist : (ft id : ℕ) (s : Files) → (purge_dir ft id s).flist ≡ s.flist
unfolding purge_dir
purge_dir-flist ft id s = ground (arith, purge-flist id s)

purge_dir-nameseq : (ft id : ℕ) (s : Files) → (purge_dir ft id s).nameseq ≡ s.nameseq
unfolding purge_dir
purge_dir-nameseq ft id s = ground (arith, purge-nameseq id s)

-- A list without its last entry, which the cache does not name. The list is what it was in `s0`.
drop_last :
    (ft : ℕ) (s0 s : Files)
    → s.flist ≡ s0.flist
    → 0 < (s0.flist ft).nfiles
    → (ft ≡ ft_dir → (h : ℕ) → s.dcache h ≢ some ((s0.flist ft).nfiles - 1))
    → IsWellFormed s
    → IsWellFormed (set_flist ft (record (s0.flist ft) { nfiles = (s0.flist ft).nfiles - 1 }) s)
unfolding set_flist
drop_last ft s0 s same p gone v = record {
  fits = λ i. ground (arith, at_ft, v.fits i, v.fits ft);
  fresh = λ i j l. ground (arith, at_ft, v.fresh i j, v.fresh ft j, l);
  unique = λ i a b la lb e. ground (arith, at_ft, v.unique i a b, v.unique ft a b, la, lb, e);
  inside = λ h slot e. ground (arith, at_ft, v.inside h slot e, gone_at h slot e);
  hashed = λ h slot e. ground (arith, at_ft, v.hashed h slot e);
}
  where
    at_ft : s0.flist ft ≡ s.flist ft
    at_ft = ap (λ f. f ft) (sym same)

    gone_at : (h slot : ℕ) → s.dcache h ≡ some slot → ft ≡ ft_dir → slot ≢ (s0.flist ft).nfiles - 1
    gone_at h slot e d q = gone d h (cc (e, q))

-- The last entry over another one, both of which the cache does not name.
move_last :
    (ft slot : ℕ) (s0 s : Files)
    → s.flist ≡ s0.flist
    → slot + 1 < (s0.flist ft).nfiles
    → (ft ≡ ft_dir
        → (h : ℕ) → (s.dcache h ≢ some slot) × (s.dcache h ≢ some ((s0.flist ft).nfiles - 1)))
    → IsWellFormed s
    → IsWellFormed (
        set_flist ft
          (record (s0.flist ft) {
            nfiles = (s0.flist ft).nfiles - 1;
            fents = λ j.
                if j == slot
                then (s0.flist ft).fents ((s0.flist ft).nfiles - 1)
                else (s0.flist ft).fents j;
          })
          s)
unfolding set_flist
move_last ft slot s0 s same p gone v = record {
  fits = λ i. ground (arith, at_ft, v.fits i, v.fits ft);
  fresh = λ i j l. ground (arith, at_ft, v.fresh i j, v.fresh ft j, v.fresh ft last, l);
  unique = λ i a b la lb e. ground (
    arith,
    at_ft,
    v.unique i a b,
    v.unique ft a b,
    v.unique ft last b,
    v.unique ft a last,
    la,
    lb,
    e,
  );
  inside = λ h t e. ground (arith, at_ft, v.inside h t e, gone_at h t e);
  hashed = λ h t e. ground (arith, at_ft, v.hashed h t e, gone_at h t e);
}
  where
    last : ℕ
    last = (s0.flist ft).nfiles - 1

    at_ft : s0.flist ft ≡ s.flist ft
    at_ft = ap (λ f. f ft) (sym same)

    gone_at : (h t : ℕ) → s.dcache h ≡ some t → ft ≡ ft_dir → (t ≢ slot) × (t ≢ last)
    gone_at h t e d = ((λ q. (gone d h).0 (cc (e, q))), (λ q. (gone d h).1 (cc (e, q))))

-- For a directory, the purge of its identifier clears the cache of its slot.
purge_dir_clears :
    (ft slot : ℕ) (s0 s : Files)
    → s.flist ≡ s0.flist
    → ft ≡ ft_dir
    → IsWellFormed s
    → (h : ℕ) → (purge_dir ft ((s0.flist ft).fents slot).id s).dcache h ≢ some slot
unfolding purge_dir
purge_dir_clears ft slot s0 s same d v h e = purge_clears slot h s v (sym swap ∙ e)
  where
    swap :
        (if ft == ft_dir then dcache_purge ((s0.flist ft).fents slot).id s else s).dcache h
        ≡ (dcache_purge ((s.flist ft_dir).fents slot).id s).dcache h
    swap = rw (d, same) refl

purge_dir_drops :
    (ft id h t : ℕ) (s : Files) → (purge_dir ft id s).dcache h ≡ some t → s.dcache h ≡ some t
unfolding purge_dir
purge_dir_drops ft id h t s e = ground (arith, purge_drops id h t s, e)

pub del_from_flist-IsWellFormed :
    (ft slot : ℕ) (s : Files)
    → slot < (s.flist ft).nfiles
    → IsWellFormed s
    → IsWellFormed (del_from_flist ft slot s)
unfolding del_from_flist
del_from_flist-IsWellFormed ft slot s l v = elim (Bool-cases (slot + 1 == (s.flist ft).nfiles)) [
  | inl at_end ↦
      rw at_end (drop_last ft s s1 f1 (omega (tests, l)) (end_gone (omega (tests, at_end))) v1)
  | inr before ↦ rw before (move_last ft slot s s2 f2 (omega (tests, l, before)) both_gone v2)
]
  where
    last : ℕ
    last = (s.flist ft).nfiles - 1

    s1 : Files
    s1 = purge_dir ft ((s.flist ft).fents slot).id s

    s2 : Files
    s2 = purge_dir ft ((s.flist ft).fents last).id s1

    f1 : s1.flist ≡ s.flist
    f1 = purge_dir-flist ft ((s.flist ft).fents slot).id s

    f2 : s2.flist ≡ s.flist
    f2 = purge_dir-flist ft ((s.flist ft).fents last).id s1 ∙ f1

    v1 : IsWellFormed s1
    v1 = purge_dir-IsWellFormed ft ((s.flist ft).fents slot).id s v

    v2 : IsWellFormed s2
    v2 = purge_dir-IsWellFormed ft ((s.flist ft).fents last).id s1 v1

    slot_gone : ft ≡ ft_dir → (h : ℕ) → s1.dcache h ≢ some slot
    slot_gone d h = purge_dir_clears ft slot s s refl d v h

    end_gone : slot ≡ last → ft ≡ ft_dir → (h : ℕ) → s1.dcache h ≢ some last
    end_gone e d h q = slot_gone d h (q ∙ ap some (sym e))

    both_gone : ft ≡ ft_dir → (h : ℕ) → (s2.dcache h ≢ some slot) × (s2.dcache h ≢ some last)
    both_gone d h = (
      (λ q. slot_gone d h (purge_dir_drops ft ((s.flist ft).fents last).id h slot s1 q)),
      purge_dir_clears ft last s s1 f1 d v1 h,
    )

pub del-nameseq : (ft slot : ℕ) (s : Files) → (del_from_flist ft slot s).nameseq ≡ s.nameseq
unfolding del_from_flist set_flist
del-nameseq ft slot s = ground (arith, first, second)
  where
    last : ℕ
    last = ((s.flist ft).fents ((s.flist ft).nfiles - 1)).id

    first : (purge_dir ft ((s.flist ft).fents slot).id s).nameseq ≡ s.nameseq
    first = purge_dir-nameseq ft ((s.flist ft).fents slot).id s

    second :
        (purge_dir ft last (purge_dir ft ((s.flist ft).fents slot).id s)).nameseq
        ≡ (purge_dir ft ((s.flist ft).fents slot).id s).nameseq
    second = purge_dir-nameseq ft last (purge_dir ft ((s.flist ft).fents slot).id s)
