-- ===== src/Fsstress/Files/Cached.antt =====
-- The cache of directories against the search of their list: what a look-up gives, what the
-- search keeps, and that the two agree.
use longan_chkout.Base.{
  ℕ, zero, suc, ◌+◌, ◌%◌, ◌≤◌, ◌<◌, ◌≡◌, ◌≢◌, refl, ◌∙◌, sym, ap, Option, none, some, arith,
  if◌then◌else◌,
}
use longan_chkout.Fsstress.Files.{
  Fent, Files, ft_dir, ndcache, is_for, dcache_enter, dcache_lookup, find_slot, enter_found,
  or_search, dirid_to_fent,
}
use longan_chkout.Fsstress.Files.WellFormed.{IsWellFormed}

-- Where the search looks.
pub find_slot-bounds :
    (fents : ℕ → Fent) (dirid i n t : ℕ)
    → find_slot fents dirid i n ≡ some t
    → (t < i + n) × ((fents t).id ≡ dirid)
unfolding find_slot
find_slot-bounds fents dirid i zero t e = ground (arith, e)
find_slot-bounds fents dirid i (suc n) t e =
    ground (arith, e, find_slot-bounds fents dirid (i + 1) n t)

-- The search misses no entry.
find_slot-misses :
    (fents : ℕ → Fent) (dirid i n j : ℕ)
    → find_slot fents dirid i n ≡ none
    → i ≤ j
    → j < i + n
    → (fents j).id ≢ dirid
unfolding find_slot
find_slot-misses fents dirid i zero j e l m q = absurd (omega (arith, l, m))
find_slot-misses fents dirid i (suc n) j e l m q =
    ground (arith, e, l, m, q, find_slot-misses fents dirid (i + 1) n j)

-- The search of the list finds an entry of it.
pub directory_found :
    (s : Files) (dirid t : ℕ)
    → find_slot (s.flist ft_dir).fents dirid 0 (s.flist ft_dir).nfiles ≡ some t
    → (t < (s.flist ft_dir).nfiles) × (((s.flist ft_dir).fents t).id ≡ dirid)
directory_found s dirid t q = (omega (arith, b.0), b.1)
  where
    b : (t < 0 + (s.flist ft_dir).nfiles) × (((s.flist ft_dir).fents t).id ≡ dirid)
    b = find_slot-bounds (s.flist ft_dir).fents dirid 0 (s.flist ft_dir).nfiles t q

-- What a look-up in the cache gives is the slot of the directory.
pub dcache_lookup-finds :
    (dirid t : ℕ) (s : Files)
    → dcache_lookup dirid s ≡ some t
    → (s.dcache (dirid % ndcache) ≡ some t) × (((s.flist ft_dir).fents t).id ≡ dirid)
unfolding dcache_lookup is_for
dcache_lookup-finds dirid t s e = finds (s.dcache (dirid % ndcache)) (unfold dcache_lookup in e)
  where
    finds :
        (o : Option ℕ)
        → (if is_for dirid (s.flist ft_dir).fents o then o else none) ≡ some t
        → (o ≡ some t) × (((s.flist ft_dir).fents t).id ≡ dirid)
    finds none q = ground (arith, q)
    finds (some u) q = ground (arith, q)

-- An entry of the list is the only one the search gives for its identifier.
pub find_slot_unique :
    (s : Files) (dirid t : ℕ)
    → IsWellFormed s
    → t < (s.flist ft_dir).nfiles
    → ((s.flist ft_dir).fents t).id ≡ dirid
    → find_slot (s.flist ft_dir).fents dirid 0 (s.flist ft_dir).nfiles ≡ some t
find_slot_unique s dirid t v l e =
    found (find_slot (s.flist ft_dir).fents dirid 0 (s.flist ft_dir).nfiles) refl
  where
    found :
        (o : Option ℕ)
        → find_slot (s.flist ft_dir).fents dirid 0 (s.flist ft_dir).nfiles ≡ o
        → find_slot (s.flist ft_dir).fents dirid 0 (s.flist ft_dir).nfiles ≡ some t
    found none q = absurd (
        find_slot-misses (s.flist ft_dir).fents dirid 0 (s.flist ft_dir).nfiles t q (omega arith)
          (omega (arith, l)) e)
    found (some u) q = q ∙ ap some (v.unique ft_dir u t b.0 l (b.1 ∙ sym e))
      where
        b : (u < (s.flist ft_dir).nfiles) × (((s.flist ft_dir).fents u).id ≡ dirid)
        b = directory_found s dirid u q

enter_found-slot : (dirid : ℕ) (o : Option ℕ) (s : Files) → (enter_found dirid o s).0 ≡ o
unfolding enter_found
enter_found-slot dirid none s = refl
enter_found-slot dirid (some t) s = refl

-- In a well-formed state, `dirid_to_fent` gives what the search of the list of directories gives,
-- with or without an entry in the cache.
pub dirid_to_fent_lem :
    (dirid : ℕ) (s : Files)
    → IsWellFormed s
    → (dirid_to_fent dirid s).0 ≡ find_slot (s.flist ft_dir).fents dirid 0 (s.flist ft_dir).nfiles
unfolding dirid_to_fent or_search
dirid_to_fent_lem dirid s v = agrees (dcache_lookup dirid s) refl
  where
    agrees :
        (o : Option ℕ)
        → dcache_lookup dirid s ≡ o
        → (or_search dirid o s).0 ≡ find_slot (s.flist ft_dir).fents dirid 0 (s.flist ft_dir).nfiles
    agrees none q =
        enter_found-slot dirid (find_slot (s.flist ft_dir).fents dirid 0 (s.flist ft_dir).nfiles) s
    agrees (some t) q =
        sym (find_slot_unique s dirid t v (v.inside (dirid % ndcache) t held.0) held.1)
      where
        held : (s.dcache (dirid % ndcache) ≡ some t) × (((s.flist ft_dir).fents t).id ≡ dirid)
        held = dcache_lookup-finds dirid t s q

-- Entering the slot of a directory keeps the invariant.
dcache_enter-IsWellFormed :
    (dirid t : ℕ) (s : Files)
    → t < (s.flist ft_dir).nfiles
    → ((s.flist ft_dir).fents t).id ≡ dirid
    → IsWellFormed s
    → IsWellFormed (dcache_enter dirid t s)
unfolding dcache_enter
dcache_enter-IsWellFormed dirid t s l e v = record {
  fits = v.fits;
  fresh = v.fresh;
  unique = v.unique;
  inside = λ h u q. ground (arith, q, l, v.inside h u);
  hashed = λ h u q. ground (arith, q, e, v.hashed h u);
}

pub dirid_to_fent-IsWellFormed :
    (dirid : ℕ) (s : Files) → IsWellFormed s → IsWellFormed (dirid_to_fent dirid s).1
unfolding dirid_to_fent or_search enter_found
dirid_to_fent-IsWellFormed dirid s v = kept (dcache_lookup dirid s)
  where
    entered :
        (o : Option ℕ)
        → find_slot (s.flist ft_dir).fents dirid 0 (s.flist ft_dir).nfiles ≡ o
        → IsWellFormed (enter_found dirid o s).1
    entered none q = v
    entered (some t) q = dcache_enter-IsWellFormed dirid t s b.0 b.1 v
      where
        b : (t < (s.flist ft_dir).nfiles) × (((s.flist ft_dir).fents t).id ≡ dirid)
        b = directory_found s dirid t q

    kept : (o : Option ℕ) → IsWellFormed (or_search dirid o s).1
    kept none = entered (find_slot (s.flist ft_dir).fents dirid 0 (s.flist ft_dir).nfiles) refl
    kept (some t) = v

-- A search changes only the cache.
pub dirid_to_fent-same :
    (dirid : ℕ) (s : Files)
    → ((dirid_to_fent dirid s).1.flist ≡ s.flist) × ((dirid_to_fent dirid s).1.nameseq ≡ s.nameseq)
unfolding dirid_to_fent or_search enter_found dcache_enter
dirid_to_fent-same dirid s = same (dcache_lookup dirid s)
  where
    entered :
        (o : Option ℕ)
        → ((enter_found dirid o s).1.flist ≡ s.flist)
          × ((enter_found dirid o s).1.nameseq ≡ s.nameseq)
    entered none = (refl, refl)
    entered (some t) = (refl, refl)

    same :
        (o : Option ℕ)
        → ((or_search dirid o s).1.flist ≡ s.flist) × ((or_search dirid o s).1.nameseq ≡ s.nameseq)
    same none = entered (find_slot (s.flist ft_dir).fents dirid 0 (s.flist ft_dir).nfiles)
    same (some t) = (refl, refl)
