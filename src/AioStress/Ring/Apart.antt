-- ===== src/AioStress/Ring/Apart.antt =====
-- Rings in one store, and what a change of one leaves of the others.
use longan_chkout.Base.{
  ℕ, ◌+◌, ◌≤◌, ◌≡◌, refl, sym, ap, subst, List, [], ◌∷◌, ◌++◌, Option, none, some, ◌==◌,
  if◌then◌else◌, arith, Bool-cases, inl, inr,
}
use longan_chkout.Base.Count.{count, count-append}
use longan_chkout.Base.Lists.{Every}
use longan_chkout.AioStress.Ring.{Links, oper_list_add, oper_list_del, unlink, is_only}
use longan_chkout.AioStress.Ring.Linked.{
  IsPath, IsFresh, join, IsPath-join, before_end, after_start, IsPath-split, fresh_sym, Every-split,
}
use longan_chkout.AioStress.Ring.Kept.{
  IsRing, oper_list_add-join, oper_list_del-join, oper_list_add-IsRing, oper_list_del-IsRing,
}

pub count-IsFresh : (x : ℕ) (l : List ℕ) → count x l ≡ 0 → IsFresh x l
unfolding count IsFresh Every
count-IsFresh x [] none_of = tt
count-IsFresh x (y ∷ l) none_of =
    (ground (arith, none_of), count-IsFresh x l (ground (arith, none_of)))

pub IsRing-join :
    (l : Links) (p n : ℕ) (list : Option ℕ) (items : List ℕ)
    → IsFresh p items
    → IsFresh n items
    → IsRing l list items
    → IsRing (join p n l) list items
unfolding IsRing IsFresh Every
IsRing-join l p n none [] p_fresh n_fresh ring = tt
IsRing-join l p n none (x ∷ xs) p_fresh n_fresh ring = absurd ring
IsRing-join l p n (some list) [] p_fresh n_fresh ring = absurd ring
IsRing-join l p n (some list) (x ∷ xs) p_fresh n_fresh (at, path, distinct) =
    (at, IsPath-join l p n x xs x p_fresh n_fresh.1 n_fresh.0 path, distinct)

-- A ring that shares no operation with the one that is changed.
oper_list_add-frame :
    (oper : ℕ) (list : Option ℕ) (items : List ℕ) (l : Links) (list2 : Option ℕ) (items2 : List ℕ)
    → IsRing l list items
    → IsFresh oper items
    → Every (λ x. IsFresh x items2) (oper ∷ items)
    → IsRing l list2 items2
    → IsRing (oper_list_add oper list l).1 list2 items2
unfolding IsRing oper_list_add IsFresh Every join
oper_list_add-frame oper none items l list2 items2 ring new apart ring2 =
    IsRing-join l oper oper list2 items2 apart.0 apart.0 ring2
oper_list_add-frame oper (some list) [] l list2 items2 ring new apart ring2 = absurd ring
oper_list_add-frame oper (some list) (x ∷ xs) l list2 items2 (at, path, distinct) new apart ring2 =
    subst (λ h. IsRing (oper_list_add oper (some h) l).1 list2 items2) (sym at)
      (subst (λ out. IsRing out.1 list2 items2)
        (sym (
          oper_list_add-join oper x l new.0
            (before_end (λ y. ¬ (y ≡ oper)) l x xs x path (fresh_sym oper (x ∷ xs) new))))
        (IsRing-join (join (l.prev x) oper l) oper x list2 items2 apart.0 apart.1.0 (
          IsRing-join l (l.prev x) oper list2 items2
            (before_end (λ y. IsFresh y items2) l x xs x path apart.1) apart.0 ring2)))

unlink-frame :
    (oper list : ℕ) (l : Links) (list2 : Option ℕ) (items2 : List ℕ)
    → IsFresh (l.prev oper) items2
    → IsFresh (l.next oper) items2
    → IsRing l list2 items2
    → IsRing (oper_list_del oper list l).1 list2 items2
unfolding oper_list_del
unlink-frame oper list l list2 items2 p_fresh n_fresh ring2 = elim (Bool-cases (is_only list l)) [
  | inl only ↦
      subst (λ out. IsRing out.1 list2 items2)
        (sym (ap (λ b. if b then (none, l) else unlink oper list l) only)) ring2
  | inr more ↦
      subst (λ out. IsRing out.1 list2 items2) (sym (oper_list_del-join oper list l more))
        (IsRing-join l (l.prev oper) (l.next oper) list2 items2 p_fresh n_fresh ring2)
]

-- The neighbours of an operation of a ring are in the ring.
neighbours :
    (P : ℕ → Type 0) (l : Links) (list oper : ℕ) (before behind : List ℕ)
    → IsRing l (some list) (before ++ (oper ∷ behind))
    → Every P (before ++ (oper ∷ behind))
    → P (l.prev oper) × P (l.next oper)
unfolding IsRing IsPath Every
neighbours P l list oper [] behind (at, path, distinct) all =
    (before_end P l oper behind oper path all, after_start P l oper behind oper path all.1 all.0)
neighbours P l list oper (x ∷ xs) behind (at, path, distinct) all =
    let (to_oper, from_oper) = IsPath-split l x xs oper behind x path in
    let (before, _, after) = Every-split P (x ∷ xs) oper behind all in
    (before_end P l x xs oper to_oper before, after_start P l oper behind x from_oper after all.0)

oper_list_del-frame :
    (oper list : ℕ) (before behind : List ℕ) (l : Links) (list2 : Option ℕ) (items2 : List ℕ)
    → IsRing l (some list) (before ++ (oper ∷ behind))
    → Every (λ x. IsFresh x items2) (before ++ (oper ∷ behind))
    → IsRing l list2 items2
    → IsRing (oper_list_del oper list l).1 list2 items2
oper_list_del-frame oper list before behind l list2 items2 ring apart ring2 =
    let (p_fresh, n_fresh) =
      neighbours (λ x. IsFresh x items2) l list oper before behind ring apart in
    unlink-frame oper list l list2 items2 p_fresh n_fresh ring2

Every-IsFresh : (a b : List ℕ) → ((x : ℕ) → count x a + count x b ≤ 1) → Every (λ x. IsFresh x b) a
unfolding Every count
Every-IsFresh [] b apart = tt
Every-IsFresh (y ∷ a) b apart =
    (count-IsFresh y b (ground (arith, apart y)), Every-IsFresh a b (λ x. ground (arith, apart x)))

-- Three rings in one store, with no operation in two places.
pub record AreHeld (l : Links) (a b c : Option ℕ) (xs ys zs : List ℕ) : Type 0 where
  pub first : IsRing l a xs
  pub second : IsRing l b ys
  pub third : IsRing l c zs
  pub once : (x : ℕ) → count x xs + count x ys + count x zs ≤ 1

pub AreHeld-swap :
    (l : Links) (a b c : Option ℕ) (xs ys zs : List ℕ)
    → AreHeld l a b c xs ys zs
    → AreHeld l b a c ys xs zs
AreHeld-swap l a b c xs ys zs held = record {
  first = held.second;
  second = held.first;
  third = held.third;
  once = λ x. omega (arith, held.once x);
}

pub AreHeld-turn :
    (l : Links) (a b c : Option ℕ) (xs ys zs : List ℕ)
    → AreHeld l a b c xs ys zs
    → AreHeld l a c b xs zs ys
AreHeld-turn l a b c xs ys zs held = record {
  first = held.first;
  second = held.third;
  third = held.second;
  once = λ x. omega (arith, held.once x);
}

pub count_taken :
    (x oper : ℕ) (before behind : List ℕ)
    → count x (before ++ (oper ∷ behind))
      ≡ (if oper == x then 1 else 0) + count x (before ++ behind)
unfolding count
count_taken x oper before behind =
    omega (arith, count-append x before (oper ∷ behind), count-append x before behind)

pub count_added :
    (x oper : ℕ) (l : List ℕ)
    → count x (l ++ (oper ∷ [])) ≡ count x l + (if oper == x then 1 else 0)
unfolding count
count_added x oper l = omega (arith, count-append x l (oper ∷ []))

count_cons :
    (x oper : ℕ) (l : List ℕ) → count x (oper ∷ l) ≡ (if oper == x then 1 else 0) + count x l
unfolding count
count_cons x oper l = refl

-- An operation goes from one ring to the end of another.
pub move-AreHeld :
    (l : Links) (oper a : ℕ) (b c : Option ℕ) (before behind ys zs : List ℕ)
    → AreHeld l (some a) b c (before ++ (oper ∷ behind)) ys zs
    → AreHeld
        (oper_list_add oper b (oper_list_del oper a l).1).1
        (oper_list_del oper a l).0
        (oper_list_add oper b (oper_list_del oper a l).1).0
        c
        (before ++ behind)
        (ys ++ (oper ∷ []))
        zs
move-AreHeld l oper a b c before behind ys zs held = record {
  first =
      oper_list_add-frame oper b ys l1 a1 (before ++ behind) ys_ring oper_ys
        (Every-IsFresh (oper ∷ ys) (before ++ behind)
          (λ x. omega (arith, held.once x, count_taken x oper before behind, count_cons x oper ys)))
        (oper_list_del-IsRing oper a before behind l held.first);
  second = oper_list_add-IsRing oper b ys l1 oper_ys ys_ring;
  third =
      oper_list_add-frame oper b ys l1 c zs ys_ring oper_ys
        (Every-IsFresh (oper ∷ ys) zs
          (λ x. omega (arith, held.once x, count_taken x oper before behind, count_cons x oper ys)))
        (oper_list_del-frame oper a before behind l c zs held.first
          (Every-IsFresh _ zs (λ x. omega (arith, held.once x))) held.third);
  once = λ x. omega (arith, held.once x, count_taken x oper before behind, count_added x oper ys);
}
  where
    l1 : Links
    l1 = (oper_list_del oper a l).1

    a1 : Option ℕ
    a1 = (oper_list_del oper a l).0

    own : count oper (before ++ (oper ∷ behind)) ≡ 1 + count oper (before ++ behind)
    own = ground (arith, count_taken oper oper before behind)

    oper_ys : IsFresh oper ys
    oper_ys = count-IsFresh oper ys (omega (arith, own, held.once oper))

    ys_ring : IsRing l1 b ys
    ys_ring =
        oper_list_del-frame oper a before behind l b ys held.first
          (Every-IsFresh _ ys (λ x. omega (arith, held.once x))) held.second
