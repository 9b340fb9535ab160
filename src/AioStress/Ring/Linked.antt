-- ===== src/AioStress/Ring/Linked.antt =====
-- Paths of linked operations, and what an assignment that joins two of them does to a path.
use longan_chkout.Base.{ℕ, ◌≡◌, sym, ◌∙◌, subst, List, [], ◌∷◌, ◌++◌, arith}
use longan_chkout.Base.Lists.{Every, Every-map}
use longan_chkout.AioStress.Ring.{Links, assign, set_next, set_prev}

pub record IsLinked (l : Links) (a b : ℕ) : Type 0 where
  pub forth : l.next a ≡ b
  pub back : l.prev b ≡ a

-- From `a` through the addresses of a list to `z`.
unfoldable pub IsPath : Links → ℕ → List ℕ → ℕ → Type 0
IsPath l a [] z = IsLinked l a z
IsPath l a (b ∷ bs) z = IsLinked l a b × IsPath l b bs z

-- An address that is not in a list, and a list without an address twice.
unfoldable pub IsFresh : ℕ → List ℕ → Type 0
unfolding Every
IsFresh x l = Every (λ y. ¬ (x ≡ y)) l

unfoldable pub IsDistinct : List ℕ → Type 0
unfolding IsFresh
IsDistinct [] = Unit {0}
IsDistinct (x ∷ l) = IsFresh x l × IsDistinct l

-- `next` of the one and `prev` of the other are assigned.
unfoldable pub join : ℕ → ℕ → Links → Links
unfolding assign
join p n l = set_prev n p (set_next p n l)

pub assign_same : (f : ℕ → ℕ) (at value : ℕ) → assign f at value at ≡ value
unfolding assign
assign_same f at value = ground arith

pub assign_other : (f : ℕ → ℕ) (at value x : ℕ) → ¬ (at ≡ x) → assign f at value x ≡ f x
unfolding assign
assign_other f at value x differ = ground (arith, differ)

pub join-IsLinked : (l : Links) (p n : ℕ) → IsLinked (join p n l) p n
unfolding join
join-IsLinked l p n = record { forth = assign_same l.next p n; back = assign_same l.prev n p }

pub IsLinked-join :
    (l : Links) (p n a b : ℕ) → ¬ (p ≡ a) → ¬ (n ≡ b) → IsLinked l a b → IsLinked (join p n l) a b
unfolding join
IsLinked-join l p n a b differ_a differ_b link = record {
  forth = assign_other l.next p n a differ_a ∙ link.forth;
  back = assign_other l.prev n p b differ_b ∙ link.back;
}

-- A path that the assignments do not touch.
pub IsPath-join :
    (l : Links) (p n a : ℕ) (bs : List ℕ) (z : ℕ)
    → IsFresh p (a ∷ bs)
    → IsFresh n bs
    → ¬ (n ≡ z)
    → IsPath l a bs z
    → IsPath (join p n l) a bs z
unfolding IsPath IsFresh Every
IsPath-join l p n a [] z p_fresh n_fresh n_end path = IsLinked-join l p n a z p_fresh.0 n_end path
IsPath-join l p n a (b ∷ bs) z p_fresh n_fresh n_end path = (
  IsLinked-join l p n a b p_fresh.0 n_fresh.0 path.0,
  IsPath-join l p n b bs z p_fresh.1 n_fresh.1 n_end path.1,
)

-- What holds of the addresses on a path holds of the one before its end, and of those next to one
-- of them.
pub before_end :
    (P : ℕ → Type 0) (l : Links) (a : ℕ) (bs : List ℕ) (z : ℕ)
    → IsPath l a bs z
    → Every P (a ∷ bs)
    → P (l.prev z)
unfolding IsPath Every
before_end P l a [] z path all = subst P (sym path.back) all.0
before_end P l a (b ∷ bs) z path all = before_end P l b bs z path.1 all.1

pub after_start :
    (P : ℕ → Type 0) (l : Links) (a : ℕ) (bs : List ℕ) (z : ℕ)
    → IsPath l a bs z
    → Every P bs
    → P z
    → P (l.next a)
unfolding IsPath Every
after_start P l a [] z path all at_end = subst P (sym path.forth) at_end
after_start P l a (b ∷ bs) z path all at_end = subst P (sym path.0.forth) all.0

-- The two parts of a path.
pub IsPath-split :
    (l : Links) (a : ℕ) (xs : List ℕ) (x : ℕ) (ys : List ℕ) (z : ℕ)
    → IsPath l a (xs ++ (x ∷ ys)) z
    → IsPath l a xs x × IsPath l x ys z
unfolding IsPath
IsPath-split l a [] x ys z path = path
IsPath-split l a (b ∷ xs) x ys z path =
    let parts = IsPath-split l b xs x ys z path.1 in ((path.0, parts.0), parts.1)

pub Every-split :
    (P : ℕ → Type 0) (xs : List ℕ) (x : ℕ) (ys : List ℕ)
    → Every P (xs ++ (x ∷ ys))
    → Every P xs × P x × Every P ys
unfolding Every
Every-split P [] x ys all = (tt, all.0, all.1)
Every-split P (y ∷ xs) x ys all =
    let (before, at, after) = Every-split P xs x ys all.1 in ((all.0, before), at, after)

-- Two distinct addresses, either way round.
pub fresh_sym : (x : ℕ) (l : List ℕ) → IsFresh x l → Every (λ y. ¬ (y ≡ x)) l
unfolding IsFresh
fresh_sym x l = Every-map (λ y. ¬ (x ≡ y)) (λ y. ¬ (y ≡ x)) l (λ y differ e. differ (sym e))

-- An address is added before the end.
pub IsPath-add :
    (l : Links) (oper a : ℕ) (bs : List ℕ) (z : ℕ)
    → IsDistinct (a ∷ bs)
    → IsFresh oper (a ∷ bs)
    → ¬ (oper ≡ z)
    → IsFresh z bs
    → IsPath l a bs z
    → IsPath (join oper z (join (l.prev z) oper l)) a (bs ++ (oper ∷ [])) z
unfolding IsPath IsFresh IsDistinct Every
IsPath-add l oper a [] z distinct fresh at_end z_fresh path = (
  IsLinked-join (join (l.prev z) oper l) oper z a oper fresh.0 (λ e. at_end (sym e))
      (subst (λ p. IsLinked (join (l.prev z) oper l) p oper) path.back
        (join-IsLinked l (l.prev z) oper)),
  join-IsLinked (join (l.prev z) oper l) oper z,
)
IsPath-add l oper a (b ∷ bs) z distinct fresh at_end z_fresh path = (
  IsLinked-join (join (l.prev z) oper l) oper z a b fresh.0 z_fresh.0 (
      IsLinked-join l (l.prev z) oper a b
        (before_end (λ y. ¬ (y ≡ a)) l b bs z path.1 (fresh_sym a (b ∷ bs) distinct.0)) fresh.1.0
        path.0),
  IsPath-add l oper b bs z distinct.1 fresh.1 at_end z_fresh.1 path.1,
)

-- The end is replaced.
pub IsPath-to :
    (l : Links) (n a : ℕ) (bs : List ℕ) (z : ℕ)
    → IsDistinct (a ∷ bs)
    → IsFresh n bs
    → IsPath l a bs z
    → IsPath (join (l.prev z) n l) a bs n
unfolding IsPath IsFresh IsDistinct Every
IsPath-to l n a [] z distinct n_fresh path =
    subst (λ p. IsLinked (join (l.prev z) n l) p n) path.back (join-IsLinked l (l.prev z) n)
IsPath-to l n a (b ∷ bs) z distinct n_fresh path = (
  IsLinked-join l (l.prev z) n a b
      (before_end (λ y. ¬ (y ≡ a)) l b bs z path.1 (fresh_sym a (b ∷ bs) distinct.0)) n_fresh.0
      path.0,
  IsPath-to l n b bs z distinct.1 n_fresh.1 path.1,
)

-- The address behind the start is taken out.
IsPath-over :
    (l : Links) (oper a : ℕ) (ys : List ℕ) (z : ℕ)
    → IsFresh a ys
    → IsFresh z ys
    → IsDistinct ys
    → IsPath l a (oper ∷ ys) z
    → IsPath (join (l.prev oper) (l.next oper) l) a ys z
unfolding IsPath IsFresh IsDistinct Every
IsPath-over l oper a [] z a_fresh z_fresh distinct path =
    subst (λ p. IsLinked (join p (l.next oper) l) a z) (sym path.0.back)
      (subst (λ n. IsLinked (join a n l) a z) (sym path.1.forth) (join-IsLinked l a z))
IsPath-over l oper a (c ∷ ys) z a_fresh z_fresh distinct path =
    subst (λ p. IsLinked (join p (l.next oper) l) a c × IsPath (join p (l.next oper) l) c ys z)
      (sym path.0.back)
      (subst (λ n. IsLinked (join a n l) a c × IsPath (join a n l) c ys z) (sym path.1.0.forth)
        (
          join-IsLinked l a c,
          IsPath-join l a c c ys z a_fresh distinct.0 (λ e. z_fresh.0 (sym e)) path.1.1,
        ))

-- An address is taken out.
pub IsPath-del :
    (l : Links) (oper a : ℕ) (xs ys : List ℕ) (z : ℕ)
    → IsDistinct (a ∷ (xs ++ (oper ∷ ys)))
    → IsFresh z (xs ++ (oper ∷ ys))
    → IsPath l a (xs ++ (oper ∷ ys)) z
    → IsPath (join (l.prev oper) (l.next oper) l) a (xs ++ ys) z
unfolding IsPath IsFresh IsDistinct Every
IsPath-del l oper a [] ys z distinct z_fresh path =
    IsPath-over l oper a ys z distinct.0.1 z_fresh.1 distinct.1.1 path
IsPath-del l oper a (b ∷ xs) ys z distinct z_fresh path =
    let (to_oper, from_oper) = IsPath-split l b xs oper ys z path.1 in
    let before =
      Every-split (λ y. ¬ (y ≡ a)) (b ∷ xs) oper ys
        (fresh_sym a (b ∷ (xs ++ (oper ∷ ys))) distinct.0) in
    let behind =
      Every-split (λ y. ¬ (y ≡ b)) xs oper ys (fresh_sym b (xs ++ (oper ∷ ys)) distinct.1.0) in
    (
      IsLinked-join l (l.prev oper) (l.next oper) a b
          (before_end (λ y. ¬ (y ≡ a)) l b xs oper to_oper before.0)
          (after_start (λ y. ¬ (y ≡ b)) l oper ys z from_oper behind.2 z_fresh.0) path.0,
      IsPath-del l oper b xs ys z distinct.1 z_fresh.1 path.1,
    )
