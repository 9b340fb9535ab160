-- ===== src/AioStress/Ring/Kept.antt =====
-- What the pointers of a ring stand for: a list of operations, to which `oper_list_add` adds at the
-- end, and from which `oper_list_del` takes one out.
use longan_chkout.Base.{
  ℕ, ◌≡◌, refl, sym, ap, ◌∙◌, subst, fun_ext, true, false, List, [], ◌∷◌, ◌++◌, Option, none, some,
  ◌==◌, if◌then◌else◌, arith,
}
use longan_chkout.Base.Lists.{Every, Every-append}
use longan_chkout.AioStress.Ring.{
  Links, assign, set_next, set_prev, oper_list_add, oper_list_del, unlink, is_only,
}
use longan_chkout.AioStress.Ring.Linked.{
  IsLinked, IsPath, IsFresh, IsDistinct, join, assign_same, assign_other, before_end, after_start,
  IsPath-split, Every-split, fresh_sym, IsPath-add, IsPath-to, IsPath-del,
}

-- The operations of a list in the order of `next`, from the one that is pointed at.
unfoldable pub IsRing : Links → Option ℕ → List ℕ → Type 0
unfolding IsPath IsDistinct
IsRing l none [] = Unit {0}
IsRing l none (x ∷ xs) = ⊥
IsRing l (some list) [] = ⊥
IsRing l (some list) (x ∷ xs) = (list ≡ x) × IsPath l x xs x × IsDistinct (x ∷ xs)

assign-swap :
    (f : ℕ → ℕ) (p q a b : ℕ) → ¬ (p ≡ q) → assign (assign f p a) q b ≡ assign (assign f q b) p a
unfolding assign
assign-swap f p q a b differ = fun_ext (λ x. ground (arith, differ))

-- In a ring `oper_list_add` joins the last operation to the new one, and that to the first.
pub oper_list_add-join :
    (oper list : ℕ) (l : Links)
    → ¬ (oper ≡ list)
    → ¬ (l.prev list ≡ oper)
    → oper_list_add oper (some list) l ≡ (some list, join oper list (join (l.prev list) oper l))
unfolding oper_list_add join assign
oper_list_add-join oper list l new last =
    ap
      (λ p. (
        some list,
        set_prev list oper (set_next p oper (set_next oper list (set_prev oper (l.prev list) l))),
      ))
      (assign_other l.prev oper (l.prev list) list new)
    ∙ ap
        (λ next. (
          some list,
          record l { next = next; prev = assign (assign l.prev oper (l.prev list)) list oper },
        ))
        (assign-swap l.next oper (l.prev list) list oper (λ e. last (sym e)))

-- The next of an operation that its next is assigned to.
assign_own : (f : ℕ → ℕ) (at x : ℕ) → assign f at (f x) x ≡ f x
unfolding assign
assign_own f at x = ground arith

pub oper_list_del-join :
    (oper list : ℕ) (l : Links)
    → is_only list l ≡ false
    → oper_list_del oper list l ≡ (
      (if list == oper then some ((join (l.prev oper) (l.next oper) l).next oper) else some list),
      join (l.prev oper) (l.next oper) l,
    )
unfolding oper_list_del unlink join assign
oper_list_del-join oper list l more =
    ap (λ b. if b then (none, l) else unlink oper list l) more
    ∙ ap (λ n. (first, set_prev n (l.prev oper) l1)) (assign_own l.next (l.prev oper) oper)
  where
    l1 : Links
    l1 = set_next (l.prev oper) (l.next oper) l

    first : Option ℕ
    first = if list == oper then some (l1.next oper) else some list

IsDistinct-add : (l : List ℕ) (x : ℕ) → IsDistinct l → IsFresh x l → IsDistinct (l ++ (x ∷ []))
unfolding IsDistinct IsFresh Every
IsDistinct-add [] x distinct fresh = (tt, tt)
IsDistinct-add (y ∷ l) x distinct fresh = (
  Every-append (λ z. ¬ (y ≡ z)) l (x ∷ []) distinct.0 ((λ e. fresh.0 (sym e)), tt),
  IsDistinct-add l x distinct.1 fresh.1,
)

-- If the pointers from the start of a list form a ring that stands for a sequence of operations, or
-- the list is NULL and the sequence empty, `oper_list_add` of an operation that is not in it makes
-- a ring that stands for the sequence with it at the end.
pub oper_list_add-IsRing :
    (oper : ℕ) (list : Option ℕ) (items : List ℕ) (l : Links)
    → IsFresh oper items
    → IsRing l list items
    → IsRing (oper_list_add oper list l).1 (oper_list_add oper list l).0 (items ++ (oper ∷ []))
unfolding IsRing oper_list_add IsPath IsDistinct IsFresh Every
oper_list_add-IsRing oper none [] l new ring = (
  refl,
  record { forth = assign_same l.next oper oper; back = assign_same l.prev oper oper },
  (tt, tt),
)
oper_list_add-IsRing oper none (x ∷ xs) l new ring = absurd ring
oper_list_add-IsRing oper (some list) [] l new ring = absurd ring
oper_list_add-IsRing oper (some list) (x ∷ xs) l new (at, path, distinct) =
    subst
      (λ h.
        IsRing (oper_list_add oper (some h) l).1 (oper_list_add oper (some h) l).0
          ((x ∷ xs) ++ (oper ∷ [])))
      (sym at)
      (subst (λ out. IsRing out.1 out.0 ((x ∷ xs) ++ (oper ∷ [])))
        (sym (
          oper_list_add-join oper x l new.0
            (before_end (λ y. ¬ (y ≡ oper)) l x xs x path (fresh_sym oper (x ∷ xs) new))))
        (
          refl,
          IsPath-add l oper x xs x distinct new new.0 distinct.0 path,
          IsDistinct-add (x ∷ xs) oper distinct new,
        ))

-- A ring of one is the only case in which an operation is next to itself.
is_only_one : (oper : ℕ) (l : Links) → IsLinked l oper oper → is_only oper l ≡ true
unfolding is_only
is_only_one oper l link = ground (arith, link.forth, link.back)

is_only_more : (x : ℕ) (l : Links) → ¬ (l.next x ≡ x) → is_only x l ≡ false
unfolding is_only
is_only_more x l apart = ground (arith, apart)

IsDistinct-split :
    (xs : List ℕ) (x : ℕ) (ys : List ℕ) → IsDistinct (xs ++ (x ∷ ys)) → IsDistinct (xs ++ ys)
unfolding IsDistinct IsFresh
IsDistinct-split [] x ys distinct = distinct.1
IsDistinct-split (y ∷ xs) x ys distinct =
    let (before, _, behind) = Every-split (λ z. ¬ (y ≡ z)) xs x ys distinct.0 in
    (Every-append (λ z. ¬ (y ≡ z)) xs ys before behind, IsDistinct-split xs x ys distinct.1)

same : (x : ℕ) → (x == x) ≡ true
same x = ground arith

other : (x y : ℕ) → ¬ (x ≡ y) → (x == y) ≡ false
other x y differ = ground (arith, differ)

-- The result of taking out the only operation, the first of several, and another one.
del_only : (oper : ℕ) (l : Links) → IsLinked l oper oper → oper_list_del oper oper l ≡ (none, l)
unfolding oper_list_del
del_only oper l link =
    ap (λ b. if b then (none, l) else unlink oper oper l) (is_only_one oper l link)

del_first :
    (oper b : ℕ) (bs : List ℕ) (l : Links)
    → IsPath l oper (b ∷ bs) oper
    → IsDistinct (oper ∷ (b ∷ bs))
    → oper_list_del oper oper l ≡ (some b, join (l.prev oper) b l)
unfolding IsPath IsDistinct IsFresh Every join
del_first oper b bs l path distinct =
    oper_list_del-join oper oper l (
      is_only_more oper l
        (after_start (λ y. ¬ (y ≡ oper)) l oper [] b path.0 tt (λ e. distinct.0.0 (sym e))))
    ∙ ap (λ t. (if t then some ((join p n l).next oper) else some oper, join p n l)) (same oper)
    ∙ ap (λ h. (some h, join p n l)) (assign_own l.next p oper)
    ∙ ap (λ h. (some h, join p h l)) path.0.forth
  where
    p : ℕ
    p = l.prev oper

    n : ℕ
    n = l.next oper

del_later :
    (oper x : ℕ) (before behind : List ℕ) (l : Links)
    → IsPath l x (before ++ (oper ∷ behind)) x
    → IsDistinct (x ∷ (before ++ (oper ∷ behind)))
    → oper_list_del oper x l ≡ (some x, join (l.prev oper) (l.next oper) l)
unfolding IsPath IsDistinct IsFresh Every
del_later oper x before behind l path distinct =
    let (to_oper, _) = IsPath-split l x before oper behind x path in
    let (fresh, apart, _) =
      Every-split (λ y. ¬ (y ≡ x)) before oper behind
        (fresh_sym x (before ++ (oper ∷ behind)) distinct.0) in
    oper_list_del-join oper x l
      (is_only_more x l (after_start (λ y. ¬ (y ≡ x)) l x before oper to_oper fresh apart))
    ∙ ap
        (λ t. (
          if t then some ((join (l.prev oper) (l.next oper) l).next oper) else some x,
          join (l.prev oper) (l.next oper) l,
        ))
        (other x oper (λ e. apart (sym e)))

-- If the pointers from the start of a list form a ring that stands for a sequence of operations,
-- `oper_list_del` of one of them leaves a ring that stands for the sequence without it, and NULL if
-- it was the only one.
pub oper_list_del-IsRing :
    (oper list : ℕ) (before behind : List ℕ) (l : Links)
    → IsRing l (some list) (before ++ (oper ∷ behind))
    → IsRing (oper_list_del oper list l).1 (oper_list_del oper list l).0 (before ++ behind)
unfolding IsRing IsPath IsDistinct IsFresh Every
oper_list_del-IsRing oper list [] [] l (at, path, _) =
    subst (λ h. IsRing (oper_list_del oper h l).1 (oper_list_del oper h l).0 []) (sym at)
      (subst (λ out. IsRing out.1 out.0 []) (sym (del_only oper l path)) tt)
oper_list_del-IsRing oper list [] (b ∷ bs) l (at, path, distinct) =
    subst (λ h. IsRing (oper_list_del oper h l).1 (oper_list_del oper h l).0 (b ∷ bs)) (sym at)
      (subst (λ out. IsRing out.1 out.0 (b ∷ bs)) (sym (del_first oper b bs l path distinct))
        (refl, IsPath-to l b b bs oper distinct.1 distinct.1.0 path.1, distinct.1))
oper_list_del-IsRing oper list (x ∷ xs) ys l (at, path, distinct) =
    subst (λ h. IsRing (oper_list_del oper h l).1 (oper_list_del oper h l).0 (x ∷ (xs ++ ys)))
      (sym at)
      (subst (λ out. IsRing out.1 out.0 (x ∷ (xs ++ ys)))
        (sym (del_later oper x xs ys l path distinct))
        (
          refl,
          IsPath-del l oper x xs ys x distinct distinct.0 path,
          IsDistinct-split (x ∷ xs) oper ys distinct,
        ))
