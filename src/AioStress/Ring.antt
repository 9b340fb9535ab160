-- ===== src/AioStress/Ring.antt =====
-- aio-stress.c: the rings of operations, as pointers in a store.
pub mod Linked
pub mod Kept
pub mod Apart
use longan_chkout.Base.{ℕ, Bool, true, false, ◌&&◌, Option, none, some, ◌==◌, if◌then◌else◌}

-- `next` and `prev` of every operation, by its address.
pub record Links : Type 0 where
  pub next : ℕ → ℕ
  pub prev : ℕ → ℕ

-- One assignment to a field.
unfoldable pub assign : (ℕ → ℕ) → ℕ → ℕ → ℕ → ℕ
assign field at value x = if x == at then value else field x

abbrev pub set_next : ℕ → ℕ → Links → Links
set_next at value l = record l { next = assign l.next at value }

abbrev pub set_prev : ℕ → ℕ → Links → Links
set_prev at value l = record l { prev = assign l.prev at value }

-- A list is the address that it points at, or `none` for NULL.
unfoldable pub oper_list_add : ℕ → Option ℕ → Links → Option ℕ × Links
oper_list_add oper none l = (some oper, set_prev oper oper (set_next oper oper l))
oper_list_add oper (some list) l =
    let l1 = set_prev oper (l.prev list) l in
    let l2 = set_next oper list l1 in
    let l3 = set_next (l2.prev list) oper l2 in (some list, set_prev list oper l3)

unfoldable pub is_only : ℕ → Links → Bool
is_only list l = l.next list == l.prev list && list == l.next list

-- What `oper_list_del` does where it is not the only one.
unfoldable pub unlink : ℕ → ℕ → Links → Option ℕ × Links
unlink oper list l =
    let l1 = set_next (l.prev oper) (l.next oper) l in
    let l2 = set_prev (l1.next oper) (l1.prev oper) l1 in
    (if list == oper then some (l2.next oper) else some list, l2)

-- `oper_list_del`, for a list that is not NULL.
unfoldable pub oper_list_del : ℕ → ℕ → Links → Option ℕ × Links
unfolding is_only unlink
oper_list_del oper list l = if is_only list l then (none, l) else unlink oper list l
