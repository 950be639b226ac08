-- ===== src/Datas/BTree/Order.antt =====
-- The search order of the tree of ioriot/src/datas/btree.c: left of an element stand smaller keys,
-- right of it greater ones.
use ioriot.Prelude.{
  lt_of_tests, <ℤ_trans, eqz_of_lt, eqz_refl, ◌⊎◌, inl, inr, ℕ, ◌≡◌, sym, subst, ℤ, ◌<ℤ◌, arith,
  ltz_cases,
}
use ioriot.Datas.BTree.{
  BTree, Elem, leaf, node, elem_new, insert_r, insert, ensure_range_lr, ensure_range_l, get_r,
}

abbrev All : (ℤ → Type 0) → Elem → Type 0
All P leaf = Unit
All P (node left right k v) = All P left × P k × All P right

abbrev pub IsOrdered : Elem → Type 0
IsOrdered leaf = Unit
IsOrdered (node left right k v) =
    All (λ x. x <ℤ k) left × All (λ x. k <ℤ x) right × IsOrdered left × IsOrdered right

All-insert_r :
    (P : ℤ → Type 0) (t : Elem) (key value : ℤ) → P key → All P t → All P (insert_r t key value).0
unfolding insert_r elem_new
All-insert_r P leaf key value p a = (tt, p, tt)
All-insert_r P (node left right k v) key value p a =
    ground (arith, All-insert_r P left key value, All-insert_r P right key value)

All-ensure_range_lr :
    (P : ℤ → Type 0) (t : Elem) (start end : ℤ)
    → P start
    → All P t
    → All P (ensure_range_lr t start end).0
unfolding ensure_range_lr elem_new
All-ensure_range_lr P leaf start end p a = tt
All-ensure_range_lr P (node left right k v) start end p a =
    ground (arith, All-ensure_range_lr P left start end, All-ensure_range_lr P right start end)

All-above : (a k : ℤ) (t : Elem) → a <ℤ k → All (λ x. k <ℤ x) t → All (λ x. a <ℤ x) t
All-above a k leaf h s = tt
All-above a k (node left right x v) h s =
    (All-above a k left h s.0, <ℤ_trans a k x h s.1, All-above a k right h s.2)

insert_r-IsOrdered : (t : Elem) (key value : ℤ) → IsOrdered t → IsOrdered (insert_r t key value).0
unfolding insert_r elem_new
insert_r-IsOrdered leaf key value h = (tt, tt, tt, tt)
insert_r-IsOrdered (node left right k v) key value h = ground (
  arith,
  insert_r-IsOrdered left key value,
  insert_r-IsOrdered right key value,
  All-insert_r (λ x. x <ℤ k) left key value,
  All-insert_r (λ x. k <ℤ x) right key value,
  ltz_cases key k,
  lt_of_tests k key,
)

ensure_range_lr-IsOrdered :
    (t : Elem) (start end : ℤ) → IsOrdered t → IsOrdered (ensure_range_lr t start end).0
unfolding ensure_range_lr elem_new
ensure_range_lr-IsOrdered leaf start end h = tt
ensure_range_lr-IsOrdered (node left right k v) start end h = ground (
  arith,
  ensure_range_lr-IsOrdered left start end,
  ensure_range_lr-IsOrdered right start end,
  All-ensure_range_lr (λ x. x <ℤ k) left start end,
  All-ensure_range_lr (λ x. k <ℤ x) right start end,
  All-above start k right,
  ltz_cases start k,
  lt_of_tests k start,
)

-- `btree_insert` keeps the search order.
pub insert-IsOrdered :
    (b : BTree) (key value : ℤ) → IsOrdered b.root → IsOrdered (insert b key value).0.root
unfolding insert
insert-IsOrdered b key value h = insert_r-IsOrdered b.root key value h

ensure-root-IsOrdered :
    (t : Elem) (n : ℕ) (start end : ℤ)
    → IsOrdered t
    → IsOrdered (ensure_range_l (record { root = t; size = n }) start end).root
unfolding ensure_range_l insert insert_r
ensure-root-IsOrdered leaf n start end h = insert_r-IsOrdered leaf start end h
ensure-root-IsOrdered (node left right k v) n start end h =
    ensure_range_lr-IsOrdered (node left right k v) start end h

-- `btree_ensure_range_l` keeps the search order.
pub ensure_range_l-IsOrdered :
    (b : BTree) (start end : ℤ) → IsOrdered b.root → IsOrdered (ensure_range_l b start end).root
ensure_range_l-IsOrdered b start end h = ensure-root-IsOrdered b.root b.size start end h

-- An element with this key and value stands somewhere in the tree.
abbrev pub Occurs : ℤ → ℤ → Elem → Type 0
Occurs key value leaf = ⊥
Occurs key value (node left right k v) =
    ((key ≡ k) × (value ≡ v)) ⊎ (Occurs key value left ⊎ Occurs key value right)

All-Occurs : (P : ℤ → Type 0) (t : Elem) (key value : ℤ) → All P t → Occurs key value t → P key
All-Occurs P leaf key value a o = absurd o
All-Occurs P (node left right k v) key value a (inl e) = subst P (sym e.0) a.1
All-Occurs P (node left right k v) key value a (inr (inl o)) = All-Occurs P left key value a.0 o
All-Occurs P (node left right k v) key value a (inr (inr o)) = All-Occurs P right key value a.2 o

-- In a tree that is in order each element is found by its key.
pub get_r-Occurs :
    (t : Elem) (key value : ℤ) → IsOrdered t → Occurs key value t → get_r t key ≡ value
unfolding get_r
get_r-Occurs leaf key value h o = absurd o
get_r-Occurs (node left right k v) key value h (inl e) = ground (arith, eqz_refl k)
get_r-Occurs (node left right k v) key value h (inr (inl o)) =
    let below = eqz_of_lt key k (All-Occurs (λ x. x <ℤ k) left key value h.0 o) in
    ground (arith, get_r-Occurs left key value h.2 o)
get_r-Occurs (node left right k v) key value h (inr (inr o)) =
    let above = eqz_of_lt k key (All-Occurs (λ x. k <ℤ x) right key value h.1 o) in
    ground (arith, get_r-Occurs right key value h.3 o)
