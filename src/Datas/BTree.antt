-- ===== src/Datas/BTree.antt =====
-- The binary tree of ioriot/src/datas/btree.c, without its printing and freeing. An element that is
-- NULL is `leaf`. Keys are `long`; the `void *data` of an element is read as the `long` that all
-- callers store in it, 0 for NULL. Functions that change an element return the new one.
pub mod Lookup
pub mod Order
pub mod Size
pub mod Ranges
pub mod Queries
use ioriot.Prelude.{
  ℕ, ◌+◌, List, [], ◌∷◌, ◌++◌, Bool, true, false, ◌&&◌, ◌==◌, if◌then◌else◌, ℤ, pos, negsuc, eqz,
  ltz, lez, zero, suc, ◌-◌, ◌*◌, ◌/◌, ◌%◌, ◌^◌, ◌≤◌, ◌<◌, ◌≡◌, ◌≢◌, ◌⊎◌, ◌↔◌, refl, ap, sym, subst,
  ◌∙◌, not, ◌||◌, ltb, leb, is_nil, length, get_or, set, Option, some, none, arith, length-append,
  inl, inr, Option-cases, Bool-cases, ◌+ℤ◌, ◌-ℤ◌, ◌≤ℤ◌, ◌<ℤ◌, Outcome, ok, exit, fault, ◌>>=◌,
  Holds, Holds-bind, Holds-any,
}

-- `btreelem_s`
pub data Elem : Type 0 where
  leaf : Elem
  node : Elem → Elem → ℤ → ℤ → Elem

-- `btree_s`
pub record BTree : Type 0 where
  pub root : Elem
  pub size : ℕ

abbrev pub is_null : Elem → Bool
is_null leaf = true
is_null (node left right key value) = false

unfoldable pub new : BTree
new = record { root = leaf; size = 0 }

unfoldable pub elem_new : ℤ → ℤ → Elem
elem_new key value = node leaf leaf key value

-- `btreelem_insert_r`: a NULL child takes the new element.
unfoldable pub insert_r : Elem → ℤ → ℤ → Elem × ℕ
unfolding elem_new
insert_r leaf key value = (elem_new key value, 1)
insert_r (node left right k v) key value = elim (eqz k key) [
  | true ↦ (node left right k v, 0)
  | false ↦ elim (ltz key k) [
    | true ↦ let (left', ret) = insert_r left key value in (node left' right k v, ret)
    | false ↦ let (right', ret) = insert_r right key value in (node left right' k v, ret)
  ]
]

-- `btree_insert`
unfoldable pub insert : BTree → ℤ → ℤ → BTree × ℕ
insert b key value =
    let (root, ret) = insert_r b.root key value in
    (record { root = root; size = if ret == 1 then b.size + 1 else b.size }, ret)

-- `btreelem_get_r`
unfoldable pub get_r : Elem → ℤ → ℤ
get_r leaf key = pos 0
get_r (node left right k v) key = elim (eqz k key) [
  | true ↦ v
  | false ↦ elim (ltz key k) [ true ↦ get_r left key | false ↦ get_r right key ]
]

-- `btree_get`
unfoldable pub get : BTree → ℤ → ℤ
get b key = get_r b.root key

-- `btree_get_l`
unfoldable pub get_l : BTree → ℤ → ℤ
get_l b key = let value = get b key in if eqz value (pos 0) then negsuc 0 else value

-- `btreelem_has_range_lr`
unfoldable pub has_range_lr : Elem → ℤ → ℤ → Bool
has_range_lr leaf start end = false
has_range_lr (node left right k v) start end = elim (lez k start && lez end v) [
  | true ↦ true
  | false ↦ elim (ltz start k) [
    | true ↦ has_range_lr left start end
    | false ↦ has_range_lr right start end
  ]
]

-- `btree_has_range_l`
unfoldable pub has_range_l : BTree → ℤ → ℤ → Bool
has_range_l b start end = has_range_lr b.root start end

-- `btreelem_ensure_range_lr`, which does not use its `threshold`. It is not called on NULL.
unfoldable pub ensure_range_lr : Elem → ℤ → ℤ → Elem × ℕ
unfolding elem_new
ensure_range_lr leaf start end = (leaf, 0)
ensure_range_lr (node left right k v) start end = elim (eqz k start) [
  | true ↦ (if ltz v end then node left right k end else node left right k v, 0)
  | false ↦ elim (ltz start k) [
    | true ↦ elim (is_null left) [
      | true ↦
          if lez v end
          then (node left right start end, 0)
          else (node (elem_new start end) right k v, 1)
      | false ↦ let (left', ret) = ensure_range_lr left start end in (node left' right k v, ret)
    ]
    | false ↦ elim (lez start v) [
      | true ↦ (if ltz v end then node left right k end else node left right k v, 0)
      | false ↦ elim (is_null right) [
        | true ↦ (node left (elem_new start end) k v, 1)
        | false ↦ let (right', ret) = ensure_range_lr right start end in (node left right' k v, ret)
      ]
    ]
  ]
]

-- `btree_ensure_range_l`
unfoldable pub ensure_range_l : BTree → ℤ → ℤ → BTree
ensure_range_l b start end = elim (is_null b.root) [
  | true ↦ (insert b start end).0
  | false ↦
      let (root, ret) = ensure_range_lr b.root start end in
      record { root = root; size = if ret == 1 then b.size + 1 else b.size }
]

-- The calls that `btreelem_run_cb2_r` makes: the element, then those below it.
unfoldable pub run_cb2_r : Elem → List (ℤ × ℤ)
run_cb2_r leaf = []
run_cb2_r (node left right k v) = (k, v) ∷ (run_cb2_r left ++ run_cb2_r right)
