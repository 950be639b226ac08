-- ===== src/Datas/BTree/Size.antt =====
-- The size field of the tree of ioriot/src/datas/btree.c.
use ioriot.Prelude.{ℕ, suc, ◌+◌, ◌≤◌, ◌≡◌, ℤ, arith}
use ioriot.Datas.BTree.{BTree, Elem, leaf, node, insert_r, insert, ensure_range_lr, ensure_range_l}

abbrev pub count : Elem → ℕ
count leaf = 0
count (node left right k v) = suc (count left + count right)

count-insert_r :
    (t : Elem) (key value : ℤ)
    → (count (insert_r t key value).0 ≡ count t + (insert_r t key value).1)
      × ((insert_r t key value).1 ≤ 1)
unfolding insert_r
count-insert_r leaf key value = omega arith
count-insert_r (node left right k v) key value =
    ground (arith, count-insert_r left key value, count-insert_r right key value)

count-ensure_range_lr :
    (t : Elem) (start end : ℤ)
    → (count (ensure_range_lr t start end).0 ≡ count t + (ensure_range_lr t start end).1)
      × ((ensure_range_lr t start end).1 ≤ 1)
unfolding ensure_range_lr
count-ensure_range_lr leaf start end = omega arith
count-ensure_range_lr (node left right k v) start end =
    ground (arith, count-ensure_range_lr left start end, count-ensure_range_lr right start end)

abbrev pub IsCounted : BTree → Type 0
IsCounted b = b.size ≡ count b.root

-- `btree_insert` keeps the size equal to the number of elements.
pub insert-IsCounted : (b : BTree) (key value : ℤ) → IsCounted b → IsCounted (insert b key value).0
unfolding insert
insert-IsCounted b key value h = ground (arith, count-insert_r b.root key value)

-- `btree_ensure_range_l` keeps the size equal to the number of elements.
pub ensure_range_l-IsCounted :
    (b : BTree) (start end : ℤ) → IsCounted b → IsCounted (ensure_range_l b start end)
unfolding ensure_range_l
ensure_range_l-IsCounted b start end h =
    ground (arith, insert-IsCounted b start end h, count-ensure_range_lr b.root start end)
