-- ===== src/Datas/BTree/Queries.antt =====
-- What `btree_has_range_l` answers, for a tree that is read as ranges.
use ioriot.Prelude.{ℕ, ◌≡◌, refl, true, false, ◌||◌, ℤ, arith, eqz_cases, ltz_cases, lez_cases}
use ioriot.Datas.BTree.{
  BTree, Elem, leaf, node, elem_new, insert_r, insert, ensure_range_lr, ensure_range_l, is_null,
  has_range_lr, has_range_l,
}
use ioriot.Datas.BTree.Ranges.{within, covers, covers-ensure_range_lr}

-- If `btreelem_has_range_lr` says yes then each position of the range is covered.
pub has_range_lr-covers :
    (t : Elem) (start end p : ℤ)
    → has_range_lr t start end ≡ true
    → within p start end ≡ true
    → covers t p ≡ true
unfolding has_range_lr covers
has_range_lr-covers leaf start end p h w = cc
has_range_lr-covers (node left right k v) start end p h w = ground (
  arith,
  has_range_lr-covers left start end p,
  has_range_lr-covers right start end p,
  lez_cases k start,
  lez_cases end v,
  lez_cases start p,
  ltz_cases p end,
  lez_cases k p,
  ltz_cases p v,
)

-- A range that was ensured is found.
pub has_range_lr-ensure_range_lr :
    (t : Elem) (start end : ℤ)
    → is_null t ≡ false
    → has_range_lr (ensure_range_lr t start end).0 start end ≡ true
unfolding has_range_lr ensure_range_lr elem_new
has_range_lr-ensure_range_lr leaf start end h = cc
has_range_lr-ensure_range_lr (node left right k v) start end h = ground (
  arith,
  has_range_lr-ensure_range_lr left start end,
  has_range_lr-ensure_range_lr right start end,
  eqz_cases k start,
  lez_cases k start,
  lez_cases end v,
  ltz_cases v end,
  ltz_cases start k,
  lez_cases start start,
  lez_cases end end,
  ltz_cases start start,
)

-- A range that was found before another is ensured is still found.
pub has_range_lr_kept :
    (t : Elem) (start end a e : ℤ)
    → has_range_lr t a e ≡ true
    → has_range_lr (ensure_range_lr t start end).0 a e ≡ true
unfolding has_range_lr ensure_range_lr elem_new
has_range_lr_kept leaf start end a e h = cc
has_range_lr_kept (node left right k v) start end a e h = ground (
  arith,
  has_range_lr_kept left start end a e,
  has_range_lr_kept right start end a e,
  eqz_cases k start,
  lez_cases k a,
  lez_cases e v,
  lez_cases e end,
  lez_cases start a,
  ltz_cases v end,
  ltz_cases start k,
  lez_cases v end,
  ltz_cases a k,
  ltz_cases a start,
)

-- The tree of `btree_ensure_range_l`, by whether it was empty.
ensure_range_l-leaf :
    (n : ℕ) (start end : ℤ)
    → (ensure_range_l (record { root = leaf; size = n }) start end).root ≡ node leaf leaf start end
unfolding ensure_range_l insert insert_r elem_new
ensure_range_l-leaf n start end = refl

ensure_range_l-node :
    (left right : Elem) (k v : ℤ) (n : ℕ) (start end : ℤ)
    → (ensure_range_l (record { root = node left right k v; size = n }) start end).root
      ≡ (ensure_range_lr (node left right k v) start end).0
unfolding ensure_range_l
ensure_range_l-node left right k v n start end = refl

covers-root :
    (t : Elem) (n : ℕ) (start end p : ℤ)
    → covers (ensure_range_l (record { root = t; size = n }) start end).root p
      ≡ (covers t p || within p start end)
unfolding covers
covers-root leaf n start end p = rw (ensure_range_l-leaf n start end) (ground arith)
covers-root (node left right k v) n start end p =
    rw (ensure_range_l-node left right k v n start end)
      (covers-ensure_range_lr (node left right k v) start end p refl)

found-root :
    (t : Elem) (n : ℕ) (start end : ℤ)
    → has_range_lr (ensure_range_l (record { root = t; size = n }) start end).root start end ≡ true
found-root leaf n start end =
    rw (ensure_range_l-leaf n start end)
      (unfold has_range_lr in ground (arith, lez_cases start start, lez_cases end end))
found-root (node left right k v) n start end =
    rw (ensure_range_l-node left right k v n start end)
      (has_range_lr-ensure_range_lr (node left right k v) start end refl)

kept-root :
    (t : Elem) (n : ℕ) (start end a e : ℤ)
    → has_range_lr t a e ≡ true
    → has_range_lr (ensure_range_l (record { root = t; size = n }) start end).root a e ≡ true
kept-root leaf n start end a e h = absurd (unfold has_range_lr in cc h)
kept-root (node left right k v) n start end a e h =
    rw (ensure_range_l-node left right k v n start end)
      (has_range_lr_kept (node left right k v) start end a e h)

module _ (b : BTree) (start end : ℤ) where
  -- After `btree_ensure_range_l` the tree covers what it covered and the range, and nothing else.
  pub covers-ensure_range_l :
      (p : ℤ) → covers (ensure_range_l b start end).root p ≡ (covers b.root p || within p start end)
  covers-ensure_range_l p = covers-root b.root b.size start end p

  -- After `btree_ensure_range_l` the range is found, and so is every range that was found before.
  pub has_range_l-ensure_range_l :
      (has_range_l (ensure_range_l b start end) start end ≡ true)
      × ((a e : ℤ) → has_range_l b a e ≡ true → has_range_l (ensure_range_l b start end) a e ≡ true)
  unfolding has_range_l
  has_range_l-ensure_range_l =
      (found-root b.root b.size start end, λ a e h. kept-root b.root b.size start end a e h)

  -- If `btree_has_range_l` says yes then each position of the range is covered.
  pub has_range_l-covers :
      (p : ℤ) → has_range_l b start end ≡ true → within p start end ≡ true → covers b.root p ≡ true
  unfolding has_range_l
  has_range_l-covers p h w = has_range_lr-covers b.root start end p h w
