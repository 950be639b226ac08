-- ===== src/Datas/BTree/Ranges.antt =====
-- What a tree says when its elements are read as ranges: the element with key `k` and value `v`
-- stands for the positions from `k` up to `v`, `v` not among them.
use ioriot.Prelude.{
  ◌≡◌, Bool, true, false, ◌&&◌, ◌||◌, ℤ, ltz, lez, arith, eqz_cases, ltz_cases, lez_cases,
}
use ioriot.Datas.BTree.{Elem, leaf, node, ensure_range_lr, is_null}

abbrev pub within : ℤ → ℤ → ℤ → Bool
within p start end = lez start p && ltz p end

-- Whether the position `p` lies in a range of the tree.
unfoldable pub covers : Elem → ℤ → Bool
covers leaf p = false
covers (node left right k v) p = within p k v || (covers left p || covers right p)

-- A longer range at the same start.
within_grown :
    (p k v end : ℤ) → ltz v end ≡ true → within p k end ≡ (within p k v || within p k end)
within_grown p k v end h = ground (arith, ltz_cases v end, ltz_cases p v, ltz_cases p end)

within_kept : (p k v end : ℤ) → ltz v end ≡ false → within p k v ≡ (within p k v || within p k end)
within_kept p k v end h = ground (arith, ltz_cases v end, ltz_cases p v, ltz_cases p end)

-- A range that starts inside another, and one that ends inside it.
within_tail :
    (p k v start end : ℤ)
    → ltz start k ≡ false
    → lez start v ≡ true
    → (within p k v || within p start end) ≡ (within p k v || within p k end)
within_tail p k v start end h g = ground (
  arith,
  ltz_cases start k,
  lez_cases start v,
  ltz_cases p v,
  ltz_cases p end,
  lez_cases k p,
  lez_cases start p,
)

within_head :
    (p k v start end : ℤ)
    → ltz start k ≡ true
    → lez v end ≡ true
    → within p start end ≡ (within p k v || within p start end)
within_head p k v start end h g = ground (
  arith,
  ltz_cases start k,
  lez_cases v end,
  ltz_cases p v,
  ltz_cases p end,
  lez_cases k p,
  lez_cases start p,
)

-- `btreelem_ensure_range_lr` adds the positions of the range and no other.
pub covers-ensure_range_lr :
    (t : Elem) (start end p : ℤ)
    → is_null t ≡ false
    → covers (ensure_range_lr t start end).0 p ≡ (covers t p || within p start end)
unfolding ensure_range_lr covers
covers-ensure_range_lr leaf start end p h = ground arith
covers-ensure_range_lr (node left right k v) start end p h = ground (
  arith,
  covers-ensure_range_lr left start end p,
  covers-ensure_range_lr right start end p,
  eqz_cases k start,
  within_grown p k v end,
  within_kept p k v end,
  within_tail p k v start end,
  within_head p k v start end,
)
