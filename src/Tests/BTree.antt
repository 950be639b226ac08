-- ===== src/Tests/BTree.antt =====
-- The binary tree at the inputs of `btree_test`.
use ioriot.Prelude.{inl, inr, ◌≡◌, refl, true, arith, ℤ, pos, eqz, ltz, lez, ◌||◌, if◌then◌else◌}
use ioriot.Datas.BTree
use ioriot.Datas.BTree.{BTree, Elem, leaf, node}
use ioriot.Datas.BTree.Lookup.{contains, insert_r_lem}
use ioriot.Datas.BTree.Order.{IsOrdered, ensure_range_l-IsOrdered, get_r-Occurs}
use ioriot.Datas.BTree.Ranges.{within, covers}
use ioriot.Datas.BTree.Queries.{
  covers-ensure_range_l, has_range_l-ensure_range_l, has_range_l-covers,
}

-- The ranges from 0 up to 23 and from 300 up to 325
abbrev two_ranges : BTree
two_ranges = record {
  root = node leaf (node leaf leaf (pos 300) (pos 325)) (pos 0) (pos 23);
  size = 2;
}

built :
    BTree.ensure_range_l (BTree.ensure_range_l BTree.new (pos 0) (pos 23)) (pos 300) (pos 325)
    ≡ two_ranges
unfolding BTree.ensure_range_l BTree.ensure_range_lr BTree.new BTree.insert BTree.insert_r eqz ltz
    lez
built = refl

-- A range that ends behind a later one takes its element over.
taken_over :
    (BTree.ensure_range_l two_ranges (pos 200) (pos 3321)).root
    ≡ node leaf (node leaf leaf (pos 200) (pos 3321)) (pos 0) (pos 23)
unfolding BTree.ensure_range_l BTree.ensure_range_lr eqz ltz lez
taken_over = refl

covers-ensure_range_l_example :
    covers (BTree.ensure_range_l two_ranges (pos 22) (pos 25)).root (pos 24)
    ≡ (covers two_ranges.root (pos 24) || within (pos 24) (pos 22) (pos 25))
covers-ensure_range_l_example = covers-ensure_range_l two_ranges (pos 22) (pos 25) (pos 24)

has_range_l-ensure_range_l_example :
    (BTree.has_range_l (BTree.ensure_range_l two_ranges (pos 22) (pos 25)) (pos 22) (pos 25) ≡ true)
    × ((a e : ℤ)
        → BTree.has_range_l two_ranges a e ≡ true
        → BTree.has_range_l (BTree.ensure_range_l two_ranges (pos 22) (pos 25)) a e ≡ true)
has_range_l-ensure_range_l_example = has_range_l-ensure_range_l two_ranges (pos 22) (pos 25)

has_range_l-covers_example : covers two_ranges.root (pos 5) ≡ true
unfolding BTree.has_range_l BTree.has_range_lr ltz lez
has_range_l-covers_example = has_range_l-covers two_ranges (pos 2) (pos 10) (pos 5) refl refl

insert_r_lem_example :
    ((BTree.insert_r two_ranges.root (pos 13) (pos 42)).1
      ≡ (if contains two_ranges.root (pos 13) then 0 else 1))
    × (contains two_ranges.root (pos 13) ≡ true
        → (BTree.insert_r two_ranges.root (pos 13) (pos 42)).0 ≡ two_ranges.root)
    × (BTree.get_r (BTree.insert_r two_ranges.root (pos 13) (pos 42)).0 (pos 13) ≡ (
        if contains two_ranges.root (pos 13)
        then BTree.get_r two_ranges.root (pos 13)
        else if eqz (pos 13) (pos 13)
        then pos 42
        else BTree.get_r two_ranges.root (pos 13)))
insert_r_lem_example = insert_r_lem two_ranges.root (pos 13) (pos 42) (pos 13)

two_ranges-IsOrdered : IsOrdered two_ranges.root
two_ranges-IsOrdered = omega arith

ensure_range_l-IsOrdered_example :
    IsOrdered (BTree.ensure_range_l two_ranges (pos 200) (pos 3321)).root
ensure_range_l-IsOrdered_example =
    ensure_range_l-IsOrdered two_ranges (pos 200) (pos 3321) two_ranges-IsOrdered

get_r-Occurs_example : BTree.get_r two_ranges.root (pos 300) ≡ pos 325
get_r-Occurs_example =
    get_r-Occurs two_ranges.root (pos 300) (pos 325) two_ranges-IsOrdered
      (inr (inr (inl (refl, refl))))
