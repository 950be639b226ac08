-- ===== src/Generate/DataRange.antt =====
-- `vsize_ensure_data_range` of ioriot/src/generate/vsize.c, which records how much of a file must
-- exist: a size, or, once the file has a hole, a tree of ranges.
use ioriot.Prelude.{
  ◌*◌, ◌≡◌, ◌≢◌, ◌⊎◌, Bool, true, ◌||◌, Option, some, none, if◌then◌else◌, ℤ, pos, negsuc, eqz, ltz,
  lez, ◌+ℤ◌, ◌≤ℤ◌, ◌<ℤ◌, arith, eqz_cases, ltz_cases, lez_cases, +ℤ_parts,
}
use ioriot.Datas.BTree
use ioriot.Datas.BTree.{BTree, ensure_range_l}
use ioriot.Datas.BTree.Ranges.{within, covers}
use ioriot.Datas.BTree.Queries.{covers-ensure_range_l}

-- `IGNORE_FILE_HOLE_BYTES`
abbrev pub ignore_file_hole_bytes : ℤ
ignore_file_hole_bytes = pos (1024 * 1024 * 10)

-- `v->bytes` and `*ranges` after the call, from those before it
unfoldable pub ensure_data_range : ℤ → Option BTree → ℤ → ℤ → ℤ × Option BTree
ensure_data_range size (some ranges) offset bytes =
    (size, some (ensure_range_l ranges offset (offset +ℤ bytes)))
ensure_data_range size none offset bytes =
    if eqz offset (pos 0)
    then (if ltz (size +ℤ ignore_file_hole_bytes) bytes then (bytes, none) else (size, none))
    else if lez offset size
    then (if ltz size bytes then (bytes, none) else (size, none))
    else (
      negsuc 0,
      some (ensure_range_l (BTree.insert BTree.new (pos 0) size).0 offset (offset +ℤ bytes)),
    )

-- Whether a size and a tree, if there is one, ask for the position `p`. A file has one size and two
-- trees; the INIT section is written from the size and the tree of what was read.
abbrev pub asks_for : ℤ → Option BTree → ℤ → Bool
asks_for size none p = within p (pos 0) size
asks_for size (some ranges) p = covers ranges.root p

covers-first :
    (size p : ℤ) → covers (BTree.insert BTree.new (pos 0) size).0.root p ≡ within p (pos 0) size
unfolding BTree.insert BTree.new BTree.insert_r covers
covers-first size p = ground arith

-- An access behind the size, or one where there is a tree already, adds its positions to what the
-- size and the tree ask for, and no other.
pub asks_for-ensure_hole :
    (size : ℤ) (ranges : Option BTree) (offset bytes p : ℤ)
    → (ranges ≢ none) ⊎ ((size <ℤ offset) × (pos 0 <ℤ offset))
    → asks_for
        (ensure_data_range size ranges offset bytes).0
        (ensure_data_range size ranges offset bytes).1
        p
      ≡ (asks_for size ranges p || within p offset (offset +ℤ bytes))
unfolding ensure_data_range
asks_for-ensure_hole size (some ranges) offset bytes p h =
    covers-ensure_range_l ranges offset (offset +ℤ bytes) p
asks_for-ensure_hole size none offset bytes p h = ground (
  arith,
  eqz_cases offset (pos 0),
  lez_cases offset size,
  covers-ensure_range_l (BTree.insert BTree.new (pos 0) size).0 offset (offset +ℤ bytes) p,
  covers-first size p,
)

-- Whatever the access, a position that the size and the tree asked for still is.
pub asks_for_kept :
    (size : ℤ) (ranges : Option BTree) (offset bytes p : ℤ)
    → asks_for size ranges p ≡ true
    → asks_for
        (ensure_data_range size ranges offset bytes).0
        (ensure_data_range size ranges offset bytes).1
        p
      ≡ true
unfolding ensure_data_range
asks_for_kept size (some ranges) offset bytes p h =
    ground (arith, covers-ensure_range_l ranges offset (offset +ℤ bytes) p)
asks_for_kept size none offset bytes p h = ground (
  arith,
  ltz_cases (size +ℤ ignore_file_hole_bytes) bytes,
  ltz_cases size bytes,
  ltz_cases p size,
  ltz_cases p bytes,
  +ℤ_parts size ignore_file_hole_bytes,
  covers-ensure_range_l (BTree.insert BTree.new (pos 0) size).0 offset (offset +ℤ bytes) p,
  covers-first size p,
)

-- An access at 0 that reaches behind the recorded size by up to 10 MiB leaves the size as it is.
pub start_ignored :
    (size bytes : ℤ)
    → bytes ≤ℤ size +ℤ ignore_file_hole_bytes
    → ensure_data_range size none (pos 0) bytes ≡ (size, none)
unfolding ensure_data_range
start_ignored size bytes h =
    ground (arith, eqz_cases (pos 0) (pos 0), ltz_cases (size +ℤ ignore_file_hole_bytes) bytes)
