-- ===== src/Init/Asked/Sizes.antt =====
-- What a write does to the size that `v->bytes` of ioriot/src/generate/vsize.c keeps for the ranges
-- read and the ranges written.
use ioriot.Prelude.{
  lez_cases, eqz_cases, ltz_cases, +ℤ_parts, ◌≡◌, refl, [], Bool, true, false, Option, some, none,
  arith, ℤ, pos, negsuc, ltz, lez, ◌+ℤ◌,
}
use ioriot.Datas.BTree.{BTree}
use ioriot.Generate.DataRange.{ignore_file_hole_bytes, asks_for, ensure_data_range}
use ioriot.Generate.Section.{write_data, write_init_cb}
use ioriot.Generate.State.{Vsize}

-- An access behind a size, where neither ranges read nor ranges written are kept
abbrev pub behind : ℤ → Option BTree → Option BTree → ℤ → Bool
behind size none none offset = ltz size offset
behind size none (some written) offset = false
behind size (some read) written offset = false

pub size_kept :
    (size : ℤ) (read written : Option BTree) (offset bytes p : ℤ)
    → asks_for size read p ≡ true
    → behind size read written offset ≡ false
    → asks_for (ensure_data_range size written offset bytes).0 read p ≡ true
unfolding ensure_data_range
size_kept size none none offset bytes p h b = ground (
  arith,
  h,
  b,
  eqz_cases offset (pos 0),
  lez_cases offset size,
  ltz_cases size offset,
  ltz_cases (size +ℤ ignore_file_hole_bytes) bytes,
  ltz_cases size bytes,
  ltz_cases p size,
  ltz_cases p bytes,
  +ℤ_parts size ignore_file_hole_bytes,
)
size_kept size none (some written) offset bytes p h b = h
size_kept size (some read) written offset bytes p h b = h

pub size_lost :
    (size : ℤ) (read written : Option BTree) (offset bytes p : ℤ)
    → asks_for size read p ≡ true
    → behind size read written offset ≡ true
    → ((ensure_data_range size written offset bytes).0 ≡ negsuc 0) × (read ≡ none)
unfolding ensure_data_range
size_lost size none none offset bytes p h b = (
  ground (
    arith,
    h,
    b,
    eqz_cases offset (pos 0),
    lez_cases offset size,
    ltz_cases size offset,
    lez_cases (pos 0) p,
    ltz_cases p size,
  ),
  refl,
)
size_lost size none (some written) offset bytes p h b = absurd (ground (arith, b))
size_lost size (some read) written offset bytes p h b = absurd (ground (arith, b))

no_data :
    (v : Vsize) (read : Option BTree) → v.bytes ≡ negsuc 0 → read ≡ none → write_data v read ≡ []
unfolding lez
no_data v none e f = rw e refl
no_data v (some read) e f = absurd (ground (arith, f))

pub no_lines :
    (v : Vsize)
    → v.is_link ≡ false
    → v.bytes ≡ negsuc 0
    → v.read_ranges ≡ none
    → write_init_cb v ≡ []
unfolding write_init_cb
no_lines v l e f = ground (arith, l, no_data v v.read_ranges e f)
