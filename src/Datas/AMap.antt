-- ===== src/Datas/AMap.antt =====
-- The array map of ioriot/src/datas/amap.c, without its printing and freeing, for the mapped
-- version as for the other. A pointer is its address, 0 for NULL. The conversions to `int` of the
-- array's number and of the place in it, which keep their value for sizes below 2^38, are left out.
pub mod Laws
pub mod Creation
use ioriot.Prelude.{
  ℕ, zero, suc, ◌+◌, ◌-◌, ◌*◌, ◌/◌, ◌%◌, List, [], ◌∷◌, ◌++◌, Bool, true, false, Option, some, none,
  ltb, leb, ◌==◌, if◌then◌else◌, length, get_elem?, get_or, set, replicate, ℤ, pos, negsuc,
}

-- `amap_s`; `arrays` holds `num_arrays` arrays.
pub record AMap : Type 0 where
  pub arrays : List (List ℕ)
  pub num_arrays : ℕ
  pub size : ℕ

-- `AMAP_MAX_ARRAY_LENGTH` is the text `1024*8`, with no brackets: `x / AMAP_MAX_ARRAY_LENGTH` is
-- `(x / 1024) * 8`, and so for `%`.
abbrev pub max_array_length : ℕ
max_array_length = 1024 * 8

pub which_array : ℕ → ℕ
which_array position = position / 1024 * 8

pub array_pos : ℕ → ℕ
array_pos position = position % 1024 * 8

-- The size that `_amap_new` settles on; `none` is its exit with "Size overflow".
pub round_size : ℤ → Option ℕ
round_size (pos n) =
    let size = if (n % 1024) == 0 then n else 1024 * (1 + n / 1024) in
    if ltb size 1 then none else some size
round_size (negsuc n) = if ltb (n + 1) 1024 then some 1024 else none

-- `_amap_new`, which `amap_new` and `amap_new_mmapped` call
unfoldable pub new : ℤ → Option AMap
unfolding round_size which_array
new size = elim (round_size size) [
  | none ↦ none
  | some n ↦ some (record {
    arrays = replicate (which_array n) (replicate max_array_length 0);
    num_arrays = which_array n;
    size = n;
  })
]

-- `a->arrays[i][j]`; `none` is an access outside the arrays.
pub slot : AMap → ℕ → ℕ → Option ℕ
slot a i j = elim (get_elem? a.arrays i) [ none ↦ none | some row ↦ get_elem? row j ]

-- `a->arrays[i][j] = value`
pub store : AMap → ℕ → ℕ → ℕ → Option AMap
unfolding slot
store a i j value = elim (slot a i j) [
  | none ↦ none
  | some old ↦ some (record a { arrays = set a.arrays i (set (get_or a.arrays i []) j value) })
]

-- `amap_set`: 0, or -1 beyond the size. A negative position passes the code's test and lies outside
-- the arrays.
unfoldable pub amap_set : AMap → ℤ → ℕ → Option (ℤ × AMap)
unfolding store which_array array_pos
amap_set a (negsuc n) value = none
amap_set a (pos position) value =
    if leb a.size position
    then some (negsuc 0, a)
    else elim (store a (which_array position) (array_pos position) value) [
      | none ↦ none
      | some a' ↦ some (pos 0, a')
    ]

-- `amap_get`: NULL beyond the size
unfoldable pub amap_get : AMap → ℤ → Option ℕ
unfolding slot which_array array_pos
amap_get a (negsuc n) = none
amap_get a (pos position) =
    if leb a.size position then some 0 else slot a (which_array position) (array_pos position)

-- `amap_unset`: the old value, NULL being stored in its place
unfoldable pub amap_unset : AMap → ℤ → Option (ℕ × AMap)
unfolding slot store which_array array_pos
amap_unset a (negsuc n) = none
amap_unset a (pos position) =
    if leb a.size position
    then some (0, a)
    else elim (slot a (which_array position) (array_pos position)) [
      | none ↦ none
      | some value ↦ elim (store a (which_array position) (array_pos position) 0) [
        | none ↦ none
        | some a' ↦ some (value, a')
      ]
    ]

clear_row : List ℕ → List ℕ
clear_row [] = []
clear_row (x ∷ row) = 0 ∷ clear_row row

clear_rows : List (List ℕ) → List (List ℕ)
unfolding clear_row
clear_rows [] = []
clear_rows (row ∷ rows) = clear_row row ∷ clear_rows rows

-- `amap_reset`
unfoldable pub amap_reset : AMap → AMap
unfolding clear_rows
amap_reset a = record a { arrays = clear_rows a.arrays }

row_calls : List ℕ → List ℕ
row_calls [] = []
row_calls (x ∷ row) = if x == 0 then row_calls row else x ∷ row_calls row

-- The arguments of the calls that `amap_run_cb` makes, in their order
pub amap_run_cb : List (List ℕ) → List ℕ
unfolding row_calls
amap_run_cb [] = []
amap_run_cb (row ∷ rows) = row_calls row ++ amap_run_cb rows
