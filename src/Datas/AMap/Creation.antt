-- ===== src/Datas/AMap/Creation.antt =====
-- New and reset array maps of ioriot/src/datas/amap.c.
use ioriot.Prelude.{
  ℕ, zero, suc, ◌+◌, ◌*◌, ◌/◌, ◌%◌, ◌≤◌, ◌<◌, ◌≡◌, refl, sym, ap, subst, ◌∙◌, List, [], ◌∷◌, some,
  length, get_or, replicate, pos, arith, length-replicate, get_or-replicate,
}
use native.Mathlib.Decide.{ℕ_discrete}
use ioriot.Datas.AMap.{
  AMap, max_array_length, which_array, array_pos, round_size, new, amap_reset, clear_row,
  clear_rows,
}
use ioriot.Datas.AMap.Laws.{IsValid, contents}

length-clear_row : (row : List ℕ) → length (clear_row row) ≡ length row
unfolding clear_row
length-clear_row [] = refl
length-clear_row (x ∷ row) = ap suc (length-clear_row row)

get_or-clear_row : (row : List ℕ) (j : ℕ) → get_or (clear_row row) j 0 ≡ 0
unfolding clear_row
get_or-clear_row [] j = refl
get_or-clear_row (x ∷ row) zero = refl
get_or-clear_row (x ∷ row) (suc j) = get_or-clear_row row j

get_or-clear_rows :
    (rows : List (List ℕ)) (i : ℕ) → get_or (clear_rows rows) i [] ≡ clear_row (get_or rows i [])
unfolding clear_rows clear_row
get_or-clear_rows [] i = refl
get_or-clear_rows (row ∷ rows) zero = refl
get_or-clear_rows (row ∷ rows) (suc i) = get_or-clear_rows rows i

length-clear_rows : (rows : List (List ℕ)) → length (clear_rows rows) ≡ length rows
unfolding clear_rows
length-clear_rows [] = refl
length-clear_rows (row ∷ rows) = ap suc (length-clear_rows rows)

-- `amap_reset` leaves NULL in every slot.
pub amap_reset_lem :
    (a : AMap) → IsValid a → IsValid (amap_reset a) × ((p : ℕ) → contents (amap_reset a) p ≡ 0)
unfolding amap_reset contents
amap_reset_lem a v = (
  record {
    aligned = v.aligned;
    allocated = length-clear_rows a.arrays ∙ v.allocated;
    whole = λ i hi.
        ap length (get_or-clear_rows a.arrays i)
        ∙ length-clear_row (get_or a.arrays i [])
        ∙ v.whole i (omega (arith, length-clear_rows a.arrays));
  },
  λ p. rw (get_or-clear_rows a.arrays (which_array p)) (get_or-clear_row _ (array_pos p)),
)

get_or-replicate_in {ℓ} : {A : Type ℓ} (n i : ℕ) (x d : A) → i < n → get_or (replicate n x) i d ≡ x
get_or-replicate_in zero i x d h = absurd (omega arith)
get_or-replicate_in (suc n) zero x d h = refl
get_or-replicate_in (suc n) (suc i) x d h = get_or-replicate_in n i x d (omega arith)

get_or-replicate-replicate :
    (k w i j : ℕ) → get_or (get_or (replicate k (replicate {A = ℕ} w 0)) i []) j 0 ≡ 0
get_or-replicate-replicate zero w i j = refl
get_or-replicate-replicate (suc k) w zero j = get_or-replicate w j 0
get_or-replicate-replicate (suc k) w (suc i) j = get_or-replicate-replicate k w i j

round_size_lem :
    (n : ℕ)
    → 0 < n
    → (m : ℕ) × (round_size (pos n) ≡ some m) × (m % 1024 ≡ 0) × (n ≤ m) × (m < n + 1024)
unfolding round_size
round_size_lem n h = elim (ℕ_discrete (n % 1024) 0) [
  | yes e ↦ (n, ground arith, e, omega arith, omega arith)
  | no e ↦ (1024 * (1 + n / 1024), ground arith, omega arith, omega arith, omega arith)
]

-- An array map of width `w` with NULL in every slot, seen by its laws.
blank_laws :
    (w k m : ℕ) (rows : List (List ℕ))
    → rows ≡ replicate k (replicate w 0)
    → (length rows ≡ k)
      × ((i : ℕ) → i < length rows → length (get_or rows i []) ≡ w)
      × ((i j : ℕ) → get_or (get_or rows i []) j 0 ≡ 0)
blank_laws w k m rows e =
    subst
      (λ rows.
        (length rows ≡ k)
        × ((i : ℕ) → i < length rows → length (get_or rows i []) ≡ w)
        × ((i j : ℕ) → get_or (get_or rows i []) j 0 ≡ 0))
      (sym e)
      (
        length-replicate k (replicate {A = ℕ} w 0),
        λ i hi.
            ap length (
              get_or-replicate_in k i (replicate {A = ℕ} w 0) []
                (omega (arith, length-replicate k (replicate {A = ℕ} w 0))))
            ∙ length-replicate w 0,
        get_or-replicate-replicate k w,
      )

new-round_size :
    (n m : ℕ)
    → round_size (pos n) ≡ some m
    → (a : AMap) × (new (pos n) ≡ some a)
      × (a.size ≡ m)
      × (a.arrays ≡ replicate (which_array m) (replicate max_array_length 0))
unfolding new
new-round_size n m e = (
  record {
    arrays = replicate (which_array m) (replicate max_array_length 0);
    num_arrays = which_array m;
    size = m;
  },
  rw (e, new),
  refl,
  refl,
)

-- A new array map has at least the size asked for, less than 1024 more, and NULL in every slot.
pub new_blank :
    (n : ℕ)
    → 0 < n
    → (a : AMap) × (new (pos n) ≡ some a)
      × IsValid a
      × (n ≤ a.size)
      × (a.size < n + 1024)
      × ((p : ℕ) → contents a p ≡ 0)
unfolding contents
new_blank n h =
    let (m, rounded, aligned, lower, upper) = round_size_lem n h in
    let (a, run, size, rows) = new-round_size n m rounded in
    let (count, whole, blank) = blank_laws max_array_length (which_array m) m a.arrays rows in
    (
      a,
      run,
      record { aligned = rw size aligned; allocated = rw size count; whole = whole },
      rw size lower,
      rw size upper,
      λ p. blank (which_array p) (array_pos p),
    )
