-- ===== src/Datas/AMap/Laws.antt =====
-- The array map of ioriot/src/datas/amap.c as an array of pointers.
use ioriot.Prelude.{
  ℕ, zero, suc, ◌*◌, ◌/◌, ◌%◌, ◌<◌, ◌≡◌, ◌≢◌, refl, ap, subst, ◌&&◌, ◌∙◌, List, [], ◌∷◌, some, ltb,
  ◌==◌, if◌then◌else◌, length, get_elem?, get_or, set, pos, negsuc, arith, length-set,
  get_or-set_self, get_or-set_ne,
}
use native.Mathlib.Decide.{ℕ_discrete, dec_lt}
use ioriot.Datas.AMap.{
  AMap, max_array_length, which_array, array_pos, slot, store, amap_set, amap_get, amap_unset,
}

-- Every array is whole, and there is one for each position up to the size.
pub record IsValid (a : AMap) : Type 0 where
  pub aligned : a.size % 1024 ≡ 0
  pub allocated : length a.arrays ≡ which_array a.size
  pub whole : (i : ℕ) → i < length a.arrays → length (get_or a.arrays i []) ≡ max_array_length

-- What the slot of a position holds.
unfoldable pub contents : AMap → ℕ → ℕ
unfolding which_array array_pos
contents a position = get_or (get_or a.arrays (which_array position) []) (array_pos position) 0

get_elem?-get_or {ℓ} :
    {A : Type ℓ} (xs : List A) (i : ℕ) (d : A)
    → i < length xs
    → get_elem? xs i ≡ some (get_or xs i d)
get_elem?-get_or [] i d h = absurd (omega arith)
get_elem?-get_or (x ∷ xs) zero d h = refl
get_elem?-get_or (x ∷ xs) (suc i) d h = get_elem?-get_or xs i d (omega arith)

-- The slot of a position below the size lies inside the arrays.
pub slot_in_bounds :
    (a : AMap) (p : ℕ)
    → IsValid a
    → p < a.size
    → (which_array p < length a.arrays)
      × (array_pos p < length (get_or a.arrays (which_array p) []))
unfolding which_array array_pos
slot_in_bounds a p v h =
    let row : p / 1024 * 8 < length a.arrays = omega (arith, v.aligned, v.allocated) in
    (row, omega (arith, v.whole (p / 1024 * 8) row))

-- Two positions have two slots.
pub slots_apart : (p q : ℕ) → p ≢ q → which_array p ≡ which_array q → array_pos p ≢ array_pos q
unfolding which_array array_pos
slots_apart p q h e f = h (omega arith)

-- The array map after a write to the slot of a position.
abbrev stored : AMap → ℕ → ℕ → AMap
stored a p value =
    let i = which_array p in
    record a { arrays = set a.arrays i (set (get_or a.arrays i []) (array_pos p) value) }

contents-stored :
    (a : AMap) (p q value : ℕ)
    → (which_array p < length a.arrays)
      × (array_pos p < length (get_or a.arrays (which_array p) []))
    → contents (stored a p value) q ≡ (if p == q then value else contents a q)
unfolding contents
contents-stored a p q value inside =
    let row = get_or a.arrays (which_array p) [] in
    elim (ℕ_discrete p q) [
      | yes e ↦
          subst (λ q. contents (stored a p value) q ≡ (if p == q then value else contents a q)) e
            (ground (
              arith,
              get_or-set_self a.arrays (which_array p) (set row (array_pos p) value) [] inside.0,
              get_or-set_self row (array_pos p) value 0 inside.1,
            ))
      | no n ↦ elim (ℕ_discrete (which_array p) (which_array q)) [
        | no m ↦ ground (
          arith,
          get_or-set_ne a.arrays (which_array p) (which_array q) (set row (array_pos p) value) [] m,
        )
        | yes e ↦ ground (
          arith,
          get_or-set_self a.arrays (which_array p) (set row (array_pos p) value) [] inside.0,
          get_or-set_ne row (array_pos p) (array_pos q) value 0 (slots_apart p q n e),
        )
      ]
    ]

stored-IsValid : (a : AMap) (p value : ℕ) → IsValid a → p < a.size → IsValid (stored a p value)
stored-IsValid a p value v h =
    let (inside, place) = slot_in_bounds a p v h in
    let row = get_or a.arrays (which_array p) [] in
    record {
      aligned = v.aligned;
      allocated = length-set a.arrays _ _ ∙ v.allocated;
      whole = λ i hi.
          let hi' : i < length a.arrays =
            omega (arith, length-set a.arrays (which_array p) (set row (array_pos p) value)) in
          elim (ℕ_discrete (which_array p) i) [
            | yes e ↦ rw (← e) (
                ap length (get_or-set_self a.arrays (which_array p) _ [] inside)
                ∙ length-set row (array_pos p) value
                ∙ v.whole (which_array p) inside)
            | no n ↦ ap length (get_or-set_ne a.arrays (which_array p) i _ [] n) ∙ v.whole i hi'
          ];
    }

module _ (a : AMap) (p : ℕ) (v : IsValid a) where
  slot-contents : p < a.size → slot a (which_array p) (array_pos p) ≡ some (contents a p)
  unfolding slot contents
  slot-contents h =
      let (row, place) = slot_in_bounds a p v h in
      rw (get_elem?-get_or a.arrays (which_array p) [] row, slot)
        (get_elem?-get_or _ (array_pos p) 0 place)

  store-stored :
      (value : ℕ)
      → p < a.size
      → store a (which_array p) (array_pos p) value ≡ some (stored a p value)
  unfolding store
  store-stored value h = rw (slot-contents h, store)

  -- `amap_get` of a position below the size reads its slot; at or beyond the size it returns NULL.
  pub amap_get_lem : amap_get a (pos p) ≡ some (if ltb p a.size then contents a p else 0)
  unfolding amap_get
  amap_get_lem = ground (arith, slot-contents)

  -- `amap_set` returns 0 and changes the slot of its position alone; at or beyond the size it
  -- returns -1 and changes nothing.
  pub amap_set_lem :
      (value : ℕ)
      → (b : AMap) × (amap_set a (pos p) value ≡ some (if ltb p a.size then pos 0 else negsuc 0, b))
        × IsValid b
        × (b.size ≡ a.size)
        × ((q : ℕ) → contents b q ≡ (if ltb p a.size && p == q then value else contents a q))
  unfolding amap_set
  amap_set_lem value = elim (dec_lt p a.size) [
    | yes h ↦ (
      stored a p value,
      ground (arith, store-stored value),
      stored-IsValid a p value v h,
      refl,
      λ q. ground (arith, contents-stored a p q value (slot_in_bounds a p v h)),
    )
    | no h ↦ (a, ground arith, v, refl, λ q. ground arith)
  ]

  -- `amap_unset` returns what the slot of its position held and leaves NULL there, and changes
  -- nothing else; at or beyond the size it returns NULL and changes nothing.
  pub amap_unset_lem :
      (b : AMap) × (amap_unset a (pos p) ≡ some (if ltb p a.size then contents a p else 0, b))
      × IsValid b
      × (b.size ≡ a.size)
      × ((q : ℕ) → contents b q ≡ (if ltb p a.size && p == q then 0 else contents a q))
  unfolding amap_unset
  amap_unset_lem = elim (dec_lt p a.size) [
    | yes h ↦ (
      stored a p 0,
      ground (arith, store-stored 0, slot-contents),
      stored-IsValid a p 0 v h,
      refl,
      λ q. ground (arith, contents-stored a p q 0 (slot_in_bounds a p v h)),
    )
    | no h ↦ (a, ground arith, v, refl, λ q. ground arith)
  ]
