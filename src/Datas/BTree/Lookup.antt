-- ===== src/Datas/BTree/Lookup.antt =====
-- What `btreelem_get_r` finds after `btreelem_insert_r`.
use ioriot.Prelude.{◌≡◌, Bool, true, false, if◌then◌else◌, ℤ, eqz→eq, eqz, ltz, arith}
use ioriot.Datas.BTree.{Elem, leaf, node, insert_r, get_r}

-- Whether the search for a key ends at an element.
pub contains : Elem → ℤ → Bool
contains leaf key = false
contains (node left right k v) key = elim (eqz k key) [
  | true ↦ true
  | false ↦ elim (ltz key k) [ true ↦ contains left key | false ↦ contains right key ]
]

insert_r-reads :
    (t : Elem) (key value q : ℤ)
    → ((insert_r t key value).1 ≡ (if contains t key then 0 else 1))
      × (get_r (insert_r t key value).0 q
          ≡ (if contains t key then get_r t q else if eqz key q then value else get_r t q))
unfolding insert_r get_r contains
insert_r-reads leaf key value q = ground arith
insert_r-reads (node left right k v) key value q =
    ground (arith, eqz→eq key q, insert_r-reads left key value q, insert_r-reads right key value q)

insert_r_same : (t : Elem) (key value : ℤ) → contains t key ≡ true → (insert_r t key value).0 ≡ t
unfolding insert_r contains
insert_r_same leaf key value h = absurd (ground (arith, h))
insert_r_same (node left right k v) key value h =
    ground (arith, h, insert_r_same left key value, insert_r_same right key value)

-- `btreelem_insert_r` returns 0 and leaves the tree as it is if the key is there; otherwise it
-- returns 1, and the key reads the new value, and every other key what it read before.
pub insert_r_lem :
    (t : Elem) (key value q : ℤ)
    → ((insert_r t key value).1 ≡ (if contains t key then 0 else 1))
      × (contains t key ≡ true → (insert_r t key value).0 ≡ t)
      × (get_r (insert_r t key value).0 q
          ≡ (if contains t key then get_r t q else if eqz key q then value else get_r t q))
insert_r_lem t key value q =
    ((insert_r-reads t key value q).0, insert_r_same t key value, (insert_r-reads t key value q).1)
