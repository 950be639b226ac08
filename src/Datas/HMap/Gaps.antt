-- ===== src/Datas/HMap/Gaps.antt =====
-- Where the hash map of ioriot/src/datas/hmap.c does not behave as a map: a removal beside another
-- key's direct entry, and keys of type `long` that `keys_l` cannot keep or that have no address.
use ioriot.Prelude.{
  fault, eqz→eq, negsuc, none, ◌%◌, ◌+◌, ℤ, get_or-set_self, set, ℕ, ◌≡◌, ◌≢◌, false, some, get_or,
  arith, ok,
}
use ioriot.Datas.Key.{to_int, get_addr_l, Key}
use ioriot.Datas.HMap.Buckets.{IsValid}
use ioriot.Datas.HMap.{long_key, insert_at, insert, HMap, remove_at, remove, get_at, get}

-- A removal of a key that meets another key's direct entry at its address takes that entry out: it
-- returns the other key's pointer, and the other key reads NULL.
pub remove_other :
    {K : Type 0} (kind : Key K) (h : HMap K) (key other : K) (addr : ℕ)
    → IsValid kind h
    → kind.addr key h.size ≡ some addr
    → kind.addr other h.size ≡ some addr
    → kind.same other key ≡ false
    → get_or h.values addr 0 ≢ 0
    → get_or h.keys addr kind.blank ≡ other
    → (h' : HMap K) × (get kind h other ≡ ok (get_or h.values addr 0))
      × (remove kind h key ≡ ok (get_or h.values addr 0, h'))
      × (get kind h' other ≡ ok 0)
unfolding remove remove_at get get_at
remove_other kind h key other addr v at_key at_other apart direct entry =
    let inside = kind.addr-lt key h.size addr v.not_empty at_key in
    (
      record h { keys = set h.keys addr kind.blank; values = set h.values addr 0 },
      ground (arith, at_other, kind.same_refl other),
      ground (arith, at_key),
      ground (
        arith,
        at_other,
        v.buckets addr,
        get_or-set_self h.values addr 0 0 (omega (arith, v.values_len)),
      ),
    )

-- A key that `keys_l` cannot keep reads NULL right after its pointer was inserted at a free
-- address.
pub insert_narrowed :
    (h : HMap ℤ) (key : ℤ) (item addr : ℕ)
    → IsValid long_key h
    → get_addr_l key h.size ≡ some addr
    → to_int key ≢ key
    → item ≢ 0
    → get_or h.values addr 0 ≡ 0
    → get_or h.lists addr none ≡ none
    → (h' : HMap ℤ) × (insert long_key h key item ≡ ok (1, h')) × (get long_key h' key ≡ ok 0)
unfolding insert insert_at get get_at
insert_narrowed h key item addr v at_key lost some_item free no_list =
    let inside = long_key.addr-lt key h.size addr v.not_empty at_key in
    (
      record h { keys = set h.keys addr (to_int key); values = set h.values addr item },
      ground (arith, at_key),
      ground (
        arith,
        at_key,
        eqz→eq (to_int key) key,
        get_or-set_self h.keys addr (to_int key) (negsuc 0) (omega (arith, v.keys_len)),
        get_or-set_self h.values addr item 0 (omega (arith, v.values_len)),
      ),
    )

-- A negative key that the size does not divide has no address: each operation leaves the arrays.
pub negative_key :
    (h : HMap ℤ) (n item : ℕ)
    → (n + 1) % h.size ≢ 0
    → item ≢ 0
    → (insert long_key h (negsuc n) item ≡ fault)
      × (remove long_key h (negsuc n) ≡ fault)
      × (get long_key h (negsuc n) ≡ fault)
unfolding insert remove get get_addr_l
negative_key h n item apart some_item = ground arith
