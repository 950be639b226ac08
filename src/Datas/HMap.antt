-- ===== src/Datas/HMap.antt =====
-- The hash map of ioriot/src/datas/hmap.c, without its printing and freeing. Each address has a
-- direct entry, in `keys` (or `keys_l`) and `data`, and a list for keys that met there. A pointer
-- is its address, 0 for NULL. The versions for strings and for `long` differ in their key alone.
pub mod Buckets
pub mod Laws
pub mod Gaps
use ioriot.Prelude.{
  ℕ, List, [], ◌∷◌, ◌++◌, Bool, true, false, ◌==◌, if◌then◌else◌, Option, some, none, ℤ, get_or,
  set, replicate, Outcome, ok, exit, fault, ◌&&◌, not,
}
use ioriot.Datas.Key.{Key, string_key, long_key}
use ioriot.Datas.NamedList
use ioriot.Datas.NamedList.{NamedList}

-- `hmap_s`
pub record HMap (K : Type 0) : Type 0 where
  pub keys : List K
  pub values : List ℕ
  pub lists : List (Option (NamedList K))
  pub size : ℕ

module _ {K : Type 0} (kind : Key K) where
  -- `hmap_new`, `hmap_new_l`
  unfoldable pub new : ℕ → HMap K
  new size = record {
    keys = replicate size kind.blank;
    values = replicate size 0;
    lists = replicate size none;
    size = size;
  }

  -- `hmap_insert` and `hmap_insert_l` at the address of the key
  pub insert_at : HMap K → ℕ → K → ℕ → ℕ × HMap K
  insert_at h addr key item =
      let old_key = get_or h.keys addr kind.blank in
      let old = get_or h.values addr 0 in
      if not (old == 0)
      then (if kind.same key old_key
          then (0, h)
          else (let l = (NamedList.key_insert kind [] old_key old).1 in
              (
                1,
                record h {
                  keys = set h.keys addr kind.blank;
                  values = set h.values addr 0;
                  lists = set h.lists addr (some (NamedList.key_insert kind l key item).1);
                },
              )))
      else elim (get_or h.lists addr none) [
        | some l ↦
            let (ret, l') = NamedList.key_insert kind l key item in
            (ret, record h { lists = set h.lists addr (some l') })
        | none ↦ (
          1,
          record h { keys = set h.keys addr (kind.narrow key); values = set h.values addr item },
        )
      ]

  -- `hmap_insert`, `hmap_insert_l`: NULL ends the process.
  unfoldable pub insert : HMap K → K → ℕ → Outcome (ℕ × HMap K)
  unfolding insert_at
  insert h key item =
      if item == 0
      then exit
      else elim (kind.addr key h.size) [ none ↦ fault | some addr ↦ ok (insert_at h addr key item) ]

  pub remove_at : HMap K → ℕ → K → ℕ × HMap K
  remove_at h addr key =
      let old = get_or h.values addr 0 in
      if not (old == 0)
      then (old, record h { keys = set h.keys addr kind.blank; values = set h.values addr 0 })
      else elim (get_or h.lists addr none) [
        | some l ↦
            let (item, l') = NamedList.key_remove kind l key in
            (item, record h { lists = set h.lists addr (some l') })
        | none ↦ (0, h)
      ]

  -- `hmap_remove`, `hmap_remove_l`
  unfoldable pub remove : HMap K → K → Outcome (ℕ × HMap K)
  unfolding remove_at
  remove h key = elim (kind.addr key h.size) [
    | none ↦ fault
    | some addr ↦ ok (remove_at h addr key)
  ]

  pub get_at : HMap K → ℕ → K → ℕ
  get_at h addr key =
      let old = get_or h.values addr 0 in
      if not (old == 0) && kind.same (get_or h.keys addr kind.blank) key
      then old
      else elim (get_or h.lists addr none) [ some l ↦ NamedList.key_get kind l key | none ↦ 0 ]

  -- `hmap_get`, `hmap_get_l`
  unfoldable pub get : HMap K → K → Outcome ℕ
  unfolding get_at
  get h key = elim (kind.addr key h.size) [ none ↦ fault | some addr ↦ ok (get_at h addr key) ]

-- The arguments of the calls that `hmap_run_cb` and `hmap_run_cb2` make, in their order, from the
-- direct entries and the lists of all addresses
pub run_cb : {K : Type 0} → List ℕ → List (Option (NamedList K)) → List ℕ
run_cb [] lists = []
run_cb (item ∷ values) [] = []
run_cb (item ∷ values) (l ∷ lists) =
    let rest = run_cb values lists in
    let here = if item == 0 then rest else item ∷ rest in
    elim l [ none ↦ here | some l' ↦ NamedList.run_cb l' ++ here ]
