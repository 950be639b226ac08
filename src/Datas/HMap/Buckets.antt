-- ===== src/Datas/HMap/Buckets.antt =====
-- One address of a hash map: when it is in order, and what an insertion and a removal there do.
use ioriot.Prelude.{
  ◌⊎◌, ◌≢◌, ℕ, ◌<◌, ◌≡◌, refl, [], ◌==◌, ◌&&◌, not, if◌then◌else◌, Option, some, none, get_or,
  length, arith,
}
use ioriot.Datas.Key.{Key}
use ioriot.Datas.NamedList
use ioriot.Datas.NamedList.{NamedList}
use ioriot.Datas.NamedList.Laws.{
  IsNodup, IsSetAll, key_insert_lem, key_insert-IsNodup, key_insert-IsSetAll, has_key-get,
  same_symm, key_remove_lem, key_remove-IsSetAll,
}
use ioriot.Datas.HMap.{HMap, get_at}

module _ {K : Type 0} (kind : Key K) where
  -- An address with a list has no direct entry, and the list is in order.
  abbrev pub BucketOk : ℕ → Option (NamedList K) → Type 0
  BucketOk item none = Unit
  BucketOk item (some l) = (item ≡ 0) × IsNodup kind l × IsSetAll kind l

  pub record IsValid (h : HMap K) : Type 0 where
    pub not_empty : 0 < h.size
    pub keys_len : length h.keys ≡ h.size
    pub values_len : length h.values ≡ h.size
    pub lists_len : length h.lists ≡ h.size
    pub buckets : (i : ℕ) → BucketOk (get_or h.values i 0) (get_or h.lists i none)

  -- A lookup in the bucket made of a direct entry and a list
  unfoldable pub bucket_get : K → ℕ → Option (NamedList K) → K → ℕ
  bucket_get k item l q =
      if not (item == 0) && kind.same k q
      then item
      else elim l [ some l' ↦ NamedList.key_get kind l' q | none ↦ 0 ]

  pub get_at-bucket_get :
      (h : HMap K) (addr : ℕ) (q : K)
      → get_at kind h addr q
        ≡ bucket_get
            (get_or h.keys addr kind.blank)
            (get_or h.values addr 0)
            (get_or h.lists addr none)
            q
  unfolding get_at bucket_get
  get_at-bucket_get h addr q = refl

  -- What an insertion makes of a bucket
  unfoldable pub bucket_insert :
      K → ℕ → Option (NamedList K) → K → ℕ → ℕ × K × ℕ × Option (NamedList K)
  bucket_insert k item l key new_item =
      if not (item == 0)
      then (if kind.same key k then (0, k, item, l) else (
        1,
        kind.blank,
        0,
        some (NamedList.key_insert kind (NamedList.key_insert kind [] k item).1 key new_item).1,
      ))
      else elim l [
        | some l' ↦
            let (ret, l'') = NamedList.key_insert kind l' key new_item in (ret, k, item, some l'')
        | none ↦ (1, kind.narrow key, new_item, none)
      ]

  pub bucket_insert_lem :
      (k : K) (item : ℕ) (l : Option (NamedList K)) (key q : K) (new_item : ℕ)
      → BucketOk item l
      → new_item ≢ 0
      → kind.narrow key ≡ key
      → let (ret, k', item', l') = bucket_insert k item l key new_item in
        (ret ≡ (if bucket_get k item l key == 0 then 1 else 0))
        × BucketOk item' l'
        × (bucket_get k' item' l' q ≡ (
            if bucket_get k item l key == 0 && kind.same key q
            then new_item
            else bucket_get k item l q))
  unfolding bucket_insert bucket_get NamedList.key_insert NamedList.key_get NamedList.has_key
  bucket_insert_lem k item none key q new_item ok n e = ground (arith, same_symm kind k key)
  bucket_insert_lem k item (some l) key q new_item ok n e = ground (
    arith,
    key_insert_lem kind l key q new_item,
    key_insert-IsNodup kind l key new_item,
    key_insert-IsSetAll kind l key new_item,
    has_key-get kind l key,
  )

  -- What a removal makes of a bucket
  unfoldable pub bucket_remove : K → ℕ → Option (NamedList K) → K → ℕ × K × ℕ × Option (NamedList K)
  bucket_remove k item l key = if not (item == 0) then (item, kind.blank, 0, l) else elim l [
    | some l' ↦ let (found, l'') = NamedList.key_remove kind l' key in (found, k, item, some l'')
    | none ↦ (0, k, item, none)
  ]

  -- A removal is right where the key is there, or where the direct entry is free.
  pub bucket_remove_lem :
      (k : K) (item : ℕ) (l : Option (NamedList K)) (key q : K)
      → BucketOk item l
      → (bucket_get k item l key ≢ 0) ⊎ (item ≡ 0)
      → let (found, k', item', l') = bucket_remove k item l key in
        (found ≡ bucket_get k item l key)
        × BucketOk item' l'
        × (bucket_get k' item' l' q ≡ (if kind.same key q then 0 else bucket_get k item l q))
  unfolding bucket_remove bucket_get
  bucket_remove_lem k item none key q ok there =
      ground (arith, kind.same→eq k key, kind.same→eq k q, kind.same→eq key q, kind.same_refl k)
  bucket_remove_lem k item (some l) key q ok there = ground (
    arith,
    kind.same→eq k key,
    kind.same→eq k q,
    kind.same→eq key q,
    kind.same_refl k,
    key_remove_lem kind l key q,
    key_remove-IsSetAll kind l key,
  )
