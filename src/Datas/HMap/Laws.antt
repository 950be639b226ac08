-- ===== src/Datas/HMap/Laws.antt =====
-- The hash map of ioriot/src/datas/hmap.c as a finite map.
use ioriot.Prelude.{
  refl, true, get_or-replicate, sym, inr, length-replicate, inl, ◌⊎◌, ap, Option-cases, ◌≢◌, ◌&&◌,
  fault, ok, some, Bool, ℕ, ◌<◌, ◌≡◌, ◌∙◌, ◌==◌, if◌then◌else◌, Option, none, get_or, set, arith,
  get_or-set_self, get_or-set_ne, length-set, set-get_or,
}
use native.Mathlib.Decide.{ℕ_discrete}
use ioriot.Datas.Key.{Key}
use ioriot.Datas.NamedList.{NamedList}
use ioriot.Datas.HMap.{new, remove, insert, get, HMap, insert_at, remove_at, get_at}
use ioriot.Datas.HMap.Buckets.{
  bucket_remove_lem, bucket_insert_lem, BucketOk, IsValid, bucket_get, bucket_insert, bucket_remove,
  get_at-bucket_get,
}

module _ {K : Type 0} (kind : Key K) where
  -- The hash map with the bucket at an address replaced
  put_bucket : HMap K → ℕ → K → ℕ → Option (NamedList K) → HMap K
  put_bucket h addr k item l = record h {
    keys = set h.keys addr k;
    values = set h.values addr item;
    lists = set h.lists addr l;
  }

  put_bucket-IsValid :
      (h : HMap K) (addr : ℕ) (k : K) (item : ℕ) (l : Option (NamedList K))
      → addr < h.size
      → IsValid kind h
      → BucketOk kind item l
      → IsValid kind (put_bucket h addr k item l)
  unfolding put_bucket
  put_bucket-IsValid h addr k item l a v good = record {
    not_empty = v.not_empty;
    keys_len = length-set h.keys addr k ∙ v.keys_len;
    values_len = length-set h.values addr item ∙ v.values_len;
    lists_len = length-set h.lists addr l ∙ v.lists_len;
    buckets = λ i. elim (ℕ_discrete addr i) [
      | yes e ↦
          rw
            (
              ← e,
              get_or-set_self h.values addr item 0 (omega (arith, v.values_len)),
              get_or-set_self h.lists addr l none (omega (arith, v.lists_len)),
            )
            good
      | no n ↦
          rw (get_or-set_ne h.values addr i item 0 n, get_or-set_ne h.lists addr i l none n)
            (v.buckets i)
    ];
  }

  get_at-put_bucket :
      (h : HMap K) (addr b : ℕ) (k : K) (item : ℕ) (l : Option (NamedList K)) (q : K)
      → addr < h.size
      → IsValid kind h
      → get_at kind (put_bucket h addr k item l) b q
        ≡ (if addr == b then bucket_get kind k item l q else get_at kind h b q)
  unfolding put_bucket bucket_get
  get_at-put_bucket h addr b k item l q a v =
      get_at-bucket_get kind (put_bucket h addr k item l) b q ∙ elim (ℕ_discrete addr b) [
        | yes e ↦ ground (
          arith,
          e,
          get_or-set_self h.keys addr k kind.blank (omega (arith, v.keys_len)),
          get_or-set_self h.values addr item 0 (omega (arith, v.values_len)),
          get_or-set_self h.lists addr l none (omega (arith, v.lists_len)),
        )
        | no n ↦ ground (
          arith,
          get_or-set_ne h.keys addr b k kind.blank n,
          get_or-set_ne h.values addr b item 0 n,
          get_or-set_ne h.lists addr b l none n,
          get_at-bucket_get kind h b q,
        )
      ]

  insert_at-bucket_insert :
      (h : HMap K) (addr : ℕ) (key : K) (item : ℕ)
      → let (ret, k', item', l') =
          bucket_insert kind
            (get_or h.keys addr kind.blank)
            (get_or h.values addr 0)
            (get_or h.lists addr none)
            key
            item in
        insert_at kind h addr key item ≡ (ret, put_bucket h addr k' item' l')
  unfolding insert_at bucket_insert put_bucket
  insert_at-bucket_insert h addr key item = ground (
    arith,
    set-get_or h.keys addr kind.blank,
    set-get_or h.values addr 0,
    set-get_or h.lists addr none,
  )

  remove_at-bucket_remove :
      (h : HMap K) (addr : ℕ) (key : K)
      → let (found, k', item', l') =
          bucket_remove kind
            (get_or h.keys addr kind.blank)
            (get_or h.values addr 0)
            (get_or h.lists addr none)
            key in
        remove_at kind h addr key ≡ (found, put_bucket h addr k' item' l')
  unfolding remove_at bucket_remove put_bucket
  remove_at-bucket_remove h addr key = ground (
    arith,
    set-get_or h.keys addr kind.blank,
    set-get_or h.values addr 0,
    set-get_or h.lists addr none,
  )

  -- What `hmap_get` returns
  unfoldable pub view : HMap K → K → ℕ
  view h q = elim (get kind h q) [ ok item ↦ item | _ ↦ 0 ]

  get-get_at :
      (h : HMap K) (q : K) {b : ℕ}
      → kind.addr q h.size ≡ some b
      → get kind h q ≡ ok (get_at kind h b q)
  unfolding get
  get-get_at h q e = rw (e, get)

  get-fault : (h : HMap K) (q : K) → kind.addr q h.size ≡ none → get kind h q ≡ fault
  unfolding get
  get-fault h q e = rw (e, get)

  -- Lookups after one bucket has been replaced
  get-put_bucket :
      (h : HMap K) (addr : ℕ) (k : K) (item : ℕ) (l : Option (NamedList K)) (key q : K)
      (test : Bool) (value : ℕ)
      → IsValid kind h
      → kind.addr key h.size ≡ some addr
      → bucket_get kind k item l q ≡ (
          if test && kind.same key q
          then value
          else bucket_get kind
              (get_or h.keys addr kind.blank)
              (get_or h.values addr 0)
              (get_or h.lists addr none)
              q)
      → get kind (put_bucket h addr k item l) q
        ≡ (if test && kind.same key q then ok value else get kind h q)
  get-put_bucket h addr k item l key q test value v at_key here =
      let a = kind.addr-lt key h.size addr v.not_empty at_key in
      elim (Option-cases (kind.addr q h.size)) [
        | inl outside ↦ ground (
          arith,
          kind.same→eq key q,
          get-fault h q outside,
          get-fault (put_bucket h addr k item l) q (unfold put_bucket in outside),
        )
        | inr (b, at_q) ↦ ground (
          arith,
          kind.same→eq key q,
          get-get_at h q at_q,
          get-get_at (put_bucket h addr k item l) q {b = b} (unfold put_bucket in at_q),
          get_at-put_bucket h addr b k item l q a v,
          get_at-bucket_get kind h b q,
        )
      ]

  module _ (h : HMap K) (key : K) {addr : ℕ} (v : IsValid kind h)
      (at_key : kind.addr key h.size ≡ some addr) where
    view-bucket_get :
        view h key
        ≡ bucket_get kind
            (get_or h.keys addr kind.blank)
            (get_or h.values addr 0)
            (get_or h.lists addr none)
            key
    unfolding view
    view-bucket_get = rw (get-get_at h key at_key, view) (get_at-bucket_get kind h addr key)

    insert-insert_at :
        (item : ℕ) → item ≢ 0 → insert kind h key item ≡ ok (insert_at kind h addr key item)
    unfolding insert
    insert-insert_at item some_item = ground (arith, at_key)

    remove-remove_at : remove kind h key ≡ ok (remove_at kind h addr key)
    unfolding remove
    remove-remove_at = rw (at_key, remove)

    -- Inserting a pointer under a key that the arrays can keep: 1 is returned if the key read NULL,
    -- which then reads the pointer, and 0 if not, when nothing changes; no other key changes.
    pub insert_lem :
        (item : ℕ)
        → item ≢ 0
        → kind.narrow key ≡ key
        → (h' : HMap K) × (insert kind h key item ≡ ok (if view h key == 0 then 1 else 0, h'))
          × IsValid kind h'
          × (h'.size ≡ h.size)
          × ((q : K)
              → get kind h' q
                ≡ (if view h key == 0 && kind.same key q then ok item else get kind h q))
    insert_lem item some_item kept =
        let k = get_or h.keys addr kind.blank in
        let old = get_or h.values addr 0 in
        let l = get_or h.lists addr none in
        let (ret, k', item', l') = bucket_insert kind k old l key item in
        let facts =
          λ (q : K). bucket_insert_lem kind k old l key q item (v.buckets addr) some_item kept in
        (
          put_bucket h addr k' item' l',
          insert-insert_at item some_item
              ∙ ap ok (
                  insert_at-bucket_insert h addr key item
                  ∙ ap (λ r. (r, put_bucket h addr k' item' l'))
                      ((facts key).0 ∙ rw view-bucket_get)),
          put_bucket-IsValid h addr k' item' l' (kind.addr-lt key h.size addr v.not_empty at_key) v
              (facts key).1,
          unfold put_bucket in refl,
          λ q.
              rw view-bucket_get
                (get-put_bucket h addr k' item' l' key q _ item v at_key (facts q).2),
        )

    -- Removing a key that is there, or one at whose address there is no direct entry, returns what
    -- the key read; then it reads NULL, and no other key changes.
    pub remove_lem :
        (view h key ≢ 0) ⊎ (get_or h.values addr 0 ≡ 0)
        → (h' : HMap K) × (remove kind h key ≡ ok (view h key, h'))
          × IsValid kind h'
          × (h'.size ≡ h.size)
          × ((q : K) → get kind h' q ≡ (if kind.same key q then ok 0 else get kind h q))
    remove_lem there =
        let k = get_or h.keys addr kind.blank in
        let old = get_or h.values addr 0 in
        let l = get_or h.lists addr none in
        let (found, k', item', l') = bucket_remove kind k old l key in
        let there' : (bucket_get kind k old l key ≢ 0) ⊎ (old ≡ 0) =
          ground (arith, view-bucket_get) in
        let facts = λ (q : K). bucket_remove_lem kind k old l key q (v.buckets addr) there' in
        (
          put_bucket h addr k' item' l',
          remove-remove_at
              ∙ ap ok (
                  remove_at-bucket_remove h addr key
                  ∙ ap (λ r. (r, put_bucket h addr k' item' l'))
                      ((facts key).0 ∙ sym view-bucket_get)),
          put_bucket-IsValid h addr k' item' l' (kind.addr-lt key h.size addr v.not_empty at_key) v
              (facts key).1,
          unfold put_bucket in refl,
          λ q. get-put_bucket h addr k' item' l' key q true 0 v at_key (facts q).2,
        )

  -- A new hash map reads NULL everywhere.
  pub new_lem :
      (size : ℕ)
      → 0 < size
      → IsValid kind (new kind size) × ((key : K) → view (new kind size) key ≡ 0)
  unfolding new view get get_at
  new_lem size pos = (
    record {
      not_empty = pos;
      keys_len = length-replicate size kind.blank;
      values_len = length-replicate size 0;
      lists_len = length-replicate size none;
      buckets = λ i.
          rw
            (
              get_or-replicate {A = ℕ} size i 0,
              get_or-replicate {A = Option (NamedList K)} size i none,
            )
            tt;
    },
    λ key. elim (Option-cases (kind.addr key size)) [
      | inl e ↦ ground (arith, e)
      | inr (b, e) ↦ ground (
        arith,
        e,
        get_or-replicate {A = ℕ} size b 0,
        get_or-replicate {A = Option (NamedList K)} size b none,
      )
    ],
  )
