-- ===== src/Datas/NamedList/Laws.antt =====
-- The named list of ioriot/src/datas/list.c as a finite map.
use ioriot.Prelude.{ℕ, ◌≡◌, ◌≢◌, refl, [], ◌∷◌, true, false, ◌==◌, if◌then◌else◌, arith}
use ioriot.Datas.Key.{Key}
use ioriot.Datas.NamedList.{NamedList, has_key, key_insert, key_remove, key_get}

module _ {K : Type 0} (kind : Key K) where
  -- No key occurs twice.
  abbrev pub IsNodup : NamedList K → Type 0
  IsNodup [] = Unit
  IsNodup ((k, item) ∷ next) = (has_key kind next k ≡ false) × IsNodup next

  -- Every pointer is set.
  abbrev pub IsSetAll : NamedList K → Type 0
  IsSetAll [] = Unit
  IsSetAll ((k, item) ∷ next) = (item ≢ 0) × IsSetAll next

  pub same_symm : (a b : K) → kind.same a b ≡ kind.same b a
  same_symm a b = ground (arith, kind.same→eq a b, kind.same→eq b a, kind.same_refl a)

  -- Insertion reports whether the key was new; a new key reads its pointer, and nothing else
  -- changes.
  pub key_insert_lem :
      (l : NamedList K) (key q : K) (item : ℕ)
      → ((key_insert kind l key item).0 ≡ (if has_key kind l key then 0 else 1))
        × (key_get kind (key_insert kind l key item).1 q ≡ (
            if has_key kind l key
            then key_get kind l q
            else if kind.same key q
            then item
            else key_get kind l q))
  unfolding key_insert key_get
  key_insert_lem l key q item = ground arith

  pub key_insert-IsNodup :
      (l : NamedList K) (key : K) (item : ℕ) → IsNodup l → IsNodup (key_insert kind l key item).1
  unfolding key_insert
  key_insert-IsNodup l key item h = ground arith

  pub key_get-absent :
      (l : NamedList K) (key : K) → has_key kind l key ≡ false → key_get kind l key ≡ 0
  unfolding has_key key_get
  key_get-absent [] key h = refl
  key_get-absent ((k, item) ∷ next) key h = ground (arith, key_get-absent next key)

  -- With the pointers set, a lookup is NULL exactly for the keys that are absent.
  pub has_key-get :
      (l : NamedList K) (key : K)
      → IsSetAll l
      → has_key kind l key ≡ (if key_get kind l key == 0 then false else true)
  unfolding has_key key_get
  has_key-get [] key h = refl
  has_key-get ((k, item) ∷ next) key h = ground (arith, has_key-get next key)

  has_key-remove :
      (l : NamedList K) (key q : K)
      → has_key kind l q ≡ false
      → has_key kind (key_remove kind l key).1 q ≡ false
  unfolding has_key key_remove
  has_key-remove [] key q h = refl
  has_key-remove ((k, item) ∷ next) key q h = ground (arith, has_key-remove next key q)

  -- Removal returns what the key read, after which it reads NULL; nothing else changes.
  pub key_remove_lem :
      (l : NamedList K) (key q : K)
      → IsNodup l
      → ((key_remove kind l key).0 ≡ key_get kind l key)
        × (key_get kind (key_remove kind l key).1 q
            ≡ (if kind.same key q then 0 else key_get kind l q))
        × IsNodup (key_remove kind l key).1
  unfolding key_remove key_get
  key_remove_lem [] key q h = ground arith
  key_remove_lem ((k, item) ∷ next) key q h = ground (
    arith,
    key_remove_lem next key q,
    kind.same→eq k key,
    kind.same→eq k q,
    kind.same→eq key q,
    has_key-remove next key k,
    key_get-absent next k,
    kind.same_refl k,
  )

  pub key_insert-IsSetAll :
      (l : NamedList K) (key : K) (item : ℕ)
      → item ≢ 0
      → IsSetAll l
      → IsSetAll (key_insert kind l key item).1
  unfolding key_insert
  key_insert-IsSetAll l key item n h = ground arith

  pub key_remove-IsSetAll :
      (l : NamedList K) (key : K) → IsSetAll l → IsSetAll (key_remove kind l key).1
  unfolding key_remove
  key_remove-IsSetAll [] key h = tt
  key_remove-IsSetAll ((k, item) ∷ next) key h = ground (arith, key_remove-IsSetAll next key)
