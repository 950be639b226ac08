-- ===== src/Datas/NamedList.antt =====
-- The "named" linked list of ioriot/src/datas/list.c, without its printing and freeing. The chain
-- of elements is a list of keys and data pointers, the first element first; a pointer is its
-- address, 0 for NULL. The functions for strings and those for `long` differ in their key alone.
pub mod Laws
use ioriot.Prelude.{ℕ, List, [], ◌∷◌, ◌++◌, Bool, true, false, ◌==◌, if◌then◌else◌, ℤ}
use ioriot.Datas.Key.{Key, string_key, long_key}

abbrev pub NamedList : Type 0 → Type 0
NamedList K = List (K × ℕ)

module _ {K : Type 0} (kind : Key K) where
  -- The loop that looks for a key before an insertion
  unfoldable pub has_key : NamedList K → K → Bool
  has_key [] key = false
  has_key ((k, item) ∷ next) key = if kind.same k key then true else has_key next key

  -- `list_key_insert`, `list_key_insert_l`: the new element comes first.
  unfoldable pub key_insert : NamedList K → K → ℕ → ℕ × NamedList K
  unfolding has_key
  key_insert l key item = if has_key l key then (0, l) else (1, (key, item) ∷ l)

  -- `list_key_remove`, `list_key_remove_l`
  unfoldable pub key_remove : NamedList K → K → ℕ × NamedList K
  key_remove [] key = (0, [])
  key_remove ((k, item) ∷ next) key =
      let (found, next') = key_remove next key in
      if kind.same k key then (item, next) else (found, (k, item) ∷ next')

  -- `list_key_get`, `list_key_get_l`
  unfoldable pub key_get : NamedList K → K → ℕ
  key_get [] key = 0
  key_get ((k, item) ∷ next) key = if kind.same k key then item else key_get next key

-- The arguments of the calls that `list_run_cb` and `list_run_cb2` make, in their order
pub run_cb : {K : Type 0} → NamedList K → List ℕ
run_cb [] = []
run_cb ((k, item) ∷ next) = if item == 0 then run_cb next else item ∷ run_cb next
