-- ===== src/Generate/PathMap.antt =====
-- What the generator needs of the hash map from paths to virtual sizes, and the hash map of
-- ioriot/src/datas/hmap.c as such a map. A pointer is its address, 0 for NULL.
use ioriot.Prelude.{ℕ, ◌≡◌, ◌≢◌, refl, if◌then◌else◌, arith, ◌<◌}
use mathlib.Core.Logic.{dif_neg, dite}
use native.Mathlib.Decide.{ℕ_discrete}
pub use ioriot.Text.{Bytes}
use ioriot.Datas.Key.{string_key, str_same, get_addr}
use ioriot.Datas.HMap
use ioriot.Datas.HMap.{HMap}
use ioriot.Datas.HMap.Buckets.{IsValid}
use ioriot.Datas.HMap.Laws.{view, insert_lem, new_lem}

pub record PathMap : Type 1 where
  pub Map : Type 0
  pub get : Map → Bytes → ℕ
  pub insert : Map → Bytes → ℕ → Map
  -- A new path reads the pointer inserted under it, and no other path changes.
  pub get-insert :
      (m : Map) (path q : Bytes) (v : ℕ)
      → v ≢ 0
      → get m path ≡ 0
      → get (insert m path v) q ≡ (if str_same path q then v else get m q)

-- A hash map in order
abbrev StringMap : Type 0
StringMap = (h : HMap Bytes) × IsValid string_key h

add : StringMap → Bytes → ℕ → StringMap
add (h, valid) path v =
    dite (ℕ_discrete v 0) (λ _. (h, valid))
      (λ some_v.
        let r =
          insert_lem string_key h path {addr = get_addr path h.size} valid refl v some_v refl in
        (r.0, r.2))

add-insert :
    (h : HMap Bytes) (valid : IsValid string_key h) (path q : Bytes) (v : ℕ)
    → v ≢ 0
    → view string_key h path ≡ 0
    → view string_key (add (h, valid) path v).0 q
      ≡ (if str_same path q then v else view string_key h q)
unfolding add
add-insert h valid path q v some_v absent =
    let r = insert_lem string_key h path {addr = get_addr path h.size} valid refl v some_v refl in
    rw (dif_neg _ some_v) (unfold view in ground (arith, r.4 q))

-- The hash map, as long as it is in order, is such a map.
pub string_map : PathMap
unfolding add
string_map = record {
  Map = StringMap;
  get = λ (h, valid). view string_key h;
  insert = add;
  get-insert = λ (h, valid). add-insert h valid;
}

-- A new hash map knows no path.
pub empty_map :
    (size : ℕ) → 0 < size → (m : string_map.Map) × ((path : Bytes) → string_map.get m path ≡ 0)
unfolding string_map
empty_map size h =
    let (valid, blank) = new_lem string_key size h in ((HMap.new string_key size, valid), blank)
