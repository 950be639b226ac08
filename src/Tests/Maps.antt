-- ===== src/Tests/Maps.antt =====
-- The array map, the named list and the hash map at small inputs.
use ioriot.Prelude.{
  zero, suc, get_or, ℕ, ◌≡◌, refl, arith, ℤ, pos, negsuc, [], ◌∷◌, some, none, ◌==◌, ◌&&◌,
  if◌then◌else◌, ltb, ok, inl, eqz,
}
use ioriot.Datas.AMap
use ioriot.Datas.AMap.{AMap}
use ioriot.Datas.AMap.Laws
use ioriot.Datas.AMap.Creation
use ioriot.Datas.Key.{long_key, get_addr_l, to_int}
use ioriot.Datas.NamedList
use ioriot.Datas.NamedList.{NamedList}
use ioriot.Datas.HMap
use ioriot.Datas.HMap.{HMap}
use ioriot.Datas.HMap.Buckets.{IsValid}
use ioriot.Datas.HMap.Laws.{view, insert_lem, remove_lem, new_lem}
use ioriot.Datas.HMap.Gaps.{remove_other, insert_narrowed}

abbrev long_new : ℕ → HMap ℤ
long_new = HMap.new long_key

-- Two addresses: 3 has the direct entry of address 1, and 2 and 4 met at address 0.
abbrev small : HMap ℤ
small = record {
  keys = negsuc 0 ∷ pos 3 ∷ [];
  values = 0 ∷ 33 ∷ [];
  lists = some ((pos 4, 44) ∷ (pos 2, 22) ∷ []) ∷ none ∷ [];
  size = 2;
}

buckets_ok :
    (i : ℕ) → HMap.Buckets.BucketOk long_key (get_or small.values i 0) (get_or small.lists i none)
unfolding eqz NamedList.has_key
buckets_ok zero = (refl, (refl, (refl, tt)), ground arith)
buckets_ok (suc zero) = tt
buckets_ok (suc (suc i)) = tt

small-IsValid : IsValid long_key small
small-IsValid = record {
  not_empty = omega arith;
  keys_len = refl;
  values_len = refl;
  lists_len = refl;
  buckets = buckets_ok;
}

insert_lem_example :
    (h' : HMap ℤ) × (HMap.insert long_key small (pos 5) 55
      ≡ ok (if view long_key small (pos 5) == 0 then 1 else 0, h'))
    × IsValid long_key h'
    × (h'.size ≡ 2)
    × ((q : ℤ)
        → HMap.get long_key h' q ≡ (
            if view long_key small (pos 5) == 0 && eqz (pos 5) q
            then ok 55
            else HMap.get long_key small q))
unfolding get_addr_l to_int
insert_lem_example =
    insert_lem long_key small (pos 5) {addr = 1} small-IsValid refl 55 (omega arith) refl

remove_lem_example :
    (h' : HMap ℤ) × (HMap.remove long_key small (pos 3) ≡ ok (view long_key small (pos 3), h'))
    × IsValid long_key h'
    × (h'.size ≡ 2)
    × ((q : ℤ)
        → HMap.get long_key h' q ≡ (if eqz (pos 3) q then ok 0 else HMap.get long_key small q))
unfolding get_addr_l view HMap.get NamedList.key_get eqz
remove_lem_example =
    remove_lem long_key small (pos 3) {addr = 1} small-IsValid refl (inl (omega arith))

remove_other_example :
    (h' : HMap ℤ) × (HMap.get long_key small (pos 3) ≡ ok 33)
    × (HMap.remove long_key small (pos 5) ≡ ok (33, h'))
    × (HMap.get long_key h' (pos 3) ≡ ok 0)
unfolding get_addr_l eqz
remove_other_example =
    remove_other long_key small (pos 5) (pos 3) 1 small-IsValid refl refl refl (omega arith) refl

insert_narrowed_example :
    (h' : HMap ℤ) × (HMap.insert long_key (long_new 2) (pos 4294967296) 7 ≡ ok (1, h'))
    × (HMap.get long_key h' (pos 4294967296) ≡ ok 0)
unfolding get_addr_l to_int HMap.new
insert_narrowed_example =
    insert_narrowed (long_new 2) (pos 4294967296) 7 0 (new_lem long_key 2 (omega arith)).0 refl
      (ground arith) (omega arith) refl refl

-- An array map for 2000 positions
made : (a : AMap) × (AMap.new (pos 2000) ≡ some a) × AMap.Laws.IsValid a
made = let (a, run, v, _, _, _) = AMap.Creation.new_blank 2000 (omega arith) in (a, run, v)

abbrev array : AMap
array = made.0

amap_set_lem_example :
    (b : AMap) × (AMap.amap_set array (pos 1500) 7
      ≡ some (if ltb 1500 array.size then pos 0 else negsuc 0, b))
    × AMap.Laws.IsValid b
    × (b.size ≡ array.size)
    × ((q : ℕ)
        → AMap.Laws.contents b q
          ≡ (if ltb 1500 array.size && 1500 == q then 7 else AMap.Laws.contents array q))
amap_set_lem_example = AMap.Laws.amap_set_lem array 1500 made.2 7
