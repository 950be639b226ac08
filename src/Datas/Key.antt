-- ===== src/Datas/Key.antt =====
-- The two kinds of keys of ioriot/src/datas/list.c and ioriot/src/datas/hmap.c: strings, and values
-- of type `long`. What the two versions of a function do differently is in the fields.
use ioriot.Prelude.{
  ℕ, ◌+◌, ◌-◌, ◌*◌, ◌%◌, ◌^◌, ◌<◌, ◌≡◌, List, [], ◌∷◌, Bool, true, false, ◌&&◌, Option, some, none,
  ltb, ◌==◌, if◌then◌else◌, ℤ, pos, negsuc, eqz, arith, refl, eqz→eq, eqz_refl,
}

pub record Key (K : Type 0) : Type 0 where
  -- `strcmp(a, b) == 0`, or `==`
  pub same : K → K → Bool
  pub same→eq : (a b : K) → same a b ≡ true → a ≡ b
  pub same_refl : (a : K) → same a a ≡ true
  -- `hmap_get_addr` or `hmap_get_addr_l`, for a size that is not 0; `none` is an address outside
  -- the table.
  pub addr : K → ℕ → Option ℕ
  pub addr-lt : (a : K) (size i : ℕ) → 0 < size → addr a size ≡ some i → i < size
  -- What an element of `keys` or of `keys_l` keeps of a key.
  pub narrow : K → K
  -- What stands in `keys` or `keys_l` where there is no key.
  pub blank : K

-- A string is the list of its bytes.
unfoldable pub str_same : List ℕ → List ℕ → Bool
str_same [] [] = true
str_same [] (y ∷ ys) = false
str_same (x ∷ xs) [] = false
str_same (x ∷ xs) (y ∷ ys) = x == y && str_same xs ys

pub str_same→eq : (a b : List ℕ) → str_same a b ≡ true → a ≡ b
unfolding str_same
str_same→eq [] [] h = refl
str_same→eq [] (y ∷ ys) h = cc
str_same→eq (x ∷ xs) [] h = cc
str_same→eq (x ∷ xs) (y ∷ ys) h = ground (arith, str_same→eq xs ys)

pub str_same_refl : (a : List ℕ) → str_same a a ≡ true
unfolding str_same
str_same_refl [] = refl
str_same_refl (x ∷ xs) = ground (arith, str_same_refl xs)

-- One round of the loop of `hmap_get_addr`: `(hash << 5) + hash + key[i]` as an `unsigned long`; a
-- byte from 128 on is a negative `char`.
hash_step : ℕ → ℕ → ℕ
hash_step hash c =
    if ltb c 128 then (hash * 33 + c) % 2 ^ 64 else (hash * 33 + c + 2 ^ 64 - 256) % 2 ^ 64

hash_from : ℕ → List ℕ → ℕ
hash_from hash [] = hash
hash_from hash (c ∷ cs) = hash_from (hash_step hash c) cs

-- `hmap_get_addr`
unfoldable pub get_addr : List ℕ → ℕ → ℕ
unfolding hash_from hash_step
get_addr key size = hash_from 5381 key % size

pub get_addr-lt : (a : List ℕ) (size i : ℕ) → 0 < size → some (get_addr a size) ≡ some i → i < size
unfolding get_addr
get_addr-lt a size i h e = ground arith

-- `hmap_get_addr_l`: the remainder of a negative key is negative, or 0.
unfoldable pub get_addr_l : ℤ → ℕ → Option ℕ
get_addr_l (pos n) size = some (n % size)
get_addr_l (negsuc n) size = if ((n + 1) % size) == 0 then some 0 else none

pub get_addr_l-lt : (a : ℤ) (size i : ℕ) → 0 < size → get_addr_l a size ≡ some i → i < size
unfolding get_addr_l
get_addr_l-lt (pos n) size i h e = ground arith
get_addr_l-lt (negsuc n) size i h e = ground arith

-- The conversion of a `long` to the `int` that `keys_l` keeps.
unfoldable pub to_int : ℤ → ℤ
to_int (pos n) =
    let low = n % 2 ^ 32 in if ltb low (2 ^ 31) then pos low else negsuc (2 ^ 32 - 1 - low)
to_int (negsuc n) =
    let low = n % 2 ^ 32 in if ltb low (2 ^ 31) then negsuc low else pos (2 ^ 32 - 1 - low)

abbrev pub string_key : Key (List ℕ)
string_key = record {
  same = str_same;
  same→eq = str_same→eq;
  same_refl = str_same_refl;
  addr = λ key size. some (get_addr key size);
  addr-lt = get_addr-lt;
  narrow = λ key. key;
  blank = [];
}

abbrev pub long_key : Key ℤ
long_key = record {
  same = eqz;
  same→eq = eqz→eq;
  same_refl = eqz_refl;
  addr = get_addr_l;
  addr-lt = get_addr_l-lt;
  narrow = to_int;
  blank = negsuc 0;
}
