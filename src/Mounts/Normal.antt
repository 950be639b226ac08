-- ===== src/Mounts/Normal.antt =====
-- Normal paths: what `_mounts_normalize_path` of ioriot/src/mounts.c leaves of a path.
use ioriot.Prelude.{
  ℕ, ◌≡◌, refl, ap, sym, ◌∙◌, List, [], ◌∷◌, ◌++◌, true, false, ◌==◌, is_nil, arith, inl, inr,
  Bool-cases,
}
use mathlib.Core.Bool.{true≢false}
use mathlib.Core.List.{append-nil}
use ioriot.Text.{Bytes, bytes, starts_with, find, has, strtok, pieces, add, same}
use ioriot.Text.Laws.{lacks, pieces-append, pieces-lacks}
use ioriot.Mounts.{tail, collapse, onto, slashed, from_parts, normalize_path}

-- A component of a path
pub record IsPart (part : Bytes) : Type 0 where
  pub some_byte : is_nil part ≡ false
  pub no_slash : lacks b'/' part ≡ true

-- A component that names neither its directory nor the parent of that
pub record IsName (part : Bytes) : Type 0 where
  pub is_part : IsPart part
  pub no_dots : same part (bytes "..") ≡ false
  pub no_dot : same part (bytes ".") ≡ false

abbrev pub All {ℓ} : {A : Type ℓ} → (A → Type 0) → List A → Type 0
All P [] = Unit
All P (x ∷ xs) = P x × All P xs

-- What `strtok_r` yields is a list of components.
add-All :
    (word : Bytes) (words : List Bytes)
    → (lacks b'/' word ≡ true) × All IsPart words
    → All IsPart (add word words)
add-All [] words h = h.1
add-All (d ∷ word) words h = (record { some_byte = refl; no_slash = h.0 }, h.1)

pieces-parts : (s : Bytes) → (lacks b'/' (pieces b'/' s).0 ≡ true) × All IsPart (pieces b'/' s).1
pieces-parts [] = (refl, tt)
pieces-parts (c ∷ s) = elim (Bool-cases (c == b'/')) [
  | inl slash ↦ rw slash (refl, add-All (pieces b'/' s).0 (pieces b'/' s).1 (pieces-parts s))
  | inr other ↦ rw other (ground (arith, pieces-parts s), (pieces-parts s).1)
]

pub strtok-parts : (s : Bytes) → All IsPart (strtok b'/' s)
unfolding strtok
strtok-parts s = add-All (pieces b'/' s).0 (pieces b'/' s).1 (pieces-parts s)

-- A path that is put together from components is taken apart into them.
pub add-part : (part : Bytes) (words : List Bytes) → IsPart part → add part words ≡ part ∷ words
add-part [] words h = absurd (ground (arith, h.some_byte))
add-part (c ∷ part) words h = refl

pieces-slashed :
    (part : Bytes) (parts : List Bytes)
    → IsPart part
    → strtok b'/' (slashed parts) ≡ parts
    → pieces b'/' (part ++ slashed parts) ≡ (part, parts)
unfolding strtok
pieces-slashed part [] h e = rw (append-nil part) (pieces-lacks b'/' part h.no_slash)
pieces-slashed part (next ∷ parts) h e =
    pieces-append b'/' part (next ++ slashed parts) h.no_slash
    ∙ ap (λ (words : List Bytes). (part, words)) e

pub strtok-slashed : (parts : List Bytes) → All IsPart parts → strtok b'/' (slashed parts) ≡ parts
unfolding strtok
strtok-slashed [] h = refl
strtok-slashed (part ∷ parts) h =
    rw (pieces-slashed part parts h.0 (strtok-slashed parts h.1)) (add-part part parts h.0)

tail-All {ℓ} : {A : Type ℓ} (P : A → Type 0) (xs : List A) → All P xs → All P (tail xs)
tail-All P [] h = tt
tail-All P (x ∷ xs) h = h.1

pub collapse-names :
    (stack toks : List Bytes)
    → All IsName stack
    → All IsPart toks
    → All IsName (collapse stack toks)
unfolding collapse
collapse-names stack [] s t = s
collapse-names stack (tok ∷ toks) s t = elim (Bool-cases (same tok (bytes ".."))) [
  | inl up ↦ rw up (collapse-names (tail stack) toks (tail-All IsName stack s) t.1)
  | inr down ↦ rw down (elim (Bool-cases (same tok (bytes "."))) [
    | inl here ↦ rw here (collapse-names stack toks s t.1)
    | inr there ↦ rw there (
        collapse-names (tok ∷ stack) toks
          (record { is_part = t.0; no_dots = down; no_dot = there }, s) t.1)
  ])
]

pub onto-All {ℓ} :
    {A : Type ℓ} (P : A → Type 0) (xs acc : List A) → All P xs → All P acc → All P (onto xs acc)
onto-All P [] acc h a = a
onto-All P (x ∷ xs) acc h a = onto-All P xs (x ∷ acc) h.1 (h.0, a)

-- A path in which nothing is written twice has no component `..`.
starts-pieces :
    (s : Bytes)
    → starts_with (bytes "..") s ≡ false
    → starts_with (bytes "..") (pieces b'/' s).0 ≡ false
starts-pieces [] h = refl
starts-pieces (c ∷ []) h = ground arith
starts-pieces (c ∷ d ∷ s) h = ground arith

-- Not the parent directory
abbrev pub NotUp : Bytes → Type 0
NotUp part = same part (bytes "..") ≡ false

add-NotUp :
    (word : Bytes) (words : List Bytes)
    → starts_with (bytes "..") word ≡ false
    → All NotUp words
    → All NotUp (add word words)
add-NotUp [] words h hs = hs
add-NotUp (c ∷ []) words h hs = (ground (arith, h), hs)
add-NotUp (c ∷ d ∷ word) words h hs = (ground (arith, h), hs)

has-step : (c : ℕ) (s : Bytes) → has (bytes "..") (c ∷ s) ≡ false → has (bytes "..") s ≡ false
unfolding find
has-step c s h = ground (arith, h)

has-first : (s : Bytes) → starts_with (bytes "..") s ≡ true → has (bytes "..") s ≡ true
unfolding find
has-first [] h = ground arith
has-first (c ∷ s) h = rw (has, h) refl

has-starts : (s : Bytes) → has (bytes "..") s ≡ false → starts_with (bytes "..") s ≡ false
unfolding find
has-starts [] h = refl
has-starts (c ∷ s) h = elim (Bool-cases (starts_with (bytes "..") (c ∷ s))) [
  | inl e ↦ absurd (true≢false (sym (has-first (c ∷ s) e) ∙ h))
  | inr e ↦ e
]

pieces-NotUp : (s : Bytes) → has (bytes "..") s ≡ false → All NotUp (pieces b'/' s).1
pieces-NotUp [] h = tt
pieces-NotUp (c ∷ s) h = elim (Bool-cases (c == b'/')) [
  | inl slash ↦ rw slash (
      add-NotUp (pieces b'/' s).0 (pieces b'/' s).1
        (starts-pieces s (has-starts s (has-step c s h))) (pieces-NotUp s (has-step c s h)))
  | inr other ↦ rw other (pieces-NotUp s (has-step c s h))
]

strtok-NotUp : (s : Bytes) → has (bytes "..") s ≡ false → All NotUp (strtok b'/' s)
unfolding strtok
strtok-NotUp s h =
    add-NotUp (pieces b'/' s).0 (pieces b'/' s).1 (starts-pieces s (has-starts s h))
      (pieces-NotUp s h)

names-NotUp : (names : List Bytes) → All IsName names → All NotUp names
names-NotUp [] h = tt
names-NotUp (name ∷ names) h = (h.0.no_dots, names-NotUp names h.1)

pub names-parts : (names : List Bytes) → All IsName names → All IsPart names
names-parts [] h = tt
names-parts (name ∷ names) h = (h.0.is_part, names-parts names h.1)

-- What the components of a path are reduced to
abbrev pub normal_parts : Bytes → List Bytes
normal_parts path = onto (collapse [] (strtok b'/' path)) []

normal_parts-IsName : (path : Bytes) → All IsName (normal_parts path)
normal_parts-IsName path =
    onto-All IsName (collapse [] (strtok b'/' path)) []
      (collapse-names [] (strtok b'/' path) tt (strtok-parts path)) tt

from_parts-NotUp :
    (names : List Bytes) → All IsName names → All NotUp (strtok b'/' (from_parts names))
unfolding strtok
from_parts-NotUp [] h = (refl, tt)
from_parts-NotUp (name ∷ names) h =
    rw (strtok-slashed (name ∷ names) (names-parts (name ∷ names) h)) (names-NotUp (name ∷ names) h)

-- No component of a normalised path, whatever the path was, is `..`: it names no file outside the
-- directory that it is put behind.
pub normalize_path-NotUp : (path : Bytes) → All NotUp (strtok b'/' (normalize_path path))
unfolding normalize_path
normalize_path-NotUp path = elim (Bool-cases (has (bytes "..") path)) [
  | inl e ↦ rw e (from_parts-NotUp (normal_parts path) (normal_parts-IsName path))
  | inr e ↦ elim (Bool-cases (has (bytes "//") path)) [
    | inl e' ↦ rw (e, e') (from_parts-NotUp (normal_parts path) (normal_parts-IsName path))
    | inr e' ↦ rw (e, e') (strtok-NotUp path e)
  ]
]

-- A list of names stays as it is.
pub collapse-id :
    (stack names : List Bytes) → All IsName names → collapse stack names ≡ onto names stack
unfolding collapse
collapse-id stack [] h = refl
collapse-id stack (name ∷ names) h =
    rw (h.0.no_dots, h.0.no_dot) (collapse-id (name ∷ stack) names h.1)

pub onto-onto {ℓ} : {A : Type ℓ} (xs ys zs : List A) → onto (onto xs ys) zs ≡ onto ys (xs ++ zs)
onto-onto [] ys zs = refl
onto-onto (x ∷ xs) ys zs = onto-onto xs (x ∷ ys) zs

normalize_path-same :
    (path : Bytes) → from_parts (normal_parts path) ≡ path → normalize_path path ≡ path
unfolding normalize_path
normalize_path-same path e = elim (Bool-cases (has (bytes "..") path)) [
  | inl up ↦ rw up e
  | inr flat ↦ elim (Bool-cases (has (bytes "//") path)) [
    | inl twice ↦ rw (flat, twice) e
    | inr once ↦ rw (flat, once) refl
  ]
]

collapse-again :
    (stack : List Bytes)
    → All IsName (onto stack [])
    → onto (collapse [] (onto stack [])) [] ≡ onto stack []
collapse-again stack h =
    rw (collapse-id [] (onto stack []) h, onto-onto stack [] [], append-nil stack) refl

from_parts-fixed :
    (names : List Bytes)
    → All IsName names
    → onto (collapse [] names) [] ≡ names
    → normalize_path (from_parts names) ≡ from_parts names
unfolding normalize_path find
from_parts-fixed [] h e = refl
from_parts-fixed (name ∷ names) h e =
    normalize_path-same (slashed (name ∷ names))
      (rw (strtok-slashed (name ∷ names) (names-parts (name ∷ names) h)) (rw e refl))

from_parts-normal :
    (stack : List Bytes)
    → All IsName (onto stack [])
    → normalize_path (from_parts (onto stack [])) ≡ from_parts (onto stack [])
from_parts-normal stack h = from_parts-fixed (onto stack []) h (collapse-again stack h)

-- Normalising a path again changes nothing, whatever the path was.
pub normalize_path_idem :
    (path : Bytes) → normalize_path (normalize_path path) ≡ normalize_path path
unfolding normalize_path
normalize_path_idem path = elim (Bool-cases (has (bytes "..") path)) [
  | inl e ↦ rw e (from_parts-normal (collapse [] (strtok b'/' path)) (normal_parts-IsName path))
  | inr e ↦ elim (Bool-cases (has (bytes "//") path)) [
    | inl e' ↦
        rw (e, e') (from_parts-normal (collapse [] (strtok b'/' path)) (normal_parts-IsName path))
    | inr e' ↦ rw (e, e') (rw (e, e') refl)
  ]
]
