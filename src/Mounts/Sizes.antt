-- ===== src/Mounts/Sizes.antt =====
-- The memory that `_mounts_normalize_path` of ioriot/src/mounts.c asks for, one byte more than the
-- path is long, and what it writes there.
use ioriot.Prelude.{
  ℕ, ◌+◌, ◌≤◌, ◌<◌, ◌≡◌, refl, List, [], ◌∷◌, true, false, ◌==◌, length, arith, length-append, inl,
  inr, Bool-cases,
}
use mathlib.Core.List.{append-nil}
use ioriot.Text.{Bytes, bytes, find, has, strtok, pieces, add, same}
use ioriot.Text.Laws.{lacks, pieces-lacks}
use ioriot.Mounts.{tail, collapse, onto, slashed, from_parts, normalize_path}
use ioriot.Mounts.Normal.{normal_parts}

-- The bytes of components with a slash each
abbrev weight : List Bytes → ℕ
weight [] = 0
weight (part ∷ parts) = 1 + length part + weight parts

weight-add :
    (word : Bytes) (words : List Bytes) → weight (add word words) ≤ 1 + length word + weight words
weight-add [] words = omega arith
weight-add (c ∷ word) words = omega arith

weight-pieces :
    (delim : ℕ) (s : Bytes) → length (pieces delim s).0 + weight (pieces delim s).1 ≤ length s
weight-pieces delim [] = omega arith
weight-pieces delim (c ∷ s) = elim (Bool-cases (c == delim)) [
  | inl e ↦
      rw e (omega (arith, weight-pieces delim s, weight-add (pieces delim s).0 (pieces delim s).1))
  | inr e ↦ rw e (omega (arith, weight-pieces delim s))
]

weight-tail : (stack : List Bytes) → weight (tail stack) ≤ weight stack
weight-tail [] = omega arith
weight-tail (part ∷ stack) = omega arith

weight-collapse :
    (stack toks : List Bytes) → weight (collapse stack toks) ≤ weight stack + weight toks
unfolding collapse
weight-collapse stack [] = omega arith
weight-collapse stack (tok ∷ toks) = elim (Bool-cases (same tok (bytes ".."))) [
  | inl up ↦ rw up (omega (arith, weight-collapse (tail stack) toks, weight-tail stack))
  | inr down ↦ rw down (elim (Bool-cases (same tok (bytes "."))) [
    | inl here ↦ rw here (omega (arith, weight-collapse stack toks))
    | inr there ↦ rw there (omega (arith, weight-collapse (tok ∷ stack) toks))
  ])
]

weight-onto : (stack parts : List Bytes) → weight (onto stack parts) ≡ weight stack + weight parts
weight-onto [] parts = omega arith
weight-onto (part ∷ stack) parts = omega (arith, weight-onto stack (part ∷ parts))

length-slashed : (parts : List Bytes) → length (slashed parts) ≡ weight parts
length-slashed [] = refl
length-slashed (part ∷ parts) =
    omega (arith, length-append part (slashed parts), length-slashed parts)

length-from_parts :
    (parts : List Bytes) (n : ℕ) → 0 < n → weight parts ≤ n → length (from_parts parts) ≤ n
length-from_parts [] n h w = omega arith
length-from_parts (part ∷ parts) n h w = omega (arith, length-slashed (part ∷ parts))

weight-normal : (path : Bytes) → weight (normal_parts (b'/' ∷ path)) ≤ length path + 1
unfolding strtok
weight-normal path =
    let words : List Bytes = strtok b'/' path in
    omega (
      arith,
      weight-onto (collapse [] words) [],
      weight-collapse [] words,
      weight-add (pieces b'/' path).0 (pieces b'/' path).1,
      weight-pieces b'/' path,
    )

-- An absolute path never grows when it is normalised, so the memory that is one byte longer than
-- the path holds the result and its NUL.
pub length-normalize_path :
    (path : Bytes) → length (normalize_path (b'/' ∷ path)) ≤ length (b'/' ∷ path)
unfolding normalize_path
length-normalize_path path =
    let slow : length (from_parts (normal_parts (b'/' ∷ path))) ≤ length path + 1 =
      length-from_parts (normal_parts (b'/' ∷ path)) (length path + 1) (omega arith)
        (weight-normal path) in
    elim (Bool-cases (has (bytes "..") (b'/' ∷ path))) [
      | inl up ↦ rw up (omega (arith, slow))
      | inr flat ↦ elim (Bool-cases (has (bytes "//") (b'/' ∷ path))) [
        | inl twice ↦ rw (flat, twice) (omega (arith, slow))
        | inr once ↦ rw (flat, once) (omega arith)
      ]
    ]

not_dot : (word : Bytes) → has (bytes "..") word ≡ true → same word (bytes ".") ≡ false
unfolding find
not_dot [] h = refl
not_dot (c ∷ []) h = ground (arith, h)
not_dot (c ∷ d ∷ word) h = ground arith

-- The one component of a name
grown :
    (c : ℕ) (word : Bytes)
    → lacks b'/' (c ∷ word) ≡ true
    → same (c ∷ word) (bytes "..") ≡ false
    → same (c ∷ word) (bytes ".") ≡ false
    → normal_parts (c ∷ word) ≡ (c ∷ word) ∷ []
unfolding strtok collapse
grown c word l n d = rw (pieces-lacks b'/' (c ∷ word) l) (rw (n, d) refl)

-- A relative path of one component that has `..` in its name, and is not `..` itself, becomes an
-- absolute one that is one byte longer: with its NUL, it does not fit the memory.
pub normalize_path-grows :
    (c : ℕ) (word : Bytes)
    → lacks b'/' (c ∷ word) ≡ true
    → has (bytes "..") (c ∷ word) ≡ true
    → same (c ∷ word) (bytes "..") ≡ false
    → (normalize_path (c ∷ word) ≡ b'/' ∷ (c ∷ word))
      × (length (normalize_path (c ∷ word)) ≡ length (c ∷ word) + 1)
unfolding normalize_path
normalize_path-grows c word l h n =
    let parts = grown c word l n (not_dot (c ∷ word) h) in
    let grows : normalize_path (c ∷ word) ≡ b'/' ∷ (c ∷ word) =
      rw h (rw parts (rw (append-nil word) refl)) in
    (grows, rw grows (omega arith))
