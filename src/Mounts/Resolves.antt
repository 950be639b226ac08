-- ===== src/Mounts/Resolves.antt =====
-- Where the relative targets that `_mounts_relative_path` of ioriot/src/mounts.c makes lead.
use ioriot.Prelude.{
  ℕ, zero, suc, ◌+◌, ◌≤◌, ◌≡◌, refl, ap, sym, subst, ◌∙◌, List, [], ◌∷◌, ◌++◌, true, length,
  if◌then◌else◌, arith, inl, inr, Bool-cases,
}
use mathlib.Core.Path.{ap₂}
use mathlib.Core.List.{append-nil, append_assoc}
use ioriot.Text.{Bytes, bytes, strtok, same}
use ioriot.Mounts.{tail, collapse, onto}
use ioriot.Mounts.Normal.{IsName, All, collapse-id, names-parts, normal_parts, onto-onto}
use ioriot.Mounts.Links.{take, apart, ups, append_parts, relative_from, relative_path}
use ioriot.Mounts.Joined.{strtok-both, strtok-append_parts}

-- As many `..`
dots : ℕ → List Bytes
dots zero = []
dots (suc n) = bytes ".." ∷ dots n

strtok-ups : (from : List Bytes) → strtok b'/' (ups from) ≡ dots (length from)
unfolding ups dots strtok
strtok-ups [] = refl
strtok-ups (part ∷ from) = ap (λ (words : List Bytes). bytes ".." ∷ words) (strtok-ups from)

pub collapse-append :
    (stack xs ys : List Bytes) → collapse stack (xs ++ ys) ≡ collapse (collapse stack xs) ys
unfolding collapse
collapse-append stack [] ys = refl
collapse-append stack (tok ∷ xs) ys =
    collapse-append
      (if same tok (bytes "..")
        then tail stack
        else if same tok (bytes ".")
        then stack
        else tok ∷ stack)
      xs ys

collapse-dots : (xs acc : List Bytes) → collapse (xs ++ acc) (dots (length xs)) ≡ acc
unfolding collapse dots
collapse-dots [] acc = refl
collapse-dots (x ∷ xs) acc = collapse-dots xs acc

onto-append {ℓ} : {A : Type ℓ} (xs acc : List A) → onto xs acc ≡ onto xs [] ++ acc
onto-append [] acc = refl
onto-append (x ∷ xs) acc =
    onto-append xs (x ∷ acc)
    ∙ sym (append_assoc (onto xs []) (x ∷ []) acc)
    ∙ ap (λ r. r ++ acc) (sym (onto-append xs (x ∷ [])))

length-onto {ℓ} : {A : Type ℓ} (xs acc : List A) → length (onto xs acc) ≡ length xs + length acc
length-onto [] acc = omega arith
length-onto (x ∷ xs) acc = omega (arith, length-onto xs (x ∷ acc))

-- `..` as often as there are components leads back out of them.
collapse-out : (from acc : List Bytes) → collapse (onto from acc) (dots (length from)) ≡ acc
collapse-out from acc =
    let size : length from ≡ length (onto from []) = omega (arith, length-onto from []) in
    rw (onto-append from acc, size) (collapse-dots (onto from []) acc)

pub same-eq : (s t : Bytes) → same s t ≡ true → s ≡ t
same-eq [] [] h = refl
same-eq [] (d ∷ t) h = absurd (ground (arith, h))
same-eq (c ∷ s) [] h = absurd (ground (arith, h))
same-eq (c ∷ s) (d ∷ t) h = ground (arith, same-eq s t)

-- What two lists of components have in common
record Common (from to : List Bytes) (rest : List Bytes × List Bytes) : Type 0 where
  common : List Bytes
  split_from : from ≡ common ++ rest.0
  split_to : to ≡ common ++ rest.1

apart-Common : (from to : List Bytes) → Common from to (apart from to)
unfolding apart
apart-Common [] to = record { common = []; split_from = refl; split_to = refl }
apart-Common (part ∷ from) [] = record { common = []; split_from = refl; split_to = refl }
apart-Common (part ∷ from) (other ∷ to) = elim (Bool-cases (same part other)) [
  | inl e ↦
      let rest = apart-Common from to in
      rw e (record {
        common = part ∷ rest.common;
        split_from = ap (λ (parts : List Bytes). part ∷ parts) rest.split_from;
        split_to =
            ap₂ (λ (p : Bytes) (parts : List Bytes). p ∷ parts) (sym (same-eq part other e))
              rest.split_to;
      })
  | inr e ↦ rw e (record { common = []; split_from = refl; split_to = refl })
]

onto-both {ℓ} : {A : Type ℓ} (xs ys acc : List A) → onto (xs ++ ys) acc ≡ onto ys (onto xs acc)
onto-both [] ys acc = refl
onto-both (x ∷ xs) ys acc = onto-both xs ys (x ∷ acc)

All-append {ℓ} : {A : Type ℓ} (P : A → Type 0) (xs ys : List A) → All P (xs ++ ys) → All P ys
All-append P [] ys h = h
All-append P (x ∷ xs) ys h = All-append P xs ys h.1

-- Out of the components of `from`, into those of `to`
collapse-over :
    (common from to : List Bytes)
    → All IsName to
    → collapse (onto (common ++ from) []) (strtok b'/' (append_parts (ups from) to))
      ≡ onto (common ++ to) []
collapse-over common from to h =
    rw (strtok-append_parts (ups from) to (names-parts to h), strtok-ups from)
      (collapse-append (onto (common ++ from) []) (dots (length from)) to
        ∙ ap (λ (stack : List Bytes). collapse (collapse stack (dots (length from))) to)
            (onto-both common from [])
        ∙ ap (λ (stack : List Bytes). collapse stack to) (collapse-out from (onto common []))
        ∙ collapse-id (onto common []) to h
        ∙ sym (onto-both common to []))

collapse-relative_from :
    (common from to : List Bytes)
    → All IsName to
    → collapse (onto (common ++ from) []) (strtok b'/' (relative_from (from, to)))
      ≡ onto (common ++ to) []
unfolding relative_from collapse strtok
collapse-relative_from common [] [] h = refl
collapse-relative_from common [] (part ∷ to) h = collapse-over common [] (part ∷ to) h
collapse-relative_from common (part ∷ from) to h = collapse-over common (part ∷ from) to h

take-all {ℓ} : {A : Type ℓ} (n : ℕ) (xs : List A) → length xs ≤ n → take n xs ≡ xs
take-all zero [] h = refl
take-all zero (x ∷ xs) h = absurd (omega arith)
take-all (suc n) [] h = refl
take-all (suc n) (x ∷ xs) h = ap (λ r. x ∷ r) (take-all n xs (omega arith))

onto-twice {ℓ} : {A : Type ℓ} (xs : List A) → onto (onto xs []) [] ≡ xs
onto-twice xs = onto-onto xs [] [] ∙ append-nil xs

-- Where `path` leads from the directory `dir`
abbrev resolve : List Bytes → Bytes → List Bytes
resolve dir path = onto (collapse (onto dir []) (strtok b'/' path)) []

resolve-apart :
    (from to : List Bytes) → All IsName to → resolve from (relative_from (apart from to)) ≡ to
resolve-apart from to t =
    let split = apart-Common from to in
    let rest = apart from to in
    let names : All IsName rest.1 =
      All-append IsName split.common rest.1 (subst (All IsName) split.split_to t) in
    ap (λ (dir : List Bytes). resolve dir (relative_from rest)) split.split_from
    ∙ ap (λ (stack : List Bytes). onto stack [])
        (collapse-relative_from split.common rest.0 rest.1 names)
    ∙ onto-twice (split.common ++ rest.1)
    ∙ sym split.split_to

-- The relative path that is made for a link leads from the link's directory to the target, where
-- the two have no component `.` or `..` and no more than 1024 components.
pub resolve-relative_path :
    (from_dir to_path : Bytes)
    → All IsName (strtok b'/' from_dir)
    → All IsName (strtok b'/' to_path)
    → length (strtok b'/' from_dir) ≤ 1024
    → length (strtok b'/' to_path) ≤ 1024
    → normal_parts (from_dir ++ b'/' ∷ relative_path from_dir to_path) ≡ strtok b'/' to_path
unfolding relative_path
resolve-relative_path from_dir to_path f t n k =
    let from : List Bytes = strtok b'/' from_dir in
    let to : List Bytes = strtok b'/' to_path in
    let path : Bytes = relative_from (apart from to) in
    rw (take-all 1024 from n, take-all 1024 to k)
      (ap (λ (toks : List Bytes). onto (collapse [] toks) []) (strtok-both b'/' from_dir path)
        ∙ ap (λ (stack : List Bytes). onto stack []) (collapse-append [] from (strtok b'/' path))
        ∙ ap (λ (stack : List Bytes). onto (collapse stack (strtok b'/' path)) [])
            (collapse-id [] from f)
        ∙ resolve-apart from to t)
