-- ===== src/Mounts/Clean.antt =====
-- The byte that separates the fields of a .replay file, and the paths that ioriot/src/mounts.c
-- makes.
pub mod Links
use ioriot.Prelude.{
  ℕ, zero, suc, ◌≡◌, refl, subst, ◌∙◌, List, [], ◌∷◌, ◌++◌, Bool, true, false, not, ◌&&◌, ◌==◌,
  is_nil, length, if◌then◌else◌, Option, some, none, arith, inl, inr, Option-cases, Bool-cases,
  Holds, ◌+◌, ◌-◌, ◌*◌, ◌/◌, ◌%◌, ◌^◌, ◌≤◌, ◌<◌, ◌≢◌, ◌⊎◌, ◌↔◌, ap, sym, ◌||◌, ltb, leb, get_or,
  set, length-append, ℤ, pos, negsuc, eqz, ltz, lez, ◌+ℤ◌, ◌-ℤ◌, ◌≤ℤ◌, ◌<ℤ◌, Outcome, ok, exit,
  fault, ◌>>=◌, Holds-bind, Holds-any,
}
use ioriot.Text.{
  Bytes, bytes, starts_with, has, drop, strtok, pieces, add, same, last, before_last, trim,
  dirname_r,
}
use ioriot.Text.Laws.{lacks}
use ioriot.Mounts.{
  Mounts, path_insert, tail, collapse, onto, slashed, from_parts, normalize_path, ignore_path,
  last_mount, inserted, transform_path, replay_root,
}
use ioriot.Mounts.Links.{
  take, apart, ups, append_part, append_parts, relative_from, relative_path, target_abs,
  link_within, transform_symlink_target,
}
use ioriot.Mounts.Normal.{All, onto-All}

-- A string without the byte
abbrev pub Clean : Bytes → Type 0
Clean s = lacks b'|' s ≡ true

abbrev pub CleanIf : Option Bytes → Type 0
CleanIf none = Unit
CleanIf (some s) = Clean s

pub append-Clean : (s t : Bytes) → Clean s → Clean t → Clean (s ++ t)
append-Clean [] t h k = k
append-Clean (c ∷ s) t h k = ground (arith, append-Clean s t)

drop-Clean : (n : ℕ) (s : Bytes) → Clean s → Clean (drop n s)
drop-Clean zero s h = h
drop-Clean (suc n) [] h = h
drop-Clean (suc n) (c ∷ s) h = drop-Clean n s (ground arith)

-- Components
add-Clean :
    (word : Bytes) (words : List Bytes) → Clean word → All Clean words → All Clean (add word words)
add-Clean [] words h k = k
add-Clean (c ∷ word) words h k = (h, k)

pieces-Clean :
    (delim : ℕ) (s : Bytes) → Clean s → Clean (pieces delim s).0 × All Clean (pieces delim s).1
pieces-Clean delim [] h = (refl, tt)
pieces-Clean delim (c ∷ s) h =
    let (word, words) = pieces-Clean delim s (ground arith) in
    elim (Bool-cases (c == delim)) [
      | inl e ↦ rw e (refl, add-Clean (pieces delim s).0 (pieces delim s).1 word words)
      | inr e ↦ rw e (ground (arith, word), words)
    ]

pub strtok-Clean : (delim : ℕ) (s : Bytes) → Clean s → All Clean (strtok delim s)
unfolding strtok
strtok-Clean delim s h =
    let (word, words) = pieces-Clean delim s h in
    add-Clean (pieces delim s).0 (pieces delim s).1 word words

tail-Clean : (stack : List Bytes) → All Clean stack → All Clean (tail stack)
tail-Clean [] h = tt
tail-Clean (part ∷ stack) h = h.1

collapse-Clean :
    (stack toks : List Bytes) → All Clean stack → All Clean toks → All Clean (collapse stack toks)
unfolding collapse
collapse-Clean stack [] s t = s
collapse-Clean stack (tok ∷ toks) s t = elim (Bool-cases (same tok (bytes ".."))) [
  | inl up ↦ rw up (collapse-Clean (tail stack) toks (tail-Clean stack s) t.1)
  | inr down ↦ rw down (elim (Bool-cases (same tok (bytes "."))) [
    | inl here ↦ rw here (collapse-Clean stack toks s t.1)
    | inr there ↦ rw there (collapse-Clean (tok ∷ stack) toks (t.0, s) t.1)
  ])
]

slashed-Clean : (parts : List Bytes) → All Clean parts → Clean (slashed parts)
slashed-Clean [] h = refl
slashed-Clean (part ∷ parts) h =
    ground (arith, append-Clean part (slashed parts) h.0 (slashed-Clean parts h.1))

from_parts-Clean : (parts : List Bytes) → All Clean parts → Clean (from_parts parts)
from_parts-Clean [] h = refl
from_parts-Clean (part ∷ parts) h = slashed-Clean (part ∷ parts) h

pub if-Clean : (b : Bool) (s t : Bytes) → Clean s → Clean t → Clean (if b then s else t)
if-Clean true s t h k = h
if-Clean false s t h k = k

pub normalize_path-Clean : (path : Bytes) → Clean path → Clean (normalize_path path)
unfolding normalize_path
normalize_path-Clean path h =
    let parts = collapse-Clean [] (strtok b'/' path) tt (strtok-Clean b'/' path h) in
    let slow =
      from_parts-Clean (onto (collapse [] (strtok b'/' path)) [])
        (onto-All Clean (collapse [] (strtok b'/' path)) [] parts tt) in
    if-Clean (not (has (bytes "..") path) && not (has (bytes "//") path)) path
      (from_parts (onto (collapse [] (strtok b'/' path)) [])) h slow

-- Mount points
last_mount-Clean :
    (mps : List Bytes) (path mp : Bytes) → All Clean mps → last_mount mps path ≡ some mp → Clean mp
unfolding last_mount
last_mount-Clean [] path mp h e = absurd (ground (arith, e))
last_mount-Clean (first ∷ mps) path mp h e = elim (Option-cases (last_mount mps path)) [
  | inl missing ↦ (let here : first ≡ mp = ground (arith, e, missing) in subst Clean here h.0)
  | inr (found, there) ↦ last_mount-Clean mps path mp h.1 (there ∙ ground (arith, e, there))
]

inserted-Clean :
    (mp name path : Bytes) → Clean mp → Clean name → Clean path → Clean (inserted mp name path)
unfolding inserted
inserted-Clean mp name path m n p = elim (Bool-cases (same mp (bytes "/"))) [
  | inl e ↦ rw e (append-Clean path_insert (name ++ path) refl (append-Clean name path n p))
  | inr e ↦ rw e (
      append-Clean mp (path_insert ++ (name ++ drop (length mp) path)) m (
        append-Clean path_insert (name ++ drop (length mp) path) refl
          (append-Clean name (drop (length mp) path) n (drop-Clean (length mp) path p))))
]

pub transform_path-Clean :
    (m : Mounts) (name path : Bytes)
    → All Clean m.mps
    → Clean name
    → Clean path
    → CleanIf (transform_path m name path).1
unfolding transform_path
transform_path-Clean m name path k n p = elim (Bool-cases (ignore_path m (normalize_path path))) [
  | inl e ↦ rw e tt
  | inr e ↦ rw e (elim (Option-cases (last_mount m.mps (normalize_path path))) [
    | inl missing ↦ rw missing tt
    | inr (mp, found) ↦ rw found (
        inserted-Clean mp name (normalize_path path)
          (last_mount-Clean m.mps (normalize_path path) mp k found) n (normalize_path-Clean path p))
  ])
]
