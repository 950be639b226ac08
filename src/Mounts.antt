-- ===== src/Mounts.antt =====
-- Mount points and the paths of a replay: ioriot/src/mounts.c. The stack of path components holds
-- the components themselves, the top first; memory is not modelled but for the sizes in
-- Mounts.Sizes.
pub mod Read
pub mod Links
pub mod Normal
pub mod Sizes
pub mod Chosen
pub mod Resolves
pub mod Clean
pub mod Joined
use ioriot.Prelude.{
  ℕ, ◌+◌, List, [], ◌∷◌, ◌++◌, Bool, true, false, not, ◌&&◌, ◌||◌, length, if◌then◌else◌, Option,
  some, none, zero, suc, ◌-◌, ◌*◌, ◌/◌, ◌%◌, ◌^◌, ◌≤◌, ◌<◌, ◌≡◌, ◌≢◌, ◌⊎◌, ◌↔◌, refl, ap, sym,
  subst, ◌∙◌, ◌==◌, ltb, leb, is_nil, get_or, set, arith, length-append, inl, inr, Option-cases,
  Bool-cases, ℤ, pos, negsuc, eqz, ltz, lez, ◌+ℤ◌, ◌-ℤ◌, ◌≤ℤ◌, ◌<ℤ◌, Outcome, ok, exit, fault,
  ◌>>=◌, Holds, Holds-bind, Holds-any,
}
use ioriot.Text.{bytes, Bytes, starts_with, drop, find, has, strtok, same}

-- `_PATH_INSERT`
abbrev pub path_insert : Bytes
path_insert = bytes "/.ioriot/"

-- `mounts_s`: `mps` and `ignore_mps`, in their order. `lengths` holds the lengths of `mps`.
pub record Mounts : Type 0 where
  pub mps : List Bytes
  pub ignore_mps : List Bytes

-- The loop of `_mounts_normalize_path` over the components
abbrev pub tail {ℓ} : {A : Type ℓ} → List A → List A
tail [] = []
tail (x ∷ xs) = xs

unfoldable pub collapse : List Bytes → List Bytes → List Bytes
collapse stack [] = stack
collapse stack (tok ∷ toks) =
    collapse
      (if same tok (bytes "..")
        then tail stack
        else if same tok (bytes ".")
        then stack
        else tok ∷ stack)
      toks

-- `stack_new_reverse_from`
abbrev pub onto {ℓ} : {A : Type ℓ} → List A → List A → List A
onto [] acc = acc
onto (x ∷ xs) acc = onto xs (x ∷ acc)

-- Each component with a slash in front
abbrev pub slashed : List Bytes → Bytes
slashed [] = []
slashed (part ∷ parts) = b'/' ∷ (part ++ slashed parts)

abbrev pub from_parts : List Bytes → Bytes
from_parts [] = bytes "."
from_parts (part ∷ parts) = slashed (part ∷ parts)

-- `_mounts_normalize_path`, of a path that is not NULL
unfoldable pub normalize_path : Bytes → Bytes
normalize_path path =
    if not (has (bytes "..") path) && not (has (bytes "//") path)
    then path
    else from_parts (onto (collapse [] (strtok b'/' path)) [])

-- `_mounts_replay_root_from_transformed`
unfoldable pub replay_root : Bytes → Bytes → Option Bytes
replay_root path name = elim (find (path_insert ++ name) path) [
  | some (before, after) ↦ some (before ++ (path_insert ++ name))
  | none ↦ none
]

-- `mounts_ignore_path`
unfoldable pub any_starts : List Bytes → Bytes → Bool
any_starts [] path = false
any_starts (mp ∷ mps) path = any_starts mps path || starts_with mp path

unfoldable pub ignore_path : Mounts → Bytes → Bool
ignore_path m path = starts_with (bytes "/tmp/namespace-") path || any_starts m.ignore_mps path

-- The loop of `mounts_transform_path`, from the last mount point to the first
unfoldable pub last_mount : List Bytes → Bytes → Option Bytes
last_mount [] path = none
last_mount (mp ∷ mps) path = elim (last_mount mps path) [
  | some found ↦ some found
  | none ↦ if starts_with mp path then some mp else none
]

-- The path with `.ioriot/NAME` behind its mount point
unfoldable pub inserted : Bytes → Bytes → Bytes → Bytes
inserted mp name path =
    if same mp (bytes "/")
    then path_insert ++ (name ++ path)
    else mp ++ (path_insert ++ (name ++ drop (length mp) path))

-- `mounts_transform_path`: what it returns, and `*path_r`, `none` for NULL
unfoldable pub transform_path : Mounts → Bytes → Bytes → Bool × Option Bytes
transform_path m name path =
    let path = normalize_path path in
    if ignore_path m path then (false, none) else elim (last_mount m.mps path) [
      | some mp ↦ (true, some (inserted mp name path))
      | none ↦ (true, none)
    ]

-- `mounts_get_mountnumber`
unfoldable pub mountnumber_from : ℕ → List Bytes → Bytes → Option ℕ
mountnumber_from i [] path = none
mountnumber_from i (mp ∷ mps) path = elim (mountnumber_from (i + 1) mps path) [
  | some found ↦ some found
  | none ↦ if starts_with mp path then some i else none
]

unfoldable pub get_mountnumber : Mounts → Bytes → ℕ
get_mountnumber m path = elim (mountnumber_from 0 m.mps path) [ some i ↦ i | none ↦ 0 ]
