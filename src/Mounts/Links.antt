-- ===== src/Mounts/Links.antt =====
-- The targets of symbolic links: `_mounts_relative_path` and `mounts_transform_symlink_target` of
-- ioriot/src/mounts.c.
use ioriot.Prelude.{
  ℕ, zero, suc, List, [], ◌∷◌, ◌++◌, not, ◌==◌, if◌then◌else◌, Option, some, none, Outcome, ok,
  fault,
}
use ioriot.Text.{Bytes, bytes, strtok, same, last, dirname_r, starts_with}
use ioriot.Mounts.{Mounts, normalize_path, replay_root, transform_path}

abbrev pub take {ℓ} : {A : Type ℓ} → ℕ → List A → List A
take zero xs = []
take (suc n) [] = []
take (suc n) (x ∷ xs) = x ∷ take n xs

-- What is left of both lists behind the components they begin with in common
unfoldable pub apart : List Bytes → List Bytes → List Bytes × List Bytes
apart [] to = ([], to)
apart (part ∷ from) [] = (part ∷ from, [])
apart (part ∷ from) (other ∷ to) =
    let (from', to') = apart from to in
    if same part other then (from', to') else (part ∷ from, other ∷ to)

-- The two loops that build the result
unfoldable pub ups : List Bytes → Bytes
ups [] = []
ups (part ∷ from) = b'.' ∷ b'.' ∷ b'/' ∷ ups from

unfoldable pub append_part : Bytes → Bytes → Bytes
append_part [] part = part
append_part (c ∷ s) part = if last c s == b'/' then (c ∷ s) ++ part else (c ∷ s) ++ (b'/' ∷ part)

unfoldable pub append_parts : Bytes → List Bytes → Bytes
append_parts result [] = result
append_parts result (part ∷ parts) = append_parts (append_part result part) parts

-- `_mounts_relative_path`, which takes 1024 components of each path
unfoldable pub relative_from : List Bytes × List Bytes → Bytes
relative_from ([], []) = bytes "."
relative_from (from, to) = append_parts (ups from) to

unfoldable pub relative_path : Bytes → Bytes → Bytes
relative_path from_dir to_path =
    relative_from (apart (take 1024 (strtok b'/' from_dir)) (take 1024 (strtok b'/' to_path)))

-- The target as an absolute path
unfoldable pub target_abs : Bytes → Bytes → Option Bytes
target_abs link_path target =
    if starts_with (bytes "/") target
    then some (normalize_path target)
    else elim (dirname_r link_path) [
      | none ↦ none
      | some dir ↦ some (normalize_path (dir ++ (b'/' ∷ target)))
    ]

-- The rest, for a target that is transformed to `target_r`
unfoldable pub link_within : Bytes → Bytes → Bytes → Outcome (Option Bytes)
link_within name link_path_r target_r = elim (replay_root link_path_r name) [
  | none ↦ ok none
  | some link_root ↦ elim (replay_root target_r name) [
    | none ↦ ok none
    | some target_root ↦
        (if not (same link_root target_root) then ok none else elim (dirname_r link_path_r) [
          | none ↦ fault
          | some dir ↦ ok (some (relative_path dir target_r))
        ])
  ]
]

-- `mounts_transform_symlink_target`, with no NULL among its arguments: `none` for a target that is
-- refused. A target on no mount point is looked for in NULL.
unfoldable pub transform_symlink_target :
    Mounts → Bytes → Bytes → Bytes → Bytes → Outcome (Option Bytes)
transform_symlink_target m name link_path link_path_r target = elim (target_abs link_path target) [
  | none ↦ fault
  | some abs ↦
      let (accepted, path_r) = transform_path m name abs in
      if not accepted
      then ok none
      else elim path_r [ none ↦ fault | some target_r ↦ link_within name link_path_r target_r ]
]
