-- ===== src/Mounts/Clean/Links.antt =====
-- The byte that separates the fields of a .replay file, and the targets of links that
-- ioriot/src/mounts.c makes.
use ioriot.Prelude.{
  ℕ, zero, suc, refl, subst, List, [], ◌∷◌, ◌++◌, Bool, true, false, ◌==◌, is_nil, if◌then◌else◌,
  Option, some, none, arith, inl, inr, Option-cases, Bool-cases, Holds,
}
use ioriot.Text.{Bytes, bytes, starts_with, strtok, same, last, before_last, trim, dirname_r}
use ioriot.Mounts.{Mounts, transform_path, replay_root}
use ioriot.Mounts.Links.{
  take, apart, ups, append_part, append_parts, relative_from, relative_path, target_abs,
  link_within, transform_symlink_target,
}
use ioriot.Mounts.Normal.{All}
use ioriot.Mounts.Clean.{
  Clean, CleanIf, append-Clean, strtok-Clean, normalize_path-Clean, if-Clean, transform_path-Clean,
}

before_last-Clean : (delim : ℕ) (s : Bytes) → Clean s → CleanIf (before_last delim s)
before_last-Clean delim [] h = tt
before_last-Clean delim (c ∷ s) h = elim (Option-cases (before_last delim s)) [
  | inl missing ↦
      rw missing (elim (Bool-cases (c == delim)) [ inl e ↦ rw e refl | inr e ↦ rw e tt ])
  | inr (before, found) ↦
      rw found (ground (arith, subst CleanIf found (before_last-Clean delim s (ground arith))))
]

trim-Clean : (delim : ℕ) (s : Bytes) → Clean s → Clean (trim delim s)
trim-Clean delim [] h = refl
trim-Clean delim (c ∷ s) h = ground (arith, trim-Clean delim s)

pub if-CleanIf :
    (b : Bool) (o d : Option Bytes) → CleanIf o → CleanIf d → CleanIf (if b then o else d)
if-CleanIf true o d h k = h
if-CleanIf false o d h k = k

or-CleanIf :
    (o : Option Bytes) (s : Bytes)
    → CleanIf o
    → Clean s
    → CleanIf (elim o [ some before ↦ some before | none ↦ some s ])
or-CleanIf none s h k = k
or-CleanIf (some before) s h k = h

dirname_r-Clean : (path : Bytes) → Clean path → CleanIf (dirname_r path)
unfolding dirname_r
dirname_r-Clean [] h = tt
dirname_r-Clean (c ∷ s) h =
    let path : Bytes = c ∷ s in
    let trimmed = trim-Clean b'/' path h in
    if-CleanIf (same path (bytes "..")) (some path) _ h (
      if-CleanIf (last c s == b'/') _ _
        (if-CleanIf (is_nil s) (some path) _ h (
          or-CleanIf (before_last b'/' (trim b'/' path)) (trim b'/' path)
            (before_last-Clean b'/' (trim b'/' path) trimmed) trimmed))
        (or-CleanIf (before_last b'/' path) (bytes ".") (before_last-Clean b'/' path h) refl))

take-Clean : (n : ℕ) (xs : List Bytes) → All Clean xs → All Clean (take n xs)
take-Clean zero xs h = tt
take-Clean (suc n) [] h = tt
take-Clean (suc n) (x ∷ xs) h = (h.0, take-Clean n xs h.1)

apart-Clean : (from to : List Bytes) → All Clean to → All Clean (apart from to).1
unfolding apart
apart-Clean [] to h = h
apart-Clean (part ∷ from) [] h = tt
apart-Clean (part ∷ from) (other ∷ to) h = elim (Bool-cases (same part other)) [
  | inl e ↦ rw e (apart-Clean from to h.1)
  | inr e ↦ rw e h
]

ups-Clean : (from : List Bytes) → Clean (ups from)
unfolding ups
ups-Clean [] = refl
ups-Clean (part ∷ from) = ground (arith, ups-Clean from)

append_part-Clean : (s part : Bytes) → Clean s → Clean part → Clean (append_part s part)
unfolding append_part
append_part-Clean [] part h k = k
append_part-Clean (c ∷ s) part h k =
    if-Clean (last c s == b'/') ((c ∷ s) ++ part) ((c ∷ s) ++ (b'/' ∷ part))
      (append-Clean (c ∷ s) part h k) (append-Clean (c ∷ s) (b'/' ∷ part) h (ground arith))

append_parts-Clean :
    (s : Bytes) (parts : List Bytes) → Clean s → All Clean parts → Clean (append_parts s parts)
unfolding append_parts
append_parts-Clean s [] h k = h
append_parts-Clean s (part ∷ parts) h k =
    append_parts-Clean (append_part s part) parts (append_part-Clean s part h k.0) k.1

relative_from-Clean : (from to : List Bytes) → All Clean to → Clean (relative_from (from, to))
unfolding relative_from
relative_from-Clean [] [] h = refl
relative_from-Clean [] (part ∷ to) h = append_parts-Clean (ups []) (part ∷ to) (ups-Clean []) h
relative_from-Clean (part ∷ from) to h =
    append_parts-Clean (ups (part ∷ from)) to (ups-Clean (part ∷ from)) h

relative_path-Clean :
    (from_dir to_path : Bytes) → Clean to_path → Clean (relative_path from_dir to_path)
unfolding relative_path
relative_path-Clean from_dir to_path h =
    let from : List Bytes = take 1024 (strtok b'/' from_dir) in
    let to : List Bytes = take 1024 (strtok b'/' to_path) in
    relative_from-Clean (apart from to).0 (apart from to).1
      (apart-Clean from to (take-Clean 1024 (strtok b'/' to_path) (strtok-Clean b'/' to_path h)))

target_abs-Clean :
    (link_path target : Bytes)
    → Clean link_path
    → Clean target
    → CleanIf (target_abs link_path target)
unfolding target_abs
target_abs-Clean link_path target h k =
    if-CleanIf (starts_with (bytes "/") target) _ _ (normalize_path-Clean target k)
      (elim (Option-cases (dirname_r link_path)) [
        | inl e ↦ rw e tt
        | inr (dir, e) ↦ rw e (
            normalize_path-Clean (dir ++ (b'/' ∷ target)) (
              append-Clean dir (b'/' ∷ target) (subst CleanIf e (dirname_r-Clean link_path h))
                (ground (arith, k))))
      ])

link_within-Clean :
    (name link_path_r target_r : Bytes)
    → Clean target_r
    → Holds CleanIf (link_within name link_path_r target_r)
unfolding link_within
link_within-Clean name link_path_r target_r h = elim (Option-cases (replay_root link_path_r name)) [
  | inl e ↦ rw (e, Holds) tt
  | inr (link_root, e) ↦
      rw (e, Holds)
        (elim (Option-cases (replay_root target_r name)) [
          | inl e ↦ rw (e, Holds) tt
          | inr (target_root, e) ↦
              rw (e, Holds)
                (elim (Bool-cases (same link_root target_root)) [
                  | inr e ↦ rw (e, Holds) tt
                  | inl e ↦
                      rw (e, Holds)
                        (elim (Option-cases (dirname_r link_path_r)) [
                          | inl e ↦ rw (e, Holds) tt
                          | inr (dir, e) ↦ rw (e, Holds) (relative_path-Clean dir target_r h)
                        ])
                ])
        ])
]

pub transform_symlink_target-Clean :
    (m : Mounts) (name link_path link_path_r target : Bytes)
    → All Clean m.mps
    → Clean name
    → Clean link_path
    → Clean target
    → Holds CleanIf (transform_symlink_target m name link_path link_path_r target)
unfolding transform_symlink_target
transform_symlink_target-Clean m name link_path link_path_r target k n l t =
    elim (Option-cases (target_abs link_path target)) [
      | inl e ↦ rw (e, Holds) tt
      | inr (abs, e) ↦
          let clean =
            transform_path-Clean m name abs k n
              (subst CleanIf e (target_abs-Clean link_path target l t)) in
          rw (e, Holds)
            (elim (Bool-cases (transform_path m name abs).0) [
              | inr refused ↦ rw (refused, Holds) tt
              | inl accepted ↦
                  rw (accepted, Holds)
                    (elim (Option-cases (transform_path m name abs).1) [
                      | inl e ↦ rw (e, Holds) tt
                      | inr (target_r, e) ↦
                          rw (e, Holds)
                            (link_within-Clean name link_path_r target_r (subst CleanIf e clean))
                    ])
            ])
    ]
