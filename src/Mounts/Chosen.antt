-- ===== src/Mounts/Chosen.antt =====
-- The mount point that `mounts_transform_path` and `mounts_get_mountnumber` of
-- ioriot/src/mounts.c choose for a path.
use ioriot.Prelude.{
  ℕ, ◌+◌, ◌≡◌, refl, ap, subst, ◌∙◌, List, [], ◌∷◌, ◌++◌, true, false, length, some, none, arith,
  length-append, inl, inr, Option-cases, Bool-cases,
}
use ioriot.Text.{Bytes, bytes, starts_with, drop, same}
use ioriot.Mounts.{
  Mounts, path_insert, any_starts, ignore_path, last_mount, inserted, transform_path,
  mountnumber_from, get_mountnumber, normalize_path,
}

-- The mount point `mp` is the last one that the path starts with, and the result `path_r` is put
-- together behind it in as many bytes as the path, the name and the insert have.
pub record Chosen (m : Mounts) (name path path_r : Bytes) : Type 0 where
  pub mp : Bytes
  pub earlier : List Bytes
  pub later : List Bytes
  pub split : m.mps ≡ earlier ++ (mp ∷ later)
  pub starts : starts_with mp path ≡ true
  pub no_later : any_starts later path ≡ false
  pub not_ignored : ignore_path m path ≡ false
  pub result : path_r ≡ inserted mp name path
  pub size : length path_r ≡ length path + length name + length path_insert
  pub number : get_mountnumber m path ≡ length earlier

-- The last mount point of a list and its position
record Last (mps : List Bytes) (path mp : Bytes) : Type 0 where
  earlier : List Bytes
  later : List Bytes
  split : mps ≡ earlier ++ (mp ∷ later)
  starts : starts_with mp path ≡ true
  no_later : any_starts later path ≡ false
  number : (i : ℕ) → mountnumber_from i mps path ≡ some (i + length earlier)

last_mount-none :
    (mps : List Bytes) (path : Bytes)
    → last_mount mps path ≡ none
    → (any_starts mps path ≡ false) × ((i : ℕ) → mountnumber_from i mps path ≡ none)
unfolding last_mount any_starts mountnumber_from
last_mount-none [] path e = (refl, λ i. refl)
last_mount-none (mp ∷ mps) path e = elim (Option-cases (last_mount mps path)) [
  | inl missing ↦
      let (a, b) = last_mount-none mps path missing in
      (ground (arith, a, e, missing), λ i. ground (arith, b (i + 1), e, missing))
  | inr (found, there) ↦ absurd (ground (arith, e, there))
]

last_mount-Last :
    (mps : List Bytes) (path mp : Bytes) → last_mount mps path ≡ some mp → Last mps path mp
unfolding last_mount any_starts mountnumber_from
last_mount-Last [] path mp e = absurd (ground (arith, e))
last_mount-Last (first ∷ mps) path mp e = elim (Option-cases (last_mount mps path)) [
  | inl missing ↦
      let (none_starts, no_number) = last_mount-none mps path missing in
      let here : (first ≡ mp) × (starts_with first path ≡ true) =
        (ground (arith, e, missing), ground (arith, e, missing)) in
      record {
        earlier = [];
        later = mps;
        split = ap (λ (x : Bytes). x ∷ mps) here.0;
        starts = subst (λ x. starts_with x path ≡ true) here.0 here.1;
        no_later = none_starts;
        number = λ i. ground (arith, no_number (i + 1), here.1);
      }
  | inr (found, there) ↦
      let rest = last_mount-Last mps path mp (there ∙ ground (arith, e, there)) in
      record {
        earlier = first ∷ rest.earlier;
        later = rest.later;
        split = ap (λ (xs : List Bytes). first ∷ xs) rest.split;
        starts = rest.starts;
        no_later = rest.no_later;
        number = λ i. ground (arith, rest.number (i + 1));
      }
]

-- The bytes of what is put together
length-drop :
    (mp path : Bytes)
    → starts_with mp path ≡ true
    → length mp + length (drop (length mp) path) ≡ length path
length-drop [] path h = omega arith
length-drop (c ∷ mp) [] h = absurd (ground (arith, h))
length-drop (c ∷ mp) (d ∷ path) h = omega (arith, length-drop mp path (ground (arith, h)))

length-inserted :
    (mp name path : Bytes)
    → starts_with mp path ≡ true
    → length (inserted mp name path) ≡ length path + length name + length path_insert
unfolding inserted
length-inserted mp name path h = elim (Bool-cases (same mp (bytes "/"))) [
  | inl root ↦
      rw root (omega (arith, length-append path_insert (name ++ path), length-append name path))
  | inr other ↦ rw other (
      omega (
        arith,
        length-append mp (path_insert ++ (name ++ drop (length mp) path)),
        length-append path_insert (name ++ drop (length mp) path),
        length-append name (drop (length mp) path),
        length-drop mp path h,
      ))
]

-- A path that `mounts_transform_path` changes is first normalised, and then has `.ioriot/NAME` put
-- behind the last of the mount points that it starts with, which is also the one that
-- `mounts_get_mountnumber` gives the number of. The path is not an ignored one, and the result
-- is longer than the normalised path by the name and the nine bytes around it.
pub transform_path-Chosen :
    (m : Mounts) (name path path_r : Bytes)
    → transform_path m name path ≡ (true, some path_r)
    → Chosen m name (normalize_path path) path_r
unfolding transform_path get_mountnumber
transform_path-Chosen m name path path_r e =
    elim (Bool-cases (ignore_path m (normalize_path path))) [
      | inl ignored ↦ absurd (ground (arith, e, ignored))
      | inr kept ↦ elim (Option-cases (last_mount m.mps (normalize_path path))) [
        | inl missing ↦ absurd (ground (arith, e, missing, kept))
        | inr (mp, found) ↦
            let last = last_mount-Last m.mps (normalize_path path) mp found in
            let result : path_r ≡ inserted mp name (normalize_path path) =
              ground (arith, e, found, kept) in
            record {
              mp = mp;
              earlier = last.earlier;
              later = last.later;
              split = last.split;
              starts = last.starts;
              no_later = last.no_later;
              not_ignored = kept;
              result = result;
              size = ap length result ∙ length-inserted mp name (normalize_path path) last.starts;
              number = ground (arith, last.number 0);
            }
      ]
    ]
