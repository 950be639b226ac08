-- ===== src/Futils/Inside.antt =====
-- Where the links lead that `ensure_relative_symlink_exists` of ioriot/src/utils/futils.c makes.
use ioriot.Prelude.{
  ℕ, ◌+◌, ◌≤◌, ◌≡◌, refl, ap, sym, subst, ◌∙◌, List, [], ◌∷◌, ◌++◌, Bool, true, false, ◌==◌, ltb,
  length, Option, some, none, arith, inl, inr, Bool-cases, ok, Holds, Holds-bind, Holds-any,
}
use mathlib.Core.List.{append-nil}
use ioriot.Text.{Bytes, bytes, strtok, find, before_first, starts_with, drop, dirname_r}
use ioriot.Mounts.{collapse, onto}
use ioriot.Mounts.Links.{append_parts}
use ioriot.Mounts.Normal.{IsName, names-parts, collapse-names, All, strtok-parts, onto-All}
use ioriot.Mounts.Joined.{strtok-both, strtok-append_parts}
use ioriot.Futils.Walks.{Walk, top, start_of, Walk-collapse}
use ioriot.Futils.{
  FileSystem, ensure_relative_symlink_exists, link_inside, ensure_dir_exists, may_be_target,
  replace_link,
}
use ioriot.Prelude.{Holds-weaken}
use ioriot.Futils.Paths.{
  max_parts, next_part, collect, root_of, or_dot, normalize, marker, named_root, root_in,
  replay_root_from_path, ends_or_slash, path_within_dir,
}

length-next_part :
    (parts : List Bytes) (tok : Bytes) → length (next_part parts tok) ≤ length parts + 1
length-next_part [] tok = ground arith
length-next_part (part ∷ parts) tok = ground arith

collect-collapse :
    (parts toks : List Bytes)
    → length parts + length toks ≤ max_parts
    → collect parts toks ≡ collapse parts toks
unfolding collapse
collect-collapse parts [] h = refl
collect-collapse parts (tok ∷ toks) h =
    let room : ltb (length parts) max_parts ≡ true = ground (arith, h) in
    rw room
      (collect-collapse (next_part parts tok) toks (omega (arith, h, length-next_part parts tok)))

strtok-root_of : (path : Bytes) → strtok b'/' (root_of path) ≡ []
unfolding strtok
strtok-root_of [] = refl
strtok-root_of (c ∷ path) = elim (Bool-cases (c == b'/')) [ inl e ↦ rw e refl | inr e ↦ rw e refl ]

-- The components of a normalised path that is not empty
strtok-normalize :
    (dir link : Bytes)
    → length (strtok b'/' (dir ++ (b'/' ∷ link))) ≤ max_parts
    → strtok b'/' (
        append_parts
          (root_of (dir ++ (b'/' ∷ link)))
          (onto (collect [] (strtok b'/' (dir ++ (b'/' ∷ link)))) []))
      ≡ onto (collapse [] (strtok b'/' dir ++ strtok b'/' link)) []
strtok-normalize dir link h =
    let path : Bytes = dir ++ (b'/' ∷ link) in
    let toks : List Bytes = strtok b'/' path in
    let same_parts : collect [] toks ≡ collapse [] toks =
      collect-collapse [] toks (omega (arith, h)) in
    strtok-append_parts (root_of path) (onto (collect [] toks) []) (
      names-parts (onto (collect [] toks) []) (
        onto-All IsName (collect [] toks) []
          (subst (All IsName) (sym same_parts) (collapse-names [] toks tt (strtok-parts path))) tt))
    ∙ rw (strtok-root_of path) (
        ap (λ (p : List Bytes). onto p [])
          (same_parts ∙ ap (collapse []) (strtok-both b'/' dir link)))

-- A path inside a directory has the components of the directory first.
starts_with-split :
    (dir path : Bytes) → starts_with dir path ≡ true → path ≡ dir ++ drop (length dir) path
starts_with-split [] path h = refl
starts_with-split (c ∷ dir) [] h = absurd (ground (arith, h))
starts_with-split (c ∷ dir) (d ∷ path) h = ground (arith, starts_with-split dir path, h)

strtok-behind :
    (dir rest : Bytes)
    → ends_or_slash rest ≡ true
    → (more : List Bytes) × (strtok b'/' (dir ++ rest) ≡ strtok b'/' dir ++ more)
strtok-behind dir [] h =
    ([], ap (strtok b'/') (append-nil dir) ∙ sym (append-nil (strtok b'/' dir)))
strtok-behind dir (c ∷ rest) h =
    let slash : c ≡ b'/' = ground (arith, h) in
    (strtok b'/' rest, rw slash (strtok-both b'/' dir rest))

strtok-within :
    (path dir : Bytes)
    → path_within_dir path dir ≡ true
    → (more : List Bytes) × (strtok b'/' path ≡ strtok b'/' dir ++ more)
unfolding path_within_dir
strtok-within path dir h =
    let starts : starts_with dir path ≡ true = ground (arith, h) in
    let ends : ends_or_slash (drop (length dir) path) ≡ true = ground (arith, h) in
    let (more, e) = strtok-behind dir (drop (length dir) path) ends in
    (more, ap (strtok b'/') (starts_with-split dir path starts) ∙ e)

-- What a replay root looks like
abbrev IsRoot : Bytes → Type 0
IsRoot root = (before : Bytes) × (name : Bytes) × (root ≡ before ++ (marker ++ name))

named_root-IsRoot :
    (before root : Bytes) (o : Option (Bytes × Bytes))
    → named_root before o ≡ some root
    → IsRoot root
named_root-IsRoot before root none e = absurd (ground (arith, e))
named_root-IsRoot before root (some (name, rest)) e = (before, name, ground (arith, e))

root_in-IsRoot : (root : Bytes) (o : Option (Bytes × Bytes)) → root_in o ≡ some root → IsRoot root
root_in-IsRoot root none e = absurd (ground (arith, e))
root_in-IsRoot root (some (before, after)) e =
    named_root-IsRoot before root (before_first b'/' after) e

replay_root_from_path-IsRoot :
    (path root : Bytes) → replay_root_from_path path ≡ some root → IsRoot root
unfolding replay_root_from_path
replay_root_from_path-IsRoot path root e = root_in-IsRoot root (find marker path) e

dot_outside : (before name : Bytes) → starts_with (before ++ (marker ++ name)) (bytes ".") ≡ false
dot_outside [] name = refl
dot_outside (c ∷ []) name = ground arith
dot_outside (c ∷ d ∷ before) name = ground arith

or_dot-within :
    (path root : Bytes)
    → IsRoot root
    → path_within_dir (or_dot path) root ≡ true
    → path_within_dir path root ≡ true
unfolding path_within_dir
or_dot-within [] root (before, name, e) h =
    let outside : starts_with root (bytes ".") ≡ false = rw e (dot_outside before name) in
    absurd (ground (arith, h, outside))
or_dot-within (c ∷ path) root r h = h

-- Where a link in a directory leads, if its target passed the checks
abbrev Inside : Bytes → Bytes → Bytes → Type 0
Inside path parent link =
    (root : Bytes) × (replay_root_from_path path ≡ some root)
    × (place : List Bytes) × Walk (start_of parent) [] (strtok b'/' parent ++ strtok b'/' link) top
        place
    × (more : List Bytes) × (onto place [] ≡ strtok b'/' root ++ more)

passed-Inside :
    (path parent link root : Bytes)
    → start_of parent ≡ top
    → length (strtok b'/' (parent ++ (b'/' ∷ link))) ≤ max_parts
    → replay_root_from_path path ≡ some root
    → path_within_dir (normalize (parent ++ (b'/' ∷ link))) root ≡ true
    → Inside path parent link
unfolding normalize
passed-Inside path parent link root absolute h e within =
    let toks : List Bytes = strtok b'/' parent ++ strtok b'/' link in
    let (more, f) =
      strtok-within _ root
        (or_dot-within _ root (replay_root_from_path-IsRoot path root e) within) in
    (
      root,
      e,
      collapse [] toks,
      rw absolute (Walk-collapse [] toks),
      more,
      sym (strtok-normalize parent link h) ∙ f,
    )

module _ {S : Type 0} (sys : FileSystem S) where
  abbrev Good : Bytes → Bytes → Bytes → Bool × ℕ × S → Type 0
  Good path parent link r = r.0 ≡ true → Inside path parent link

  link_inside-Good :
      (path parent link : Bytes) (made : ℕ × S) (root : Option Bytes)
      → start_of parent ≡ top
      → length (strtok b'/' (parent ++ (b'/' ∷ link))) ≤ max_parts
      → replay_root_from_path path ≡ root
      → Holds (Good path parent link) (link_inside sys path link parent made root)
  link_inside-Good path parent link (created, s) none absolute h e = λ p. absurd (ground (arith, p))
  link_inside-Good path parent link (created, s) (some root) absolute h e =
      elim (Bool-cases (path_within_dir (normalize (parent ++ (b'/' ∷ link))) root)) [
        | inl within ↦ rw within (
            Holds-weaken (λ _. Unit {0}) (Good path parent link)
              (replace_link sys path link created s)
              (λ r u p. passed-Inside path parent link root absolute h e within) (Holds-any _))
        | inr out ↦ rw out (λ p. absurd (ground (arith, p)))
      ]

  ensure-Good :
      (s : S) (path parent link : Bytes)
      → dirname_r path ≡ some parent
      → start_of parent ≡ top
      → length (strtok b'/' (parent ++ (b'/' ∷ link))) ≤ max_parts
      → Holds (Good path parent link) (ensure_relative_symlink_exists sys s path (some link))
  unfolding ensure_relative_symlink_exists
  ensure-Good s path parent link d absolute h = elim (Bool-cases (may_be_target (some link))) [
    | inl may ↦
        rw (may, d)
          (Holds-bind (λ _. Unit {0}) (Good path parent link) (ensure_dir_exists sys s parent) _
            (Holds-any (ensure_dir_exists sys s parent))
            (λ made u.
              link_inside-Good path parent link made (replay_root_from_path path) absolute h refl))
    | inr not_target ↦ rw not_target (λ p. absurd (ground (arith, p)))
  ]

  -- If `ensure_relative_symlink_exists` returns SUCCESS for a path in an absolute directory, the
  -- path lies in a replay root, and a walk from the root directory along the components of the
  -- directory and then of the target of the link, `..` leading to the parent, ends at a place that
  -- has the components of this root first, whatever the file system answers: where directory and
  -- target have together no more components than the code takes. Links on the way are not followed.
  pub ensure_relative_symlink_exists-Inside :
      (s after : S) (path dir link : Bytes) (created : ℕ)
      → dirname_r path ≡ some (b'/' ∷ dir)
      → length (strtok b'/' ((b'/' ∷ dir) ++ (b'/' ∷ link))) ≤ max_parts
      → ensure_relative_symlink_exists sys s path (some link) ≡ ok (true, created, after)
      → (root : Bytes) × (replay_root_from_path path ≡ some root)
        × (place : List Bytes) × Walk top []
            (strtok b'/' (b'/' ∷ dir) ++ strtok b'/' link)
            top
            place
        × (more : List Bytes) × (onto place [] ≡ strtok b'/' root ++ more)
  ensure_relative_symlink_exists-Inside s after path dir link created d h e =
      subst (Holds (Good path (b'/' ∷ dir) link)) e (ensure-Good s path (b'/' ∷ dir) link d refl h)
        refl
