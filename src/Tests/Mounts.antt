-- ===== src/Tests/Mounts.antt =====
-- Paths, mount points and links at small inputs.
use ioriot.Prelude.{◌≤◌, ◌≡◌, refl, [], ◌∷◌, ◌++◌, true, length, some, arith}
use ioriot.Text.{Bytes, bytes, find, has, strtok}
use ioriot.Mounts.{
  Mounts, normalize_path, collapse, transform_path, ignore_path, any_starts, last_mount, inserted,
}
use ioriot.Mounts.Normal.{All, NotUp, IsName, normal_parts, normalize_path-NotUp}
use ioriot.Mounts.Sizes.{length-normalize_path, normalize_path-grows}
use ioriot.Mounts.Chosen.{Chosen, transform_path-Chosen}
use ioriot.Mounts.Links.{relative_path, apart, relative_from, ups, append_parts, append_part}
use ioriot.Mounts.Resolves.{resolve-relative_path}

abbrev two_mounts : Mounts
two_mounts = record { mps = bytes "/" ∷ bytes "/usr/local" ∷ []; ignore_mps = bytes "/proc" ∷ [] }

normalize_run : normalize_path (bytes "/foo//bar/../x") ≡ bytes "/foo/x"
unfolding normalize_path collapse strtok find
normalize_run = refl

-- The comment of `mounts_transform_path` has a slash at the end of this one.
trailing_run : normalize_path (bytes "/foo/bar/../") ≡ bytes "/foo"
unfolding normalize_path collapse strtok find
trailing_run = refl

normalize_path-NotUp_example : All NotUp (strtok b'/' (normalize_path (bytes "/foo//bar/../x")))
normalize_path-NotUp_example = normalize_path-NotUp (bytes "/foo//bar/../x")

length-normalize_path_example : length (normalize_path (bytes "/foo/../x//")) ≤ 11
length-normalize_path_example = length-normalize_path (bytes "foo/../x//")

has_dots : has (bytes "..") (bytes "a..b") ≡ true
unfolding find
has_dots = refl

normalize_path-grows_example :
    (normalize_path (bytes "a..b") ≡ bytes "/a..b") × (length (normalize_path (bytes "a..b")) ≡ 5)
normalize_path-grows_example = normalize_path-grows b'a' (bytes "..b") refl has_dots refl

abbrev transformed_path : Bytes
transformed_path = bytes "/usr/local/.ioriot/t/x"

transform_run :
    transform_path two_mounts (bytes "t") (bytes "/usr/local/x") ≡ (true, some transformed_path)
unfolding transform_path normalize_path find ignore_path any_starts last_mount inserted
transform_run = refl

transform_path-Chosen_example :
    Chosen two_mounts (bytes "t") (normalize_path (bytes "/usr/local/x")) transformed_path
transform_path-Chosen_example =
    transform_path-Chosen two_mounts (bytes "t") (bytes "/usr/local/x") transformed_path
      transform_run

-- Components of two paths
a_b : All IsName (strtok b'/' (bytes "/a/b"))
unfolding strtok
a_b = (
  record { is_part = record { some_byte = refl; no_slash = refl }; no_dots = refl; no_dot = refl },
  (
    record {
      is_part = record { some_byte = refl; no_slash = refl };
      no_dots = refl;
      no_dot = refl;
    },
    tt,
  ),
)

a_c : All IsName (strtok b'/' (bytes "/a/c"))
unfolding strtok
a_c = (
  record { is_part = record { some_byte = refl; no_slash = refl }; no_dots = refl; no_dot = refl },
  (
    record {
      is_part = record { some_byte = refl; no_slash = refl };
      no_dots = refl;
      no_dot = refl;
    },
    tt,
  ),
)

two_parts :
    (length (strtok b'/' (bytes "/a/b")) ≤ 1024) × (length (strtok b'/' (bytes "/a/c")) ≤ 1024)
unfolding strtok
two_parts = (omega arith, omega arith)

relative_run : relative_path (bytes "/a/b") (bytes "/a/c") ≡ bytes "../c"
unfolding relative_path strtok apart relative_from ups append_parts append_part
relative_run = refl

resolve-relative_path_example :
    normal_parts (bytes "/a/b" ++ b'/' ∷ relative_path (bytes "/a/b") (bytes "/a/c"))
    ≡ strtok b'/' (bytes "/a/c")
resolve-relative_path_example =
    resolve-relative_path (bytes "/a/b") (bytes "/a/c") a_b a_c two_parts.0 two_parts.1
