-- ===== src/Tests/Futils.antt =====
-- Directories and links on a file system that has few directories (ioriot/src/utils/futils.c).
use ioriot.Prelude.{
  ℕ, ◌+◌, ◌≤◌, ◌≡◌, refl, List, ◌∷◌, ◌++◌, true, false, ◌||◌, length, if◌then◌else◌, some, arith,
  ok, ◌>>=◌, [],
}
use ioriot.Futils.{
  FileSystem, directory, missing, mkdir_p, depth_of, ensure_dir_exists,
  ensure_relative_symlink_exists,
}
use ioriot.Futils.Depth.{HasDots, MkdirP, mkdir_p-MkdirP}
use ioriot.Futils.Inside.{ensure_relative_symlink_exists-Inside}
use ioriot.Futils.Paths.{normalize, replay_root_from_path, path_within_dir, max_parts}
use ioriot.Futils.Walks.{Walk, top}
use ioriot.Mounts.{onto}
use ioriot.Mounts.Links.{append_parts, append_part}
use ioriot.Text.{Bytes, bytes, same, strtok, dirname_r, find}

-- The directories are counted that `mkdir` makes.
abbrev few : FileSystem ℕ
few = record {
  stat = λ s path.
      if same path (bytes ".")
        || same path (bytes "..")
        || same path (bytes "/")
        || same path (bytes "/r/.ioriot/t")
      then directory
      else missing;
  lstat = λ s path. missing;
  unlink = λ s path. s;
  mkdir = λ s path. (true, s + 1);
  symlink = λ s target path. (true, s);
  append = λ s path n. some s;
  overwrite = λ s path offset n. some s;
}

few-HasDots : HasDots few
few-HasDots = record { dot = λ s. refl; up = λ s. refl; root = λ s. refl }

mkdir_p-MkdirP_example :
    MkdirP ℕ few 0 (bytes "a/b/c") (mkdir_p few (depth_of (bytes "a/b/c")) 0 (bytes "a/b/c"))
mkdir_p-MkdirP_example = mkdir_p-MkdirP few few-HasDots 0 (bytes "a/b/c")

mkdir_p_run : mkdir_p few 7 0 (bytes "a/b/c") ≡ ok (true, 3, 3)
unfolding mkdir_p dirname_r ◌>>=◌
mkdir_p_run = refl

link_run :
    ensure_relative_symlink_exists few 0 (bytes "/r/.ioriot/t/a/l") (some (bytes "../b"))
    ≡ ok (true, 1, 1)
unfolding ensure_relative_symlink_exists ensure_dir_exists mkdir_p dirname_r ◌>>=◌ normalize
    replay_root_from_path path_within_dir max_parts append_parts append_part strtok find
link_run = refl

-- One level more leads out of the replay root.
link_out_run :
    ensure_relative_symlink_exists few 0 (bytes "/r/.ioriot/t/a/l") (some (bytes "../../b"))
    ≡ ok (false, 1, 1)
unfolding ensure_relative_symlink_exists ensure_dir_exists mkdir_p dirname_r ◌>>=◌ normalize
    replay_root_from_path path_within_dir max_parts append_parts append_part strtok find
link_out_run = refl

parent_run : dirname_r (bytes "/r/.ioriot/t/a/l") ≡ some (bytes "/r/.ioriot/t/a")
unfolding dirname_r
parent_run = refl

few_parts : length (strtok b'/' (bytes "/r/.ioriot/t/a" ++ (b'/' ∷ bytes "../b"))) ≤ max_parts
unfolding strtok max_parts
few_parts = omega arith

ensure_relative_symlink_exists-Inside_example :
    (root : Bytes) × (replay_root_from_path (bytes "/r/.ioriot/t/a/l") ≡ some root)
    × (place : List Bytes) × Walk top []
        (strtok b'/' (bytes "/r/.ioriot/t/a") ++ strtok b'/' (bytes "../b"))
        top
        place
    × (more : List Bytes) × (onto place [] ≡ strtok b'/' root ++ more)
ensure_relative_symlink_exists-Inside_example =
    ensure_relative_symlink_exists-Inside few 0 1 (bytes "/r/.ioriot/t/a/l") (bytes "r/.ioriot/t/a")
      (bytes "../b") 1 parent_run few_parts link_run

-- With a relative path, as many `..` as lead out of the working directory are dropped, and the
-- check passes.
relative_run :
    path_within_dir
      (normalize (bytes "x/.ioriot/t" ++ (b'/' ∷ bytes "../../../../x/.ioriot/t/b")))
      (bytes "x/.ioriot/t")
    ≡ true
unfolding normalize path_within_dir max_parts append_parts append_part strtok
relative_run = refl
