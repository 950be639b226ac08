-- ===== src/Futils.antt =====
-- The helpers for files and directories of ioriot/src/utils/futils.c; `dirname_r` stands in Text.
pub mod Paths
pub mod Walks
pub mod Inside
pub mod Depth
use ioriot.Prelude.{
  ℕ, zero, suc, ◌+◌, ◌-◌, ◌*◌, ◌/◌, ◌%◌, ◌^◌, ◌≤◌, ◌<◌, ◌≡◌, ◌≢◌, ◌⊎◌, ◌↔◌, refl, ap, sym, subst,
  ◌∙◌, List, [], ◌∷◌, ◌++◌, Bool, true, false, not, ◌&&◌, ◌||◌, ◌==◌, ltb, leb, is_nil, length,
  get_or, set, if◌then◌else◌, Option, some, none, arith, length-append, inl, inr, Option-cases,
  Bool-cases, ℤ, pos, negsuc, eqz, ltz, lez, ◌+ℤ◌, ◌-ℤ◌, ◌≤ℤ◌, ◌<ℤ◌, Outcome, ok, exit, fault,
  ◌>>=◌, Holds, Holds-bind, Holds-any,
}
use ioriot.Text.{Bytes, bytes, dirname_r}
use ioriot.Futils.Paths.{normalize, replay_root_from_path, path_within_dir}

-- What `stat` or `lstat` finds at a path
pub data Kind : Type 0 where
  missing : Kind
  directory : Kind
  regular : Kind
  other : Kind

-- The calls to the file system. `mkdir` also says `true` where the path is there already; bytes
-- that are written are counted, not named; `none` is a file that cannot be opened.
pub record FileSystem (S : Type 0) : Type 0 where
  pub stat : S → Bytes → Kind
  pub lstat : S → Bytes → Kind
  pub unlink : S → Bytes → S
  pub mkdir : S → Bytes → Bool × S
  pub symlink : S → Bytes → Bytes → Bool × S
  pub append : S → Bytes → ℕ → Option S
  pub overwrite : S → Bytes → ℕ → ℕ → Option S

abbrev pub is_directory : Kind → Bool
is_directory missing = false
is_directory directory = true
is_directory regular = false
is_directory other = false

abbrev pub is_regular : Kind → Bool
is_regular missing = false
is_regular directory = false
is_regular regular = true
is_regular other = false

abbrev pub is_missing : Kind → Bool
is_missing missing = true
is_missing directory = false
is_missing regular = false
is_missing other = false

-- A path has no more parents than bytes.
abbrev pub depth_of : Bytes → ℕ
depth_of path = length path + 2

abbrev pub may_be_target : Option Bytes → Bool
may_be_target none = false
may_be_target (some []) = false
may_be_target (some (c ∷ target)) = not (c == b'/')

abbrev pub text_of : Option Bytes → Bytes
text_of none = []
text_of (some target) = target

-- `max_chunk`
unfoldable pub max_chunk : ℕ
max_chunk = 50000000

-- `Fill_with_stuff(buf, len)`, by the number of `X` that the buffer begins with, a 0 behind them:
-- all bytes but the last are set, and what the buffer had behind them stays.
abbrev pub fill_with_stuff : ℕ → ℕ → ℕ
fill_with_stuff xs len = if ltb xs (len - 1) then len - 1 else xs

-- `buf[len] = 0`, which ends the string that is printed
abbrev pub cut : ℕ → ℕ → ℕ
cut xs len = if ltb len xs then len else xs

-- `_write_random_to_stream`, within the given rounds and from what the buffer begins with: how many
-- bytes it prints. A new buffer has no `X`; of no bytes, the loop of `Fill_with_stuff` does not end
-- in time.
unfoldable pub random_bytes : ℕ → ℕ → ℕ → Outcome ℕ
random_bytes zero xs bytes = fault
random_bytes (suc rounds) xs bytes =
    let chunk = cut (fill_with_stuff xs max_chunk) max_chunk in
    let more = random_bytes rounds chunk (bytes - max_chunk) >>= λ n. ok (chunk + n) in
    if ltb max_chunk bytes
    then more
    else if bytes == 0
    then fault
    else ok (cut (fill_with_stuff xs bytes) bytes)

module _ {S : Type 0} (sys : FileSystem S) where
  -- `mkdir` of `mkdir_p`: whether it returns 0, and the number of directories
  abbrev pub made : ℕ → Bool × S → Outcome (Bool × ℕ × S)
  made created (done, s) = if done then ok (true, created + 1, s) else ok (false, created, s)

  -- `mkdir_p` behind the call for the parent: where that failed, it returns 0 all the same.
  abbrev pub below : Bytes → Bool × ℕ × S → Outcome (Bool × ℕ × S)
  below path (done, created, s) =
      if done then made created (sys.mkdir s path) else ok (true, created, s)

  -- The calls for the parent, and then for the path
  abbrev pub with_parent :
      (S → Bytes → Outcome (Bool × ℕ × S)) → S → Bytes → Option Bytes → Outcome (Bool × ℕ × S)
  with_parent mkdir s path none = fault
  with_parent mkdir s path (some top) = mkdir s top >>= below path

  -- `mkdir_p`, within the given depth: whether it returns 0, and how many directories it made
  unfoldable pub mkdir_p : ℕ → S → Bytes → Outcome (Bool × ℕ × S)
  mkdir_p zero s path = fault
  mkdir_p (suc depth) s path =
      if is_directory (sys.stat s path)
      then ok (true, 0, s)
      else with_parent (mkdir_p depth)
          (if is_regular (sys.stat s path) then sys.unlink s path else s) path (dirname_r path)

  abbrev pub created_or_exit : Bool × ℕ × S → Outcome (ℕ × S)
  created_or_exit (done, created, s) = if done then ok (created, s) else exit

  -- `ensure_dir_exists`
  unfoldable pub ensure_dir_exists : S → Bytes → Outcome (ℕ × S)
  ensure_dir_exists s path = mkdir_p (depth_of path) s path >>= created_or_exit

  -- The file is opened for appending, and gets the two bytes of "42".
  abbrev pub append_answer : Bytes → ℕ × S → Outcome (Bool × ℕ × S)
  append_answer path (created, s) = elim (sys.append s path 2) [
    | none ↦ ok (false, created, s)
    | some s' ↦ ok (true, created, s')
  ]

  -- `ensure_file_exists`: whether it returns SUCCESS
  unfoldable pub ensure_file_exists : S → Bytes → Outcome (Bool × ℕ × S)
  ensure_file_exists s path =
      if is_regular (sys.stat s path) then ok (true, 0, s) else elim (dirname_r path) [
        | none ↦ fault
        | some parent ↦ ensure_dir_exists s parent >>= append_answer path
      ]

  abbrev pub linked : ℕ → Bool × S → Outcome (Bool × ℕ × S)
  linked created (done, s) = ok (done, created, s)

  -- The link itself, in place of what is no directory there
  abbrev pub replace_link : Bytes → Bytes → ℕ → S → Outcome (Bool × ℕ × S)
  replace_link path target created s =
      if is_missing (sys.lstat s path)
      then linked created (sys.symlink s target path)
      else if is_directory (sys.lstat s path)
      then ok (false, created, s)
      else linked created (sys.symlink (sys.unlink s path) target path)

  -- The checks of the target, behind the creation of the directory
  abbrev pub link_inside : Bytes → Bytes → Bytes → ℕ × S → Option Bytes → Outcome (Bool × ℕ × S)
  link_inside path target parent (created, s) none = ok (false, created, s)
  link_inside path target parent (created, s) (some root) =
      if not (path_within_dir (normalize (parent ++ (b'/' ∷ target))) root)
      then ok (false, created, s)
      else replace_link path target created s

  -- `ensure_relative_symlink_exists`: whether it returns SUCCESS
  unfoldable pub ensure_relative_symlink_exists : S → Bytes → Option Bytes → Outcome (Bool × ℕ × S)
  ensure_relative_symlink_exists s path target =
      if not (may_be_target target) then ok (false, 0, s) else elim (dirname_r path) [
        | none ↦ fault
        | some parent ↦ ensure_dir_exists s parent >>= λ made_dirs.
            link_inside path (text_of target) parent made_dirs (replay_root_from_path path)
      ]

  -- `Fopen` ends the program where the file cannot be opened.
  abbrev pub opened : Option S → Outcome S
  opened none = exit
  opened (some s) = ok s

  -- `append_random_to_file`
  unfoldable pub append_random_to_file : S → Bytes → ℕ → Outcome S
  append_random_to_file s path size = random_bytes size 0 size >>= λ n. opened (sys.append s path n)

  -- `write_random_to_file`, which opens the file anew and seeks
  unfoldable pub write_random_to_file : S → Bytes → ℕ → ℕ → Outcome S
  write_random_to_file s path size offset =
      random_bytes size 0 size >>= λ n. opened (sys.overwrite s path offset n)
