-- ===== src/Futils/Paths.antt =====
-- The paths of ioriot/src/utils/futils.c: `_normalize_path`, `_replay_root_from_path`,
-- `_path_within_dir`.
use ioriot.Prelude.{
  ℕ, List, [], ◌∷◌, ◌++◌, Bool, true, ◌&&◌, ◌==◌, ltb, length, if◌then◌else◌, Option, some, none,
}
use ioriot.Mounts.{tail, onto}
use ioriot.Mounts.Links.{append_parts}
use ioriot.Text.{Bytes, bytes, same, strtok, find, before_first, starts_with, drop}

-- `parts[1024]`
unfoldable pub max_parts : ℕ
max_parts = 1024

-- One component, on the parts before it, the last one first
abbrev pub next_part : List Bytes → Bytes → List Bytes
next_part parts tok =
    if same tok (bytes "..")
    then tail parts
    else if same tok (bytes ".")
    then parts
    else tok ∷ parts

-- The loop over the components, which ends where the array is full
abbrev pub collect : List Bytes → List Bytes → List Bytes
collect parts [] = parts
collect parts (tok ∷ toks) =
    let more = collect (next_part parts tok) toks in
    if ltb (length parts) max_parts then more else parts

abbrev pub root_of : Bytes → Bytes
root_of [] = []
root_of (c ∷ path) = if c == b'/' then bytes "/" else []

abbrev pub or_dot : Bytes → Bytes
or_dot [] = bytes "."
or_dot (c ∷ s) = c ∷ s

-- `_normalize_path`: the parts are put together as in ioriot/src/mounts.c.
unfoldable pub normalize : Bytes → Bytes
normalize path = or_dot (append_parts (root_of path) (onto (collect [] (strtok b'/' path)) []))

abbrev pub marker : Bytes
marker = bytes "/.ioriot/"

abbrev pub named_root : Bytes → Option (Bytes × Bytes) → Option Bytes
named_root before none = none
named_root before (some (name, rest)) = some (before ++ (marker ++ name))

abbrev pub root_in : Option (Bytes × Bytes) → Option Bytes
root_in none = none
root_in (some (before, after)) = named_root before (before_first b'/' after)

-- `_replay_root_from_path`
unfoldable pub replay_root_from_path : Bytes → Option Bytes
replay_root_from_path path = root_in (find marker path)

abbrev pub ends_or_slash : Bytes → Bool
ends_or_slash [] = true
ends_or_slash (c ∷ s) = c == b'/'

-- `_path_within_dir`
unfoldable pub path_within_dir : Bytes → Bytes → Bool
path_within_dir path dir = starts_with dir path && ends_or_slash (drop (length dir) path)
