-- ===== src/Mounts/Read.antt =====
-- The reading of /proc/mounts, `mounts_read` of ioriot/src/mounts.c, from the lines of the file.
use ioriot.Prelude.{
  ℕ, List, [], ◌∷◌, ◌++◌, Bool, not, ◌||◌, leb, length, if◌then◌else◌, Outcome, ok, exit, fault,
  ◌>>=◌,
}
use ioriot.Text.{Bytes, bytes, strtok, same}
use ioriot.Mounts.{Mounts}

abbrev pub max_mountpoints : ℕ
max_mountpoints = 1024

-- The file systems whose mount points are replayed on
unfoldable pub supported : Bytes → Bool
supported fs =
    same fs (bytes "ext2")
    || same fs (bytes "ext5")
    || same fs (bytes "ext4")
    || same fs (bytes "xfs")
    || same fs (bytes "zfs")
    || same fs (bytes "btrfs")

-- One line. `ignore_mps` is not tested for its end: a mount point behind it is written outside.
unfoldable pub read_mount : Mounts → Bytes → Bytes → Outcome Mounts
read_mount m mp fs =
    if not (supported fs)
    then (if same mp (bytes "/")
        then ok m
        else if leb max_mountpoints (length m.ignore_mps)
        then fault
        else ok (record m { ignore_mps = m.ignore_mps ++ mp ∷ [] }))
    else if leb max_mountpoints (length m.mps)
    then exit
    else ok (record m { mps = m.mps ++ mp ∷ [] })

unfoldable pub read_line : Mounts → Bytes → Outcome Mounts
read_line m line = elim (strtok b' ' line) [
  | dev ∷ rest ↦ elim rest [
    | mp ∷ rest ↦ elim rest [ fs ∷ rest ↦ read_mount m mp fs | [] ↦ exit ]
    | [] ↦ exit
  ]
  | [] ↦ exit
]

unfoldable pub mounts_read : Mounts → List Bytes → Outcome Mounts
mounts_read m [] = ok m
mounts_read m (line ∷ lines) = do m ← read_line m line; mounts_read m lines
