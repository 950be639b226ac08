-- ===== src/Generate/Vsize.antt =====
-- How each system call changes the virtual sizes: the functions of ioriot/src/generate/vsize.c on
-- the object `v` of a store. Those that use a virtual descriptor return it changed.
pub mod Inv
pub mod Paths
pub mod Steps
pub mod Calls
use ioriot.Prelude.{
  ℕ, ◌+◌, ◌-◌, ◌%◌, ◌^◌, Bool, true, false, not, ◌==◌, if◌then◌else◌, ltb, Option, some, none, ℤ,
  pos, negsuc, ◌+ℤ◌, get_or, set, zero, suc, ◌*◌, ◌/◌, ◌≤◌, ◌<◌, ◌≡◌, ◌≢◌, ◌⊎◌, ◌↔◌, refl, ap, sym,
  subst, ◌∙◌, List, [], ◌∷◌, ◌++◌, ◌&&◌, ◌||◌, leb, is_nil, length, arith, length-append, inl, inr,
  Option-cases, Bool-cases, eqz, ltz, lez, ◌-ℤ◌, ◌≤ℤ◌, ◌<ℤ◌, Outcome, ok, exit, fault, ◌>>=◌, Holds,
  Holds-bind, Holds-any,
}
use Prim.Native.Nat.{bit_and}
use ioriot.Datas.BTree.{has_range_l}
use ioriot.Generate.DataRange.{ensure_data_range}
use ioriot.Generate.PathMap.{Bytes, PathMap}
use ioriot.Generate.State.{
  Vsize, Store, set_file, set_dir, set_link, set_unsure, set_required, set_renamed, touch, deref,
  modify, init_parent_dir, vsize_new,
}

-- `vfd_s`, but for what the replayer alone uses; `offset` is an `unsigned long`.
pub record Vfd : Type 0 where
  pub fd : ℤ
  pub mapped_fd : ℕ
  pub path : Bytes
  pub offset : ℕ

-- The conversions between `long` and `unsigned long`
abbrev pub to_long : ℕ → ℤ
to_long n = if ltb n (2 ^ 63) then pos n else negsuc (2 ^ 64 - 1 - n)

abbrev pub to_ulong : ℤ → ℕ
to_ulong (pos n) = n % 2 ^ 64
to_ulong (negsuc n) = 2 ^ 64 - 1 - n % 2 ^ 64

-- `Has(flags, what)`
abbrev pub has : ℕ → ℕ → Bool
has flags what = bit_and flags what == what

-- The changes that a function makes to its own object
abbrev pub to_dir : Vsize → Vsize
to_dir v = set_dir (set_required v)

abbrev pub to_unsure_file : Vsize → Vsize
to_unsure_file v = set_unsure (set_file (set_required v))

abbrev pub to_link : Bytes → Vsize → Vsize
to_link target v = set_link (set_required (record v { link_target = some target }))

abbrev pub to_unlinked : Vsize → Vsize
to_unlinked v = if not v.is_dir then set_unsure (set_file (set_required v)) else set_required v

-- Whether the file was written at these positions, so that reading them asks for nothing. The end
-- is counted as an `unsigned long`.
abbrev pub was_written : Vsize → ℤ → ℤ → Bool
was_written v offset bytes = elim v.write_ranges [
  | none ↦ false
  | some b ↦ has_range_l b offset (to_long (to_ulong (offset +ℤ bytes)))
]

abbrev pub to_read : ℤ → ℤ → Vsize → Vsize
to_read offset bytes v =
    if was_written v offset bytes
    then v
    else (let (size, ranges) = ensure_data_range v.bytes v.read_ranges offset bytes in
        set_file (set_required (record v { bytes = size; read_ranges = ranges })))

abbrev pub to_written : ℤ → ℤ → Vsize → Vsize
to_written offset bytes v =
    let (size, ranges) = ensure_data_range v.bytes v.write_ranges offset bytes in
    record v { bytes = size; write_ranges = ranges }

module _ (paths : PathMap) (dirname : Bytes → Bytes) where
  -- What most functions do at the first occurrence of an object: see to the parent directory,
  -- change the object, and count the update.
  abbrev pub at_first : Store paths → ℕ → Bytes → (Vsize → Vsize) → Store paths
  at_first g v path f =
      if (deref paths g v).updates == 0
      then modify paths (init_parent_dir paths dirname g path) v (λ o. touch (f o))
      else g

  unfoldable pub vsize_stat : Store paths → ℕ → Bytes → Store paths
  vsize_stat g v path = at_first g v path to_unsure_file

  unfoldable pub vsize_mkdir : Store paths → ℕ → Bytes → Store paths
  vsize_mkdir g v path = at_first g v path set_dir

  unfoldable pub vsize_rmdir : Store paths → ℕ → Bytes → Store paths
  vsize_rmdir g v path = at_first g v path to_dir

  unfoldable pub vsize_unlink : Store paths → ℕ → Bytes → Store paths
  vsize_unlink g v path = at_first g v path to_unlinked

  unfoldable pub vsize_rename : Store paths → ℕ → ℕ → Bytes → Bytes → Store paths
  vsize_rename g v v2 path path2 =
      at_first (at_first g v path to_unsure_file) v2 path2
        (λ o. set_renamed (set_unsure (set_file o)))

  unfoldable pub vsize_symlink : Store paths → ℕ → Bytes → Bytes → Store paths
  vsize_symlink g v path target =
      modify paths
        (if (deref paths g v).updates == 0 then init_parent_dir paths dirname g path else g) v
        (λ o. touch (to_link target o))

  -- `o_directory` and `o_creat` are the flags of the system's headers.
  module _ (o_directory o_creat : ℕ) where
    unfoldable pub vsize_open : Store paths → ℕ → Vfd → Bytes → ℕ → Store paths × Vfd
    vsize_open g v vfd path flags =
        if (deref paths g v).updates == 0
        then (
          modify paths (init_parent_dir paths dirname g path) v (λ o. touch (
              if has flags o_directory
              then to_dir o
              else if not (has flags o_creat)
              then to_unsure_file o
              else o)),
          record vfd { offset = 0 },
        )
        else if (deref paths g v).unsure
        then (if has flags o_directory then modify paths g v (λ o. touch (set_dir o)) else g, vfd)
        else (g, vfd)

module _ (paths : PathMap) where
  unfoldable pub vsize_close : Store paths → ℕ → Vfd → Store paths × Vfd
  vsize_close g v vfd = (modify paths g v touch, record vfd { offset = 0 })

  -- `bytes` is an `int`.
  unfoldable pub vsize_read : Store paths → ℕ → Vfd → ℤ → Store paths × Vfd
  vsize_read g v vfd bytes = (
    modify paths g v (λ o. touch (to_read (to_long vfd.offset) bytes o)),
    record vfd { offset = to_ulong (pos vfd.offset +ℤ bytes) },
  )

  unfoldable pub vsize_write : Store paths → ℕ → Vfd → ℤ → Store paths × Vfd
  vsize_write g v vfd bytes = (
    modify paths g v (λ o. touch (to_written (to_long vfd.offset) bytes o)),
    record vfd { offset = to_ulong (pos vfd.offset +ℤ bytes) },
  )

  unfoldable pub vsize_seek : Store paths → ℕ → Vfd → ℤ → Store paths × Vfd
  vsize_seek g v vfd new_offset =
      (modify paths g v touch, record vfd { offset = to_ulong new_offset })
