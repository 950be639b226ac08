-- ===== src/Generate/Gioop/Paths.antt =====
-- The handlers of ioriot/src/generate/gioop.c for calls on a path.
use ioriot.Prelude.{
  ℕ, [], ◌∷◌, true, false, not, ◌||◌, if◌then◌else◌, some, none, ℤ, pos, negsuc, eqz, ltz, lez, ok,
  ◌>>=◌,
}
use ioriot.Generate.PathMap.{Bytes, PathMap}
use ioriot.Generate.State.{vsize_by_path}
use ioriot.Generate.Vsize.{
  to_ulong, vsize_stat, vsize_mkdir, vsize_rmdir, vsize_unlink, vsize_rename, vsize_symlink,
  vsize_open,
}
use ioriot.Generate.Task.{Task, number, text, Generator}
use ioriot.Generate.Process.{task_vsize, write_line, task_vfd, put_back, create_vfd_by_realfd}
use ioriot.Generate.Opcodes.{
  op_fstat_at, op_lstat, op_stat, op_statfs, op_statfs64, op_readlink, op_readlink_at, op_open,
  op_open_at, op_creat, op_mkdir, op_mkdir_at, op_rename, op_rename_at, op_rename_at2, op_unlink,
  op_unlink_at, op_rmdir, op_chmod, op_chown, op_lchown,
}
use ioriot.Generate.Gioop.{Result, path_call, if_ok}

module _ (paths : PathMap) (dirname : Bytes → Bytes) where
  unfoldable pub gioop_stat : Task → Generator paths → Result paths
  gioop_stat t g =
      path_call paths t g op_stat (number t.status ∷ []) (if_ok paths t (vsize_stat paths dirname))

  unfoldable pub gioop_statfs : Task → Generator paths → Result paths
  gioop_statfs t g =
      path_call paths t g op_statfs (number t.status ∷ [])
        (if_ok paths t (vsize_stat paths dirname))

  unfoldable pub gioop_statfs64 : Task → Generator paths → Result paths
  gioop_statfs64 t g =
      path_call paths t g op_statfs64 (number t.status ∷ [])
        (if_ok paths t (vsize_stat paths dirname))

  unfoldable pub gioop_fstatat : Task → Generator paths → Result paths
  gioop_fstatat t g =
      path_call paths t g op_fstat_at (number t.status ∷ [])
        (if_ok paths t (vsize_stat paths dirname))

  unfoldable pub gioop_lstat : Task → Generator paths → Result paths
  gioop_lstat t g =
      path_call paths t g op_lstat (number t.status ∷ []) (if_ok paths t (vsize_stat paths dirname))

  unfoldable pub gioop_mkdir : Task → Generator paths → Result paths
  gioop_mkdir t g =
      path_call paths t g op_mkdir (number t.mode ∷ number t.status ∷ [])
        (if_ok paths t (vsize_mkdir paths dirname))

  unfoldable pub gioop_mkdirat : Task → Generator paths → Result paths
  gioop_mkdirat t g =
      path_call paths t g op_mkdir_at (number t.mode ∷ number t.status ∷ [])
        (if_ok paths t (vsize_mkdir paths dirname))

  unfoldable pub gioop_rmdir : Task → Generator paths → Result paths
  gioop_rmdir t g =
      path_call paths t g op_rmdir (number t.status ∷ [])
        (if_ok paths t (vsize_rmdir paths dirname))

  unfoldable pub gioop_unlink : Task → Generator paths → Result paths
  gioop_unlink t g =
      path_call paths t g op_unlink (number t.status ∷ [])
        (if_ok paths t (vsize_unlink paths dirname))

  unfoldable pub gioop_unlinkat : Task → Generator paths → Result paths
  gioop_unlinkat t g =
      path_call paths t g op_unlink_at (number t.status ∷ [])
        (if_ok paths t (vsize_unlink paths dirname))

  unfoldable pub gioop_chmod : Task → Generator paths → Result paths
  gioop_chmod t g =
      path_call paths t g op_chmod (number t.mode ∷ number t.status ∷ [])
        (if_ok paths t (vsize_stat paths dirname))

  unfoldable pub gioop_chown : Task → Generator paths → Result paths
  gioop_chown t g =
      path_call paths t g op_chown (number t.offset ∷ number t.G ∷ number t.status ∷ [])
        (if_ok paths t (vsize_stat paths dirname))

  unfoldable pub gioop_lchown : Task → Generator paths → Result paths
  gioop_lchown t g =
      path_call paths t g op_lchown (number t.offset ∷ number t.G ∷ number t.status ∷ [])
        (if_ok paths t (vsize_stat paths dirname))

  -- The common text of `gioop_readlink` and `gioop_readlinkat`
  unfoldable pub link_call : ℕ → Task → Generator paths → Result paths
  link_call opcode t g = path_call paths t g opcode (number t.status ∷ []) (λ store v path.
      if lez (pos 0) t.status
      then elim t.path2 [
        | some target ↦ vsize_symlink paths dirname store v path target
        | none ↦ vsize_stat paths dirname store v path
      ]
      else store)

  abbrev pub gioop_readlink : Task → Generator paths → Result paths
  gioop_readlink = link_call op_readlink

  abbrev pub gioop_readlinkat : Task → Generator paths → Result paths
  gioop_readlinkat = link_call op_readlink_at

  -- The common text of `gioop_rename`, `gioop_renameat` and `gioop_renameat2`
  unfoldable pub rename_call : ℕ → Task → Generator paths → Result paths
  rename_call opcode t g = elim t.path [
    | none ↦ ok (false, t, g)
    | some path ↦ elim t.path2 [
      | none ↦ ok (false, t, g)
      | some path2 ↦
          let (t, g) = task_vsize paths t g path in
          let g = write_line paths t g opcode (text path ∷ text path2 ∷ number t.status ∷ []) in
          if eqz t.status (pos 0)
          then (let (v2, store) = vsize_by_path paths g.store path2 in
              ok (
                true,
                record t { vsize2 = v2 },
                record g { store = vsize_rename paths dirname store t.vsize v2 path path2 },
              ))
          else ok (true, t, g)
    ]
  ]

  abbrev pub gioop_rename : Task → Generator paths → Result paths
  gioop_rename = rename_call op_rename

  abbrev pub gioop_renameat : Task → Generator paths → Result paths
  gioop_renameat = rename_call op_rename_at

  abbrev pub gioop_renameat2 : Task → Generator paths → Result paths
  gioop_renameat2 = rename_call op_rename_at2

  -- The common text of `gioop_open`, `gioop_openat` and `gioop_creat`, after their guards
  unfoldable pub open_call : ℕ → ℕ → ℕ → ℤ → Task → Generator paths → Bytes → Result paths
  open_call o_directory o_creat opcode flags t g path = do
    (t, g) ← create_vfd_by_realfd paths t g path
    let (t, g) = task_vsize paths t g path
    let g =
        write_line paths t g opcode
          (number t.mapped_fd ∷ text path ∷ number t.mode ∷ number flags ∷ [])
    ok (
      true,
      t,
      if ltz (pos 0) t.fd
          then put_back paths t g (
              vsize_open paths dirname o_directory o_creat g.store t.vsize (task_vfd paths t g) path
                (to_ulong flags))
          else g,
    )

  -- `o_directory` and `o_creat` are the flags of the system's headers, `creat_flags` those that
  -- creat(2) stands for.
  module _ (o_directory o_creat : ℕ) (creat_flags : ℤ) where
    unfoldable pub gioop_open : Task → Generator paths → Result paths
    gioop_open t g = elim t.path [
      | none ↦ ok (false, t, g)
      | some path ↦
          (if not t.has_fd || eqz t.flags (negsuc 0)
            then ok (false, t, g)
            else open_call o_directory o_creat op_open t.flags t g path)
    ]

    unfoldable pub gioop_openat : Task → Generator paths → Result paths
    gioop_openat t g = elim t.path [
      | none ↦ ok (false, t, g)
      | some path ↦
          (if not t.has_fd || eqz t.flags (negsuc 0)
            then ok (false, t, g)
            else open_call o_directory o_creat op_open_at t.flags t g path)
    ]

    unfoldable pub gioop_creat : Task → Generator paths → Result paths
    gioop_creat t g =
        let flags = if eqz t.flags (negsuc 0) then creat_flags else t.flags in
        elim t.path [
          | none ↦ ok (false, t, g)
          | some path ↦
              (if not t.has_fd || eqz t.mode (negsuc 0)
                then ok (false, t, g)
                else open_call o_directory o_creat op_creat flags t g path)
        ]
