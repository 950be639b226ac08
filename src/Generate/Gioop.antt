-- ===== src/Generate/Gioop.antt =====
-- The handlers of ioriot/src/generate/gioop.c, one for each kind of system call. A handler returns
-- whether it succeeded, with the task and the generator after it.
pub mod Fds
pub mod Paths
pub mod Table
pub mod Keeps
use ioriot.Prelude.{
  ℕ, ◌-◌, List, [], ◌∷◌, Bool, true, false, not, ◌||◌, ◌==◌, if◌then◌else◌, Option, some, none, ℤ,
  pos, negsuc, eqz, ltz, lez, get_or, set, Outcome, ok, fault, ◌>>=◌,
}
use ioriot.Datas.AMap.{amap_unset}
use ioriot.Datas.Key.{long_key}
use ioriot.Datas.HMap
use ioriot.Datas.RBuffer
use ioriot.Generate.PathMap.{Bytes, PathMap}
use ioriot.Generate.State.{Store, vsize_by_path}
use ioriot.Generate.Vsize.{
  Vfd, to_ulong, vsize_stat, vsize_mkdir, vsize_rmdir, vsize_unlink, vsize_rename, vsize_symlink,
  vsize_open, vsize_close, vsize_read, vsize_write, vsize_seek,
}
use ioriot.Generate.Task.{Task, Field, number, text, Generator, process_at, vfd_at}
use ioriot.Generate.Process.{
  task_vsize, write_line, task_vfd, put_back, put_process, create_vfd_by_realfd,
}
use ioriot.Generate.Opcodes.{
  op_fstat, op_fstat_at, op_fstatfs, op_fstatfs64, op_lstat, op_stat, op_statfs, op_statfs64,
  op_read, op_readv, op_readahead, op_readdir, op_readlink, op_readlink_at, op_write, op_writev,
  op_open, op_open_at, op_creat, op_mkdir, op_mkdir_at, op_rename, op_rename_at, op_rename_at2,
  op_close, op_unlink, op_unlink_at, op_rmdir, op_fsync, op_fdatasync, op_sync, op_syncfs,
  op_sync_file_range, op_fcntl, op_getdents, op_lseek, op_llseek, op_chmod, op_fchmod, op_chown,
  op_lchown, op_fchown,
}

module _ (paths : PathMap) where
  abbrev pub Result : Type 0
  Result = Outcome (Bool × Task × Generator paths)

  -- A call on a path: it looks the object up, writes the line that starts with the path, and has
  -- the given effect.
  unfoldable pub path_call :
      Task → Generator paths → ℕ → List Field → (Store paths → ℕ → Bytes → Store paths) → Result
  path_call t g opcode fields effect = elim t.path [
    | none ↦ ok (false, t, g)
    | some path ↦
        let (t, g) = task_vsize paths t g path in
        let g = write_line paths t g opcode (text path ∷ fields) in
        ok (true, t, record g { store = effect g.store t.vsize path })
  ]

  -- A call on a descriptor: it looks the object of the descriptor's path up, writes the line that
  -- starts with the mapped descriptor, and has the given effect.
  unfoldable pub fd_call :
      Task → Generator paths → ℕ → List Field → (Store paths → ℕ → Vfd → Store paths × Vfd) → Result
  fd_call t g opcode fields effect =
      if not t.has_fd
      then ok (false, t, g)
      else (let (t, g) = task_vsize paths t g (task_vfd paths t g).path in
          let g = write_line paths t g opcode (number t.mapped_fd ∷ fields) in
          ok (true, t, put_back paths t g (effect g.store t.vsize (task_vfd paths t g))))

  abbrev pub nothing : Store paths → ℕ → Vfd → Store paths × Vfd
  nothing store v vfd = (store, vfd)

  -- Has an effect on a path only if the call succeeded.
  abbrev pub if_ok :
      Task → (Store paths → ℕ → Bytes → Store paths) → Store paths → ℕ → Bytes → Store paths
  if_ok t effect store v path = if eqz t.status (pos 0) then effect store v path else store
