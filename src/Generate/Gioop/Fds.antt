-- ===== src/Generate/Gioop/Fds.antt =====
-- The handlers of ioriot/src/generate/gioop.c for calls on a descriptor.
use ioriot.Prelude.{
  ℕ, List, [], ◌∷◌, Bool, true, false, not, ◌||◌, if◌then◌else◌, some, none, ℤ, pos, eqz, ltz, lez,
  ok, fault, ◌>>=◌,
}
use ioriot.Datas.AMap.{amap_unset}
use ioriot.Datas.Key.{to_int, long_key}
use ioriot.Datas.HMap
use ioriot.Datas.RBuffer
use ioriot.Generate.PathMap.{PathMap}
use ioriot.Generate.Vsize.{vsize_close, vsize_read, vsize_write, vsize_seek}
use ioriot.Generate.Task.{Task, number, Generator, process_at, vfd_at}
use ioriot.Generate.Process.{task_vsize, write_line, task_vfd, put_back, put_process}
use ioriot.Generate.Opcodes.{
  op_fstat, op_fstatfs, op_fstatfs64, op_read, op_readahead, op_readdir, op_write, op_writev,
  op_close, op_fsync, op_fdatasync, op_sync, op_syncfs, op_sync_file_range, op_fcntl, op_getdents,
  op_lseek, op_llseek, op_fchmod, op_fchown,
}
use ioriot.Generate.Gioop.{Result, fd_call, nothing}

-- `switch (t->F)`
unfoldable pub listed : ℤ → List ℤ → Bool
listed x [] = false
listed x (y ∷ ys) = eqz x y || listed x ys

module _ (paths : PathMap) where
  unfoldable pub gioop_fstat : Task → Generator paths → Result paths
  gioop_fstat t g = fd_call paths t g op_fstat (number t.status ∷ []) (nothing paths)

  unfoldable pub gioop_fstatfs : Task → Generator paths → Result paths
  gioop_fstatfs t g = fd_call paths t g op_fstatfs (number t.status ∷ []) (nothing paths)

  unfoldable pub gioop_fstatfs64 : Task → Generator paths → Result paths
  gioop_fstatfs64 t g = fd_call paths t g op_fstatfs64 (number t.status ∷ []) (nothing paths)

  unfoldable pub gioop_readahead : Task → Generator paths → Result paths
  gioop_readahead t g =
      fd_call paths t g op_readahead (number t.offset ∷ number t.count ∷ []) (nothing paths)

  unfoldable pub gioop_readdir : Task → Generator paths → Result paths
  gioop_readdir t g = fd_call paths t g op_readdir (number t.status ∷ []) (nothing paths)

  unfoldable pub gioop_getdents : Task → Generator paths → Result paths
  gioop_getdents t g =
      fd_call paths t g op_getdents (number t.count ∷ number t.bytes ∷ []) (nothing paths)

  unfoldable pub gioop_fsync : Task → Generator paths → Result paths
  gioop_fsync t g = fd_call paths t g op_fsync (number t.status ∷ []) (nothing paths)

  unfoldable pub gioop_fdatasync : Task → Generator paths → Result paths
  gioop_fdatasync t g = fd_call paths t g op_fdatasync (number t.status ∷ []) (nothing paths)

  unfoldable pub gioop_syncfs : Task → Generator paths → Result paths
  gioop_syncfs t g = fd_call paths t g op_syncfs (number t.status ∷ []) (nothing paths)

  unfoldable pub gioop_sync_file_range : Task → Generator paths → Result paths
  gioop_sync_file_range t g =
      fd_call paths t g op_sync_file_range (number t.offset ∷ number t.bytes ∷ number t.status ∷ [])
        (nothing paths)

  unfoldable pub gioop_fchmod : Task → Generator paths → Result paths
  gioop_fchmod t g =
      fd_call paths t g op_fchmod (number t.mode ∷ number t.status ∷ []) (nothing paths)

  unfoldable pub gioop_fchown : Task → Generator paths → Result paths
  gioop_fchown t g =
      fd_call paths t g op_fchown (number t.offset ∷ number t.G ∷ number t.status ∷ [])
        (nothing paths)

  unfoldable pub gioop_read : Task → Generator paths → Result paths
  gioop_read t g = fd_call paths t g op_read (number t.bytes ∷ []) (λ store v vfd.
      if ltz (pos 0) t.bytes then vsize_read paths store v vfd (to_int t.bytes) else (store, vfd))

  unfoldable pub gioop_readv : Task → Generator paths → Result paths
  gioop_readv t g = fd_call paths t g op_read (number t.bytes ∷ []) (λ store v vfd.
      if ltz (pos 0) t.bytes then vsize_read paths store v vfd (to_int t.bytes) else (store, vfd))

  unfoldable pub gioop_write : Task → Generator paths → Result paths
  gioop_write t g = fd_call paths t g op_write (number t.bytes ∷ []) (λ store v vfd.
      if ltz (pos 0) t.bytes then vsize_write paths store v vfd (to_int t.bytes) else (store, vfd))

  unfoldable pub gioop_writev : Task → Generator paths → Result paths
  gioop_writev t g = fd_call paths t g op_writev (number t.bytes ∷ []) (λ store v vfd.
      if ltz (pos 0) t.bytes then vsize_write paths store v vfd (to_int t.bytes) else (store, vfd))

  unfoldable pub gioop_lseek : Task → Generator paths → Result paths
  gioop_lseek t g =
      fd_call paths t g op_lseek (number t.offset ∷ number t.whence ∷ number t.bytes ∷ [])
        (λ store v vfd.
          if lez (pos 0) t.bytes then vsize_seek paths store v vfd t.bytes else (store, vfd))

  unfoldable pub gioop_llseek : Task → Generator paths → Result paths
  gioop_llseek t g =
      fd_call paths t g op_llseek (number t.offset ∷ number t.whence ∷ number t.bytes ∷ [])
        (λ store v vfd.
          if lez (pos 0) t.bytes then vsize_seek paths store v vfd t.bytes else (store, vfd))

  unfoldable pub gioop_sync : Task → Generator paths → Result paths
  gioop_sync t g = ok (true, t, write_line paths t g op_sync (number t.status ∷ []))

  unfoldable pub gioop_close : Task → Generator paths → Result paths
  gioop_close t g = if not t.has_fd then ok (false, t, g) else do
    let (t, g) = task_vsize paths t g (task_vfd paths t g).path
    let g = write_line paths t g op_close (number t.mapped_fd ∷ number t.status ∷ [])
    let g =
        if eqz t.status (pos 0)
        then put_back paths t g (vsize_close paths g.store t.vsize (task_vfd paths t g))
        else g
    let gp = process_at g.gprocesses t.gprocess
    (_, fd_map) ← HMap.remove long_key gp.fd_map t.fd
    (_, vfd_map) ← HMap.remove long_key gp.vfd_map t.mapped_fd
    let g = put_process paths t g (record gp { fd_map = fd_map; vfd_map = vfd_map })
    ok (true, t, record g { vfd_buffer = (RBuffer.insert g.vfd_buffer t.vfd).1 })

  -- `gioop_close_all_vfd_cb`
  unfoldable pub close_vfd : Task × Generator paths → ℕ → Task × Generator paths
  close_vfd (t, g) vfd =
      let (t, g) = task_vsize paths (record t { vfd = vfd }) g (vfd_at g.vfds vfd).path in
      let g =
        write_line paths t g op_close
          (number (pos (vfd_at g.vfds vfd).mapped_fd) ∷ number (pos 0) ∷ []) in
      (t, put_back paths t g (vsize_close paths g.store t.vsize (task_vfd paths t g)))

  unfoldable pub close_vfds : Task × Generator paths → List ℕ → Task × Generator paths
  close_vfds s [] = s
  close_vfds s (vfd ∷ rest) = close_vfds (close_vfd s vfd) rest

  unfoldable pub gioop_exit_group : Task → Generator paths → Result paths
  gioop_exit_group t g =
      let vfd_map = (process_at g.gprocesses t.gprocess).vfd_map in
      let (t, g) = close_vfds (t, g) (HMap.run_cb vfd_map.values vfd_map.lists) in
      elim (amap_unset g.pid_map t.pid) [
        | none ↦ fault
        | some (_, pid_map) ↦ ok (true, t, record g { pid_map = pid_map })
      ]

  -- `gioop_fcntl`, from the numbers of F_GETFD, F_GETFL, F_SETFD and F_SETFL
  unfoldable pub gioop_fcntl : List ℤ → Task → Generator paths → Result paths
  gioop_fcntl known t g =
      if listed t.F known
      then fd_call paths t g op_fcntl (number t.F ∷ number t.G ∷ number t.status ∷ [])
          (nothing paths)
      else ok (false, t, g)
