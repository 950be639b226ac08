-- ===== src/Replay/Table.antt =====
-- The other handlers of ioriot/src/replay/rioop.c, and the table by which `rioop_run` finds them.
use ioriot.Prelude.{
  ℕ, ◌-◌, List, [], ◌∷◌, true, ◌||◌, set, if◌then◌else◌, some, none, ℤ, pos, eqz, Outcome, ok, exit,
  fault, ◌>>=◌,
}
use ioriot.Text.Numbers.{strtol, atoi}
use ioriot.Datas.AMap.{amap_unset}
use ioriot.Generate.Opcodes.{
  op_fstat, op_fstat_at, op_fstatfs, op_fstatfs64, op_lstat, op_stat, op_statfs, op_statfs64,
  op_read, op_readv, op_readahead, op_readdir, op_readlink, op_readlink_at, op_write, op_writev,
  op_open, op_open_at, op_creat, op_mkdir, op_mkdir_at, op_rename, op_rename_at, op_rename_at2,
  op_close, op_unlink, op_unlink_at, op_rmdir, op_fsync, op_fdatasync, op_sync, op_syncfs,
  op_sync_file_range, op_fcntl, op_getdents, op_lseek, op_llseek, op_chmod, op_fchmod, op_chown,
  op_lchown, op_fchown, op_chown16, op_lcown16, op_fchown16, op_fchownat, op_meta_exit_group,
  op_meta_timeline,
}
use ioriot.Replay.Files.{
  Sys, sys_close, sys_closedir, sys_fdopendir, sys_readdir, sys_mkdir, sys_unlink, sys_rmdir,
  sys_lseek, sys_fsync, sys_fdatasync, sys_syncfs, sys_sync_file_range, sys_fcntl, sys_chmod,
  sys_fchmod, sys_chown, sys_fchown, sys_lchown, Call, on_path, on_fd, closed, synced, RVfd, Files,
  System,
}
use ioriot.Replay.Ioop.{
  Toks, Handler, tok, emit, vfd_of, with_vfd, path_call, fd_call, bytes_call, rioop_stat,
  rioop_fstat, rioop_fstatfs, rioop_rename, rioop_read, rioop_readahead, rioop_readlink,
  rioop_readlinkat, rioop_statfs, rioop_write, rioop_open_default, rioop_open_creat,
}

-- What is closed: the stream, if there is one
abbrev pub close_call : RVfd → Call
close_call vfd = closed (if vfd.dirfd then sys_closedir else sys_close) vfd.fd

unfoldable pub rioop_close : Handler
rioop_close lineno toks s = do
  fd ← tok toks 3
  with_vfd (strtol fd) s (λ p. elim (amap_unset s.fds (strtol fd)) [
    | none ↦ fault
    | some (old, fds) ↦ ok (emit (close_call (vfd_of s p)) (record s { fds = fds }))
  ])

-- `_rioop_get_dir_stream` and the call of readdir(3)
abbrev pub read_dir : System → ℕ → Files → Files
read_dir sys p s =
    let vfd = vfd_of s p in
    if vfd.dirfd
    then emit (on_fd sys_readdir vfd.fd []) s
    else (let has = sys.has_stream s.calls vfd.fd in
        let s = emit (on_fd sys_fdopendir vfd.fd []) s in
        if has
        then emit (on_fd sys_readdir vfd.fd [])
            (record s { vfds = set s.vfds (p - 1) (record vfd { dirfd = true }) })
        else s)

unfoldable pub rioop_getdents : System → Handler
rioop_getdents sys lineno toks s = do
  fd ← tok toks 3
  with_vfd (strtol fd) s (λ p. ok (read_dir sys p s))

unfoldable pub rioop_readdir : System → Handler
rioop_readdir = rioop_getdents

unfoldable pub rioop_mkdir : Handler
rioop_mkdir = path_call sys_mkdir

unfoldable pub rioop_unlink : Handler
rioop_unlink = path_call sys_unlink

unfoldable pub rioop_rmdir : Handler
rioop_rmdir = path_call sys_rmdir

unfoldable pub rioop_lseek : Handler
rioop_lseek = bytes_call sys_lseek 6 []

unfoldable pub rioop_fsync : Handler
rioop_fsync = fd_call sys_fsync

unfoldable pub rioop_fdatasync : Handler
rioop_fdatasync = fd_call sys_fdatasync

unfoldable pub rioop_sync : Handler
rioop_sync lineno toks s = ok (emit synced s)

unfoldable pub rioop_syncfs : Handler
rioop_syncfs = fd_call sys_syncfs

unfoldable pub rioop_sync_file_range : Handler
rioop_sync_file_range lineno toks s = do
  offset ← tok toks 4
  bytes_call sys_sync_file_range 5 (strtol offset ∷ []) lineno toks s

unfoldable pub rioop_fcntl : System → Handler
rioop_fcntl sys lineno toks s = do
  fd ← tok toks 3
  cmd ← tok toks 4
  arg ← tok toks 5
  with_vfd (strtol fd) s (λ p.
      if eqz (atoi cmd) sys.f_getfd || eqz (atoi cmd) sys.f_getfl
      then ok (emit (on_fd sys_fcntl (vfd_of s p).fd (atoi cmd ∷ [])) s)
      else if eqz (atoi cmd) sys.f_setfd || eqz (atoi cmd) sys.f_setfl
      then ok (emit (on_fd sys_fcntl (vfd_of s p).fd (atoi cmd ∷ atoi arg ∷ [])) s)
      else ok s)

unfoldable pub rioop_chmod : Handler
rioop_chmod = path_call sys_chmod

unfoldable pub rioop_fchmod : Handler
rioop_fchmod = fd_call sys_fchmod

-- The calls that give a file to the user of the replay, if that is known
abbrev pub chown_path : Sys → System → Handler
chown_path name sys lineno toks s = do
  path ← tok toks 3
  elim sys.user [ none ↦ ok s | some uid ↦ ok (emit (on_path name path (uid ∷ [])) s) ]

unfoldable pub rioop_chown : System → Handler
rioop_chown = chown_path sys_chown

unfoldable pub rioop_fchown : System → Handler
rioop_fchown sys lineno toks s = do
  fd ← tok toks 3
  with_vfd (strtol fd) s (λ p. elim sys.user [
    | none ↦ ok s
    | some uid ↦ ok (emit (on_fd sys_fchown (vfd_of s p).fd (uid ∷ [])) s)
  ])

unfoldable pub rioop_lchown : System → Handler
rioop_lchown = chown_path sys_lchown

unfoldable pub rioop_noop : Handler
rioop_noop lineno toks s = ok s

-- `_RIOOP_HANDLERS`
abbrev pub handlers : System → List (ℕ × Handler)
handlers sys =
    (op_fstat, rioop_fstat)
    ∷ (op_fstatfs, rioop_fstatfs)
    ∷ (op_fstatfs64, rioop_fstatfs)
    ∷ (op_fstat_at, rioop_stat)
    ∷ (op_lstat, rioop_stat)
    ∷ (op_stat, rioop_stat)
    ∷ (op_statfs, rioop_statfs)
    ∷ (op_statfs64, rioop_statfs)
    ∷ (op_read, rioop_read)
    ∷ (op_readv, rioop_read)
    ∷ (op_readahead, rioop_readahead)
    ∷ (op_readlink, rioop_readlink)
    ∷ (op_readlink_at, rioop_readlinkat)
    ∷ (op_write, rioop_write)
    ∷ (op_writev, rioop_write)
    ∷ (op_open, rioop_open_default sys)
    ∷ (op_open_at, rioop_open_default sys)
    ∷ (op_creat, rioop_open_creat sys)
    ∷ (op_mkdir, rioop_mkdir)
    ∷ (op_mkdir_at, rioop_mkdir)
    ∷ (op_rename, rioop_rename)
    ∷ (op_rename_at, rioop_rename)
    ∷ (op_rename_at2, rioop_rename)
    ∷ (op_close, rioop_close)
    ∷ (op_unlink, rioop_unlink)
    ∷ (op_unlink_at, rioop_unlink)
    ∷ (op_rmdir, rioop_rmdir)
    ∷ (op_fsync, rioop_fsync)
    ∷ (op_fdatasync, rioop_fdatasync)
    ∷ (op_sync, rioop_sync)
    ∷ (op_syncfs, rioop_syncfs)
    ∷ (op_sync_file_range, rioop_sync_file_range)
    ∷ (op_fcntl, rioop_fcntl sys)
    ∷ (op_getdents, rioop_getdents sys)
    ∷ (op_readdir, rioop_readdir sys)
    ∷ (op_lseek, rioop_lseek)
    ∷ (op_llseek, rioop_lseek)
    ∷ (op_chmod, rioop_chmod)
    ∷ (op_fchmod, rioop_fchmod)
    ∷ (op_chown, rioop_chown sys)
    ∷ (op_chown16, rioop_chown sys)
    ∷ (op_fchown, rioop_fchown sys)
    ∷ (op_fchown16, rioop_fchown sys)
    ∷ (op_fchownat, rioop_fchown sys)
    ∷ (op_lchown, rioop_lchown sys)
    ∷ (op_lcown16, rioop_lchown sys)
    ∷ (op_meta_exit_group, rioop_noop)
    ∷ (op_meta_timeline, rioop_noop)
    ∷ []

-- `_rioop_find_handler`, and what `rioop_run` does with the handler
abbrev pub run_in : List (ℕ × Handler) → ℤ → Handler
run_in [] op lineno toks s = exit
run_in ((number, handler) ∷ rest) op lineno toks s =
    if eqz (pos number) op then handler lineno toks s else run_in rest op lineno toks s

unfoldable pub rioop_run : System → Handler
rioop_run sys lineno toks s = do op ← tok toks 2; run_in (handlers sys) (atoi op) lineno toks s

-- The tasks of a worker's threads, in the order that they are run in
unfoldable pub run_all : System → List (ℕ × Toks) → Files → Outcome Files
run_all sys [] s = ok s
run_all sys ((lineno, toks) ∷ tasks) s = do s ← rioop_run sys lineno toks s; run_all sys tasks s
