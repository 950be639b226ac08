-- ===== src/Generate/Gioop/Table.antt =====
-- The dispatch of ioriot/src/generate/gioop.c: the tables of handlers, and the run of a task.
use ioriot.Prelude.{
  ℕ, List, [], ◌∷◌, true, false, not, if◌then◌else◌, Option, some, none, ℤ, pos, eqz, Outcome, ok,
  exit, fault, ◌>>=◌,
}
use ioriot.Datas.Key.{str_same}
use ioriot.Generate.PathMap.{Bytes, PathMap}
use ioriot.Generate.Task.{Task, Generator}
use ioriot.Generate.Process.{gprocess_by_realpid, vfd_by_realfd}
use ioriot.Generate.Gioop.{Result}
use ioriot.Generate.Gioop.Fds.{
  gioop_close, gioop_exit_group, gioop_fchmod, gioop_fchown, gioop_fcntl, gioop_fdatasync,
  gioop_fstat, gioop_fstatfs, gioop_fstatfs64, gioop_fsync, gioop_getdents, gioop_llseek,
  gioop_lseek, gioop_read, gioop_readahead, gioop_readdir, gioop_readv, gioop_sync,
  gioop_sync_file_range, gioop_syncfs, gioop_write, gioop_writev,
}
use ioriot.Generate.Gioop.Paths.{
  gioop_chmod, gioop_chown, gioop_creat, gioop_fstatat, gioop_lchown, gioop_lstat, gioop_mkdir,
  gioop_mkdirat, gioop_open, gioop_openat, gioop_readlink, gioop_readlinkat, gioop_rename,
  gioop_renameat, gioop_renameat2, gioop_rmdir, gioop_stat, gioop_statfs, gioop_statfs64,
  gioop_unlink, gioop_unlinkat,
}

-- `_gioop_find_handler`
unfoldable pub find_handler {ℓ} : {A : Type ℓ} → List (Bytes × A) → Option Bytes → Option A
find_handler entries none = none
find_handler [] (some op) = none
find_handler ((name, handler) ∷ entries) (some op) =
    if str_same name op then some handler else find_handler entries (some op)

module _ (paths : PathMap) where
  abbrev pub Handler : Type 0
  Handler = Task → Generator paths → Result paths

  -- `_gioop_ignore`
  abbrev pub ignore : Handler
  ignore t g = ok (true, t, g)

  -- The tail of `gioop_run`: `t->ret` is SUCCESS, which is 0, or ERROR, which is 2.
  unfoldable pub finish : Result paths → Outcome (Task × Generator paths)
  finish (ok (success, t, g)) = ok (record t { ret = if success then pos 0 else pos 2 }, g)
  finish exit = exit
  finish fault = fault

  -- The last part of `gioop_run`: the calls that open no file, from their table
  unfoldable pub run_found :
      List (Bytes × Handler) → Task → Generator paths → Outcome (Task × Generator paths)
  run_found others t g = elim (find_handler others t.op) [
    | some handler ↦ finish (handler t g)
    | none ↦ finish (ok (false, t, g))
  ]

  -- The part of `gioop_run` after the process is known
  unfoldable pub run_opening :
      List (Bytes × Handler)
      → List (Bytes × Handler)
      → Task
      → Generator paths
      → Outcome (Task × Generator paths)
  run_opening opening others t g = elim (find_handler opening t.op) [
    | some handler ↦ finish (handler t g)
    | none ↦ (do
      (found, t) ← if t.has_fd then vfd_by_realfd paths t g else ok (true, t)
      if found then run_found others t g else finish (ok (false, t, g)))
  ]

  -- `gioop_run`, from its two tables
  unfoldable pub run_with :
      List (Bytes × Handler)
      → List (Bytes × Handler)
      → Task
      → Generator paths
      → Outcome (Task × Generator paths)
  run_with opening others t g =
      if not (eqz t.ret (pos 0))
      then ok (t, g)
      else do (t, g) ← gprocess_by_realpid paths t g; run_opening opening others t g

  -- `fcntl_known` are the four commands of fcntl(2) that are replayed; the other parameters are
  -- those of the handlers.
  module _ (dirname : Bytes → Bytes) (o_directory o_creat : ℕ) (creat_flags : ℤ)
      (fcntl_known : List ℤ) where
    -- `_GIOOP_PREOPEN`
    unfoldable pub preopen : List (Bytes × Handler)
    preopen =
        (111 ∷ 112 ∷ 101 ∷ 110 ∷ [], gioop_open paths dirname o_directory o_creat creat_flags)
        ∷ (
          111 ∷ 112 ∷ 101 ∷ 110 ∷ 97 ∷ 116 ∷ [],
          gioop_openat paths dirname o_directory o_creat creat_flags,
        )
        ∷ (
          99 ∷ 114 ∷ 101 ∷ 97 ∷ 116 ∷ [],
          gioop_creat paths dirname o_directory o_creat creat_flags,
        )
        ∷ []

    -- `_GIOOP_DISPATCH`
    unfoldable pub dispatch : List (Bytes × Handler)
    dispatch =
        (99 ∷ 108 ∷ 111 ∷ 115 ∷ 101 ∷ [], gioop_close paths)
        ∷ (115 ∷ 116 ∷ 97 ∷ 116 ∷ [], gioop_stat paths dirname)
        ∷ (115 ∷ 116 ∷ 97 ∷ 116 ∷ 102 ∷ 115 ∷ [], gioop_statfs paths dirname)
        ∷ (115 ∷ 116 ∷ 97 ∷ 116 ∷ 102 ∷ 115 ∷ 54 ∷ 52 ∷ [], gioop_statfs64 paths dirname)
        ∷ (102 ∷ 115 ∷ 116 ∷ 97 ∷ 116 ∷ [], gioop_fstat paths)
        ∷ (102 ∷ 115 ∷ 116 ∷ 97 ∷ 116 ∷ 97 ∷ 116 ∷ [], gioop_fstatat paths dirname)
        ∷ (102 ∷ 115 ∷ 116 ∷ 97 ∷ 116 ∷ 102 ∷ 115 ∷ [], gioop_fstatfs paths)
        ∷ (102 ∷ 115 ∷ 116 ∷ 97 ∷ 116 ∷ 102 ∷ 115 ∷ 54 ∷ 52 ∷ [], gioop_fstatfs64 paths)
        ∷ (114 ∷ 101 ∷ 110 ∷ 97 ∷ 109 ∷ 101 ∷ [], gioop_rename paths dirname)
        ∷ (114 ∷ 101 ∷ 110 ∷ 97 ∷ 109 ∷ 101 ∷ 97 ∷ 116 ∷ [], gioop_renameat paths dirname)
        ∷ (114 ∷ 101 ∷ 110 ∷ 97 ∷ 109 ∷ 101 ∷ 97 ∷ 116 ∷ 50 ∷ [], gioop_renameat2 paths dirname)
        ∷ (114 ∷ 101 ∷ 97 ∷ 100 ∷ [], gioop_read paths)
        ∷ (114 ∷ 101 ∷ 97 ∷ 100 ∷ 118 ∷ [], gioop_readv paths)
        ∷ (114 ∷ 101 ∷ 97 ∷ 100 ∷ 97 ∷ 104 ∷ 101 ∷ 97 ∷ 100 ∷ [], gioop_readahead paths)
        ∷ (114 ∷ 101 ∷ 97 ∷ 100 ∷ 100 ∷ 105 ∷ 114 ∷ [], gioop_readdir paths)
        ∷ (114 ∷ 101 ∷ 97 ∷ 100 ∷ 108 ∷ 105 ∷ 110 ∷ 107 ∷ [], gioop_readlink paths dirname)
        ∷ (
          114 ∷ 101 ∷ 97 ∷ 100 ∷ 108 ∷ 105 ∷ 110 ∷ 107 ∷ 97 ∷ 116 ∷ [],
          gioop_readlinkat paths dirname,
        )
        ∷ (119 ∷ 114 ∷ 105 ∷ 116 ∷ 101 ∷ [], gioop_write paths)
        ∷ (119 ∷ 114 ∷ 105 ∷ 116 ∷ 101 ∷ 118 ∷ [], gioop_writev paths)
        ∷ (108 ∷ 115 ∷ 101 ∷ 101 ∷ 107 ∷ [], gioop_lseek paths)
        ∷ (108 ∷ 108 ∷ 115 ∷ 101 ∷ 101 ∷ 107 ∷ [], gioop_llseek paths)
        ∷ (103 ∷ 101 ∷ 116 ∷ 100 ∷ 101 ∷ 110 ∷ 116 ∷ 115 ∷ [], gioop_getdents paths)
        ∷ (109 ∷ 107 ∷ 100 ∷ 105 ∷ 114 ∷ [], gioop_mkdir paths dirname)
        ∷ (114 ∷ 109 ∷ 100 ∷ 105 ∷ 114 ∷ [], gioop_rmdir paths dirname)
        ∷ (109 ∷ 107 ∷ 100 ∷ 105 ∷ 114 ∷ 97 ∷ 116 ∷ [], gioop_mkdirat paths dirname)
        ∷ (117 ∷ 110 ∷ 108 ∷ 105 ∷ 110 ∷ 107 ∷ [], gioop_unlink paths dirname)
        ∷ (117 ∷ 110 ∷ 108 ∷ 105 ∷ 110 ∷ 107 ∷ 97 ∷ 116 ∷ [], gioop_unlinkat paths dirname)
        ∷ (108 ∷ 115 ∷ 116 ∷ 97 ∷ 116 ∷ [], gioop_lstat paths dirname)
        ∷ (102 ∷ 115 ∷ 121 ∷ 110 ∷ 99 ∷ [], gioop_fsync paths)
        ∷ (102 ∷ 100 ∷ 97 ∷ 116 ∷ 97 ∷ 115 ∷ 121 ∷ 110 ∷ 99 ∷ [], gioop_fdatasync paths)
        ∷ (115 ∷ 121 ∷ 110 ∷ 99 ∷ [], gioop_sync paths)
        ∷ (115 ∷ 121 ∷ 110 ∷ 99 ∷ 102 ∷ 115 ∷ [], gioop_syncfs paths)
        ∷ (
          115 ∷ 121 ∷ 110 ∷ 99 ∷ 95 ∷ 102 ∷ 105 ∷ 108 ∷ 101 ∷ 95 ∷ 114 ∷ 97 ∷ 110 ∷ 103 ∷ 101 ∷ [],
          gioop_sync_file_range paths,
        )
        ∷ (102 ∷ 99 ∷ 110 ∷ 116 ∷ 108 ∷ [], gioop_fcntl paths fcntl_known)
        ∷ (109 ∷ 109 ∷ 97 ∷ 112 ∷ 50 ∷ [], ignore)
        ∷ (109 ∷ 117 ∷ 110 ∷ 109 ∷ 97 ∷ 112 ∷ [], ignore)
        ∷ (109 ∷ 114 ∷ 101 ∷ 109 ∷ 97 ∷ 112 ∷ [], ignore)
        ∷ (109 ∷ 115 ∷ 121 ∷ 110 ∷ 99 ∷ [], ignore)
        ∷ (99 ∷ 104 ∷ 109 ∷ 111 ∷ 100 ∷ [], gioop_chmod paths dirname)
        ∷ (102 ∷ 99 ∷ 104 ∷ 109 ∷ 111 ∷ 100 ∷ 97 ∷ 116 ∷ [], gioop_chmod paths dirname)
        ∷ (102 ∷ 99 ∷ 104 ∷ 109 ∷ 111 ∷ 100 ∷ [], gioop_fchmod paths)
        ∷ (99 ∷ 104 ∷ 111 ∷ 119 ∷ 110 ∷ [], gioop_chown paths dirname)
        ∷ (99 ∷ 104 ∷ 111 ∷ 119 ∷ 110 ∷ 49 ∷ 54 ∷ [], gioop_chown paths dirname)
        ∷ (108 ∷ 99 ∷ 104 ∷ 111 ∷ 119 ∷ 110 ∷ [], gioop_lchown paths dirname)
        ∷ (108 ∷ 99 ∷ 104 ∷ 111 ∷ 119 ∷ 110 ∷ 49 ∷ 54 ∷ [], gioop_lchown paths dirname)
        ∷ (102 ∷ 99 ∷ 104 ∷ 111 ∷ 119 ∷ 110 ∷ [], gioop_fchown paths)
        ∷ (102 ∷ 99 ∷ 104 ∷ 111 ∷ 119 ∷ 110 ∷ 49 ∷ 54 ∷ [], gioop_fchown paths)
        ∷ (102 ∷ 99 ∷ 104 ∷ 111 ∷ 119 ∷ 110 ∷ 97 ∷ 116 ∷ [], gioop_chown paths dirname)
        ∷ (101 ∷ 120 ∷ 105 ∷ 116 ∷ 95 ∷ 103 ∷ 114 ∷ 111 ∷ 117 ∷ 112 ∷ [], gioop_exit_group paths)
        ∷ []

    -- `gioop_run`
    unfoldable pub gioop_run : Task → Generator paths → Outcome (Task × Generator paths)
    gioop_run t g = run_with preopen dispatch t g
