-- ===== src/Generate/Gioop/Keeps/Fds.antt =====
-- The handlers of ioriot/src/generate/gioop.c for calls on a descriptor, and the order of the
-- store.
use ioriot.Generate.Vsize.Paths.{vsize_by_path-IsLookup}
use ioriot.Prelude.{
  ℕ, List, [], ◌∷◌, Bool, true, false, if◌then◌else◌, ℤ, pos, inl, inr, Bool-cases, Option-cases,
  eqz, lez, ltz, Holds, Holds-bind, Holds-any,
}
use ioriot.Datas.AMap.{amap_unset}
use ioriot.Datas.HMap
use ioriot.Datas.Key.{to_int}
use ioriot.Generate.PathMap.{Bytes, PathMap}
use ioriot.Generate.Vsize.{vsize_close, vsize_read, vsize_write, vsize_seek}
use ioriot.Generate.Vsize.Inv.{IsValid}
use ioriot.Generate.Vsize.Steps.{IsStep, stay, follow}
use ioriot.Generate.Vsize.Calls.{calls-IsStep}
use ioriot.Generate.Task.{Task, Generator, process_at, vfd_at}
use ioriot.Generate.Process.{task_vsize, write_line, task_vfd}
use ioriot.Generate.Gioop.{nothing}
use ioriot.Generate.Gioop.Keeps.{
  KeepsResult, IsSafeFd, fd_call-Keeps, task_vsize-IsStep, lookup-IsStep,
}
use ioriot.Generate.Gioop.Keeps.Descriptors.{vsize_close-IsStep}
use ioriot.Generate.Gioop.Keeps.Paths.{KeepsAll}
use ioriot.Generate.Gioop.Fds.{
  listed, close_vfd, close_vfds, gioop_read, gioop_readv, gioop_write, gioop_writev, gioop_lseek,
  gioop_llseek, gioop_sync, gioop_close, gioop_exit_group, gioop_fcntl, gioop_fstat, gioop_fstatfs,
  gioop_fstatfs64, gioop_readahead, gioop_readdir, gioop_getdents, gioop_fsync, gioop_fdatasync,
  gioop_syncfs, gioop_sync_file_range, gioop_fchmod, gioop_fchown,
}

module _ (paths : PathMap) (dirname : Bytes → Bytes) where
  nothing-IsSafe : IsSafeFd paths (nothing paths)
  nothing-IsSafe store v vfd valid inside = stay paths store valid

  pub gioop_fstat-KeepsAll : KeepsAll paths dirname (gioop_fstat paths)
  unfolding gioop_fstat
  gioop_fstat-KeepsAll t g valid = fd_call-Keeps paths t g _ _ _ valid nothing-IsSafe

  pub gioop_fstatfs-KeepsAll : KeepsAll paths dirname (gioop_fstatfs paths)
  unfolding gioop_fstatfs
  gioop_fstatfs-KeepsAll t g valid = fd_call-Keeps paths t g _ _ _ valid nothing-IsSafe

  pub gioop_fstatfs64-KeepsAll : KeepsAll paths dirname (gioop_fstatfs64 paths)
  unfolding gioop_fstatfs64
  gioop_fstatfs64-KeepsAll t g valid = fd_call-Keeps paths t g _ _ _ valid nothing-IsSafe

  pub gioop_readahead-KeepsAll : KeepsAll paths dirname (gioop_readahead paths)
  unfolding gioop_readahead
  gioop_readahead-KeepsAll t g valid = fd_call-Keeps paths t g _ _ _ valid nothing-IsSafe

  pub gioop_readdir-KeepsAll : KeepsAll paths dirname (gioop_readdir paths)
  unfolding gioop_readdir
  gioop_readdir-KeepsAll t g valid = fd_call-Keeps paths t g _ _ _ valid nothing-IsSafe

  pub gioop_getdents-KeepsAll : KeepsAll paths dirname (gioop_getdents paths)
  unfolding gioop_getdents
  gioop_getdents-KeepsAll t g valid = fd_call-Keeps paths t g _ _ _ valid nothing-IsSafe

  pub gioop_fsync-KeepsAll : KeepsAll paths dirname (gioop_fsync paths)
  unfolding gioop_fsync
  gioop_fsync-KeepsAll t g valid = fd_call-Keeps paths t g _ _ _ valid nothing-IsSafe

  pub gioop_fdatasync-KeepsAll : KeepsAll paths dirname (gioop_fdatasync paths)
  unfolding gioop_fdatasync
  gioop_fdatasync-KeepsAll t g valid = fd_call-Keeps paths t g _ _ _ valid nothing-IsSafe

  pub gioop_syncfs-KeepsAll : KeepsAll paths dirname (gioop_syncfs paths)
  unfolding gioop_syncfs
  gioop_syncfs-KeepsAll t g valid = fd_call-Keeps paths t g _ _ _ valid nothing-IsSafe

  pub gioop_sync_file_range-KeepsAll : KeepsAll paths dirname (gioop_sync_file_range paths)
  unfolding gioop_sync_file_range
  gioop_sync_file_range-KeepsAll t g valid = fd_call-Keeps paths t g _ _ _ valid nothing-IsSafe

  pub gioop_fchmod-KeepsAll : KeepsAll paths dirname (gioop_fchmod paths)
  unfolding gioop_fchmod
  gioop_fchmod-KeepsAll t g valid = fd_call-Keeps paths t g _ _ _ valid nothing-IsSafe

  pub gioop_fchown-KeepsAll : KeepsAll paths dirname (gioop_fchown paths)
  unfolding gioop_fchown
  gioop_fchown-KeepsAll t g valid = fd_call-Keeps paths t g _ _ _ valid nothing-IsSafe

  if_read-IsSafe :
      (b : Bool) (bytes : ℤ)
      → IsSafeFd paths
          (λ store v vfd. if b then vsize_read paths store v vfd bytes else (store, vfd))
  if_read-IsSafe true bytes store v vfd valid inside =
      (calls-IsStep paths dirname store v valid inside 0 0 0 v vfd [] [] bytes inside).5
  if_read-IsSafe false bytes store v vfd valid inside = stay paths store valid

  if_write-IsSafe :
      (b : Bool) (bytes : ℤ)
      → IsSafeFd paths
          (λ store v vfd. if b then vsize_write paths store v vfd bytes else (store, vfd))
  if_write-IsSafe true bytes store v vfd valid inside =
      (calls-IsStep paths dirname store v valid inside 0 0 0 v vfd [] [] bytes inside).6
  if_write-IsSafe false bytes store v vfd valid inside = stay paths store valid

  if_seek-IsSafe :
      (b : Bool) (bytes : ℤ)
      → IsSafeFd paths
          (λ store v vfd. if b then vsize_seek paths store v vfd bytes else (store, vfd))
  if_seek-IsSafe true bytes store v vfd valid inside =
      (calls-IsStep paths dirname store v valid inside 0 0 0 v vfd [] [] bytes inside).7
  if_seek-IsSafe false bytes store v vfd valid inside = stay paths store valid

  pub gioop_read-KeepsAll : KeepsAll paths dirname (gioop_read paths)
  unfolding gioop_read
  gioop_read-KeepsAll t g valid =
      fd_call-Keeps paths t g _ _ _ valid (if_read-IsSafe (ltz (pos 0) t.bytes) (to_int t.bytes))

  pub gioop_readv-KeepsAll : KeepsAll paths dirname (gioop_readv paths)
  unfolding gioop_readv
  gioop_readv-KeepsAll t g valid =
      fd_call-Keeps paths t g _ _ _ valid (if_read-IsSafe (ltz (pos 0) t.bytes) (to_int t.bytes))

  pub gioop_write-KeepsAll : KeepsAll paths dirname (gioop_write paths)
  unfolding gioop_write
  gioop_write-KeepsAll t g valid =
      fd_call-Keeps paths t g _ _ _ valid (if_write-IsSafe (ltz (pos 0) t.bytes) (to_int t.bytes))

  pub gioop_writev-KeepsAll : KeepsAll paths dirname (gioop_writev paths)
  unfolding gioop_writev
  gioop_writev-KeepsAll t g valid =
      fd_call-Keeps paths t g _ _ _ valid (if_write-IsSafe (ltz (pos 0) t.bytes) (to_int t.bytes))

  pub gioop_lseek-KeepsAll : KeepsAll paths dirname (gioop_lseek paths)
  unfolding gioop_lseek
  gioop_lseek-KeepsAll t g valid =
      fd_call-Keeps paths t g _ _ _ valid (if_seek-IsSafe (lez (pos 0) t.bytes) t.bytes)

  pub gioop_llseek-KeepsAll : KeepsAll paths dirname (gioop_llseek paths)
  unfolding gioop_llseek
  gioop_llseek-KeepsAll t g valid =
      fd_call-Keeps paths t g _ _ _ valid (if_seek-IsSafe (lez (pos 0) t.bytes) t.bytes)

  pub gioop_sync-KeepsAll : KeepsAll paths dirname (gioop_sync paths)
  unfolding gioop_sync write_line
  gioop_sync-KeepsAll t g valid = stay paths g.store valid

  pub gioop_fcntl-KeepsAll : (known : List ℤ) → KeepsAll paths dirname (gioop_fcntl paths known)
  unfolding gioop_fcntl
  gioop_fcntl-KeepsAll known t g valid = elim (Bool-cases (listed t.F known)) [
    | inl e ↦ rw e (fd_call-Keeps paths t g _ _ _ valid nothing-IsSafe)
    | inr e ↦ rw e (stay paths g.store valid)
  ]

  close_vfd-IsStep :
      (t : Task) (g : Generator paths) (vfd : ℕ)
      → IsValid paths g.store
      → IsStep paths g.store (close_vfd paths (t, g) vfd).1.store
  unfolding close_vfd write_line task_vsize
  close_vfd-IsStep t g vfd valid =
      task_vsize-IsStep paths (record t { vfd = vfd }) g (vfd_at g.vfds vfd).path
        (λ store v. (vsize_close paths store v (vfd_at g.vfds vfd)).0) valid
        (λ store v ok inside. vsize_close-IsStep paths store v (vfd_at g.vfds vfd) ok inside)

  close_vfds-IsStep :
      (t : Task) (g : Generator paths) (vfds : List ℕ)
      → IsValid paths g.store
      → IsStep paths g.store (close_vfds paths (t, g) vfds).1.store
  unfolding close_vfds
  close_vfds-IsStep t g [] valid = stay paths g.store valid
  close_vfds-IsStep t g (vfd ∷ vfds) valid =
      let step = close_vfd-IsStep t g vfd valid in
      let (t1, g1) = close_vfd paths (t, g) vfd in
      follow paths step (close_vfds-IsStep t1 g1 vfds step.valid)

  pub gioop_exit_group-KeepsAll : KeepsAll paths dirname (gioop_exit_group paths)
  unfolding gioop_exit_group
  gioop_exit_group-KeepsAll t g valid =
      let vfd_map = (process_at g.gprocesses t.gprocess).vfd_map in
      let step = close_vfds-IsStep t g (HMap.run_cb vfd_map.values vfd_map.lists) valid in
      let closed = close_vfds paths (t, g) (HMap.run_cb vfd_map.values vfd_map.lists) in
      elim (Option-cases (amap_unset closed.1.pid_map closed.0.pid)) [
        | inl e ↦ rw (e, Holds) tt
        | inr (r, e) ↦ rw (e, Holds) step
      ]

  pub gioop_close-KeepsAll : KeepsAll paths dirname (gioop_close paths)
  unfolding gioop_close task_vsize write_line
  gioop_close-KeepsAll t g valid =
      let path = (task_vfd paths t g).path in
      elim (Bool-cases t.has_fd) [
        | inl e ↦ elim (Bool-cases (eqz t.status (pos 0))) [
          | inl done ↦
              rw (e, done)
                (Holds-bind (λ _. Unit) (KeepsResult paths g.store) _ _ (Holds-any _)
                  (λ r _.
                    Holds-bind (λ _. Unit) (KeepsResult paths g.store) _ _ (Holds-any _)
                      (λ r2 _.
                        task_vsize-IsStep paths t g path
                          (λ store v. (vsize_close paths store v (task_vfd paths t g)).0) valid
                          (λ store v ok inside.
                            vsize_close-IsStep paths store v (task_vfd paths t g) ok inside))))
          | inr failed ↦
              rw (e, failed)
                (Holds-bind (λ _. Unit) (KeepsResult paths g.store) _ _ (Holds-any _)
                  (λ r _.
                    Holds-bind (λ _. Unit) (KeepsResult paths g.store) _ _ (Holds-any _)
                      (λ r2 _.
                        lookup-IsStep paths (vsize_by_path-IsLookup paths g.store path valid))))
        ]
        | inr e ↦ rw e (stay paths g.store valid)
      ]
