-- ===== src/Generate/Gioop/Keeps/Table.antt =====
-- The run of a task, `gioop_run` of ioriot/src/generate/gioop.c, and the order of the store.
use ioriot.Prelude.{
  ℕ, ◌≡◌, List, [], ◌∷◌, not, ◌==◌, Option, some, none, ℤ, pos, arith, inl, inr, Bool-cases,
  Option-cases, ok, exit, fault, eqz, Holds, Holds-bind, Holds-any, subst, length, ◌+◌,
}
use ioriot.Datas.AMap.{amap_get, amap_set}
use ioriot.Datas.Key.{str_same}
use ioriot.Generate.Opcodes.{op_readlink, op_readlink_at, op_rename, op_rename_at, op_rename_at2}
use ioriot.Generate.PathMap.{Bytes, PathMap}
use ioriot.Generate.State.{Store}
use ioriot.Generate.Vsize.Inv.{IsValid}
use ioriot.Generate.Vsize.Steps.{stay}
use ioriot.Generate.Task.{Task, Generator}
use ioriot.Generate.Process.{gprocess_by_realpid}
use ioriot.Generate.Gioop.{Result}
use ioriot.Generate.Gioop.Table.{
  Handler, find_handler, ignore, finish, run_with, run_found, run_opening, preopen, dispatch,
  gioop_run,
}
use ioriot.Generate.Gioop.Keeps.{Keeps, KeepsResult}
use ioriot.Generate.Gioop.Keeps.Descriptors.{Holds-follow}
use ioriot.Generate.Gioop.Keeps.Paths.{
  KeepsAll, link_call-KeepsAll, rename_call-KeepsAll, gioop_chmod-KeepsAll, gioop_chown-KeepsAll,
  gioop_fstatat-KeepsAll, gioop_lchown-KeepsAll, gioop_lstat-KeepsAll, gioop_mkdir-KeepsAll,
  gioop_mkdirat-KeepsAll, gioop_rmdir-KeepsAll, gioop_stat-KeepsAll, gioop_statfs-KeepsAll,
  gioop_statfs64-KeepsAll, gioop_unlink-KeepsAll, gioop_unlinkat-KeepsAll,
}
use ioriot.Generate.Gioop.Keeps.Opens.{
  gioop_creat-KeepsAll, gioop_open-KeepsAll, gioop_openat-KeepsAll,
}
use ioriot.Generate.Gioop.Keeps.Fds.{
  gioop_close-KeepsAll, gioop_exit_group-KeepsAll, gioop_fchmod-KeepsAll, gioop_fchown-KeepsAll,
  gioop_fcntl-KeepsAll, gioop_fdatasync-KeepsAll, gioop_fstat-KeepsAll, gioop_fstatfs-KeepsAll,
  gioop_fstatfs64-KeepsAll, gioop_fsync-KeepsAll, gioop_getdents-KeepsAll, gioop_llseek-KeepsAll,
  gioop_lseek-KeepsAll, gioop_read-KeepsAll, gioop_readahead-KeepsAll, gioop_readdir-KeepsAll,
  gioop_readv-KeepsAll, gioop_sync-KeepsAll, gioop_sync_file_range-KeepsAll, gioop_syncfs-KeepsAll,
  gioop_write-KeepsAll, gioop_writev-KeepsAll,
}

-- A pair, for long tables
infixr 5 ◌⋆◌
abbrev ◌⋆◌ : {A B : Type 0} → A → B → A × B
a ⋆ b = (a, b)

module _ (paths : PathMap) (dirname : Bytes → Bytes) where
  -- A table of such handlers
  abbrev AllKeep : List (Bytes × Handler paths) → Type 0
  AllKeep [] = Unit
  AllKeep ((name, handler) ∷ entries) = KeepsAll paths dirname handler × AllKeep entries

  find_handler-KeepsAll :
      (entries : List (Bytes × Handler paths)) (op : Option Bytes) (handler : Handler paths)
      → AllKeep entries
      → find_handler entries op ≡ some handler
      → KeepsAll paths dirname handler
  unfolding find_handler
  find_handler-KeepsAll entries none handler keep e = absurd (ground arith)
  find_handler-KeepsAll [] (some op) handler keep e = absurd (ground arith)
  find_handler-KeepsAll ((name, first) ∷ entries) (some op) handler keep e =
      elim (Bool-cases (str_same name op)) [
        | inl same ↦ subst (KeepsAll paths dirname) {x = first} {y = handler} (ground arith) keep.0
        | inr other ↦ find_handler-KeepsAll entries (some op) handler keep.1 (ground arith)
      ]

  ignore-KeepsAll : KeepsAll paths dirname (ignore paths)
  ignore-KeepsAll t g valid = stay paths g.store valid

  gprocess_by_realpid-Keeps :
      (t : Task) (g : Generator paths)
      → IsValid paths g.store
      → Holds (Keeps paths g.store) (gprocess_by_realpid paths t g)
  unfolding gprocess_by_realpid
  gprocess_by_realpid-Keeps t g valid = elim (Option-cases (amap_get g.pid_map t.pid)) [
    | inl e ↦ rw (e, Holds) tt
    | inr (p, e) ↦ elim (Bool-cases (p == 0)) [
      | inr known ↦ rw (e, known, Holds) (stay paths g.store valid)
      | inl new ↦ elim (Option-cases (amap_set g.pid_map t.pid (length g.gprocesses + 1))) [
        | inl e2 ↦ rw (e, new, e2, Holds) tt
        | inr (r, e2) ↦ elim (Bool-cases (eqz r.0 (pos 0))) [
          | inl fine ↦ rw (e, new, e2, fine, Holds) (stay paths g.store valid)
          | inr refused ↦ rw (e, new, e2, refused, Holds) tt
        ]
      ]
    ]
  ]

  finish-Keeps :
      (store : Store paths) (m : Result paths)
      → Holds (KeepsResult paths store) m
      → Holds (Keeps paths store) (finish paths m)
  unfolding finish
  finish-Keeps store (ok (success, t, g)) h = h
  finish-Keeps store exit h = tt
  finish-Keeps store fault h = tt

  module _ (o_directory o_creat : ℕ) (creat_flags : ℤ) (fcntl_known : List ℤ) where
    preopen-AllKeep : AllKeep (preopen paths dirname o_directory o_creat creat_flags fcntl_known)
    unfolding preopen
    preopen-AllKeep =
        (gioop_open-KeepsAll paths dirname o_directory o_creat creat_flags)
        ⋆ (gioop_openat-KeepsAll paths dirname o_directory o_creat creat_flags)
        ⋆ (gioop_creat-KeepsAll paths dirname o_directory o_creat creat_flags)
        ⋆ tt

    dispatch-AllKeep : AllKeep (dispatch paths dirname o_directory o_creat creat_flags fcntl_known)
    unfolding dispatch
    dispatch-AllKeep =
        (gioop_close-KeepsAll paths dirname)
        ⋆ (gioop_stat-KeepsAll paths dirname)
        ⋆ (gioop_statfs-KeepsAll paths dirname)
        ⋆ (gioop_statfs64-KeepsAll paths dirname)
        ⋆ (gioop_fstat-KeepsAll paths dirname)
        ⋆ (gioop_fstatat-KeepsAll paths dirname)
        ⋆ (gioop_fstatfs-KeepsAll paths dirname)
        ⋆ (gioop_fstatfs64-KeepsAll paths dirname)
        ⋆ (rename_call-KeepsAll paths dirname op_rename)
        ⋆ (rename_call-KeepsAll paths dirname op_rename_at)
        ⋆ (rename_call-KeepsAll paths dirname op_rename_at2)
        ⋆ (gioop_read-KeepsAll paths dirname)
        ⋆ (gioop_readv-KeepsAll paths dirname)
        ⋆ (gioop_readahead-KeepsAll paths dirname)
        ⋆ (gioop_readdir-KeepsAll paths dirname)
        ⋆ (link_call-KeepsAll paths dirname op_readlink)
        ⋆ (link_call-KeepsAll paths dirname op_readlink_at)
        ⋆ (gioop_write-KeepsAll paths dirname)
        ⋆ (gioop_writev-KeepsAll paths dirname)
        ⋆ (gioop_lseek-KeepsAll paths dirname)
        ⋆ (gioop_llseek-KeepsAll paths dirname)
        ⋆ (gioop_getdents-KeepsAll paths dirname)
        ⋆ (gioop_mkdir-KeepsAll paths dirname)
        ⋆ (gioop_rmdir-KeepsAll paths dirname)
        ⋆ (gioop_mkdirat-KeepsAll paths dirname)
        ⋆ (gioop_unlink-KeepsAll paths dirname)
        ⋆ (gioop_unlinkat-KeepsAll paths dirname)
        ⋆ (gioop_lstat-KeepsAll paths dirname)
        ⋆ (gioop_fsync-KeepsAll paths dirname)
        ⋆ (gioop_fdatasync-KeepsAll paths dirname)
        ⋆ (gioop_sync-KeepsAll paths dirname)
        ⋆ (gioop_syncfs-KeepsAll paths dirname)
        ⋆ (gioop_sync_file_range-KeepsAll paths dirname)
        ⋆ (gioop_fcntl-KeepsAll paths dirname fcntl_known)
        ⋆ (ignore-KeepsAll)
        ⋆ (ignore-KeepsAll)
        ⋆ (ignore-KeepsAll)
        ⋆ (ignore-KeepsAll)
        ⋆ (gioop_chmod-KeepsAll paths dirname)
        ⋆ (gioop_chmod-KeepsAll paths dirname)
        ⋆ (gioop_fchmod-KeepsAll paths dirname)
        ⋆ (gioop_chown-KeepsAll paths dirname)
        ⋆ (gioop_chown-KeepsAll paths dirname)
        ⋆ (gioop_lchown-KeepsAll paths dirname)
        ⋆ (gioop_lchown-KeepsAll paths dirname)
        ⋆ (gioop_fchown-KeepsAll paths dirname)
        ⋆ (gioop_fchown-KeepsAll paths dirname)
        ⋆ (gioop_chown-KeepsAll paths dirname)
        ⋆ (gioop_exit_group-KeepsAll paths dirname)
        ⋆ tt

    dispatched-Keeps :
        (t : Task) (g : Generator paths)
        → IsValid paths g.store
        → Holds (Keeps paths g.store) (
            run_found paths
              (dispatch paths dirname o_directory o_creat creat_flags fcntl_known)
              t
              g)
    unfolding run_found finish
    dispatched-Keeps t g valid =
        let others = dispatch paths dirname o_directory o_creat creat_flags fcntl_known in
        elim (Option-cases (find_handler others t.op)) [
          | inl e ↦ rw (e, run_found) (stay paths g.store valid)
          | inr (handler, e) ↦
              rw (e, run_found)
                (finish-Keeps g.store (handler t g)
                  (find_handler-KeepsAll others t.op handler dispatch-AllKeep e t g valid))
        ]

    opened-Keeps :
        (t : Task) (g : Generator paths)
        → IsValid paths g.store
        → Holds (Keeps paths g.store) (
            run_opening paths
              (preopen paths dirname o_directory o_creat creat_flags fcntl_known)
              (dispatch paths dirname o_directory o_creat creat_flags fcntl_known)
              t
              g)
    unfolding run_opening finish
    opened-Keeps t g valid =
        let opening = preopen paths dirname o_directory o_creat creat_flags fcntl_known in
        elim (Option-cases (find_handler opening t.op)) [
          | inr (handler, e) ↦
              rw (e, run_opening)
                (finish-Keeps g.store (handler t g)
                  (find_handler-KeepsAll opening t.op handler preopen-AllKeep e t g valid))
          | inl e ↦
              rw (e, run_opening)
                (Holds-bind (λ _. Unit) (Keeps paths g.store) _ _ (Holds-any _)
                  (λ r _. elim (Bool-cases r.0) [
                    | inl found ↦ rw found (dispatched-Keeps r.1 g valid)
                    | inr lost ↦ rw lost (stay paths g.store valid)
                  ]))
        ]

    -- From a store in order, and whatever a task asks for, its run, unless it ends the process or
    -- does what C leaves undefined, leaves the store of virtual sizes in order, with no fewer
    -- objects, and every known path with its object.
    pub gioop_run-IsStep :
        (t : Task) (g : Generator paths)
        → IsValid paths g.store
        → Holds
            (Keeps paths g.store)
            (gioop_run paths dirname o_directory o_creat creat_flags fcntl_known t g)
    unfolding gioop_run run_with
    gioop_run-IsStep t g valid = elim (Bool-cases (not (eqz t.ret (pos 0)))) [
      | inl failed ↦ rw failed (stay paths g.store valid)
      | inr fine ↦ rw fine (
          Holds-bind (Keeps paths g.store) (Keeps paths g.store) _ _
            (gprocess_by_realpid-Keeps t g valid)
            (λ a step. Holds-follow paths _ step (opened-Keeps a.0 a.1 step.valid)))
    ]
