-- ===== src/Generate/Gioop/Keeps/Paths.antt =====
-- The handlers of ioriot/src/generate/gioop.c for calls on a path, and the order of the store.
use ioriot.Prelude.{ℕ, [], ◌∷◌, pos, arith, inl, inr, Bool-cases, Option-cases, eqz, lez, Holds}
use ioriot.Generate.PathMap.{Bytes, PathMap}
use ioriot.Generate.State.{Store, vsize_by_path}
use ioriot.Generate.Vsize.{vsize_stat, vsize_mkdir, vsize_rmdir, vsize_unlink, vsize_symlink}
use ioriot.Generate.Vsize.Inv.{IsValid}
use ioriot.Generate.Vsize.Paths.{vsize_by_path-IsLookup}
use ioriot.Generate.Vsize.Steps.{stay, follow}
use ioriot.Generate.Vsize.Calls.{calls-IsStep}
use ioriot.Generate.Task.{Task, number, Generator, blank_vfd}
use ioriot.Generate.Process.{task_vsize, write_line}
use ioriot.Generate.Gioop.{Result, if_ok}
use ioriot.Generate.Gioop.Keeps.{KeepsResult, IsSafe, lookup-IsStep, path_call-Keeps, when-IsStep}
use ioriot.Generate.Gioop.Paths.{
  rename_call, link_call, gioop_stat, gioop_statfs, gioop_statfs64, gioop_fstatat, gioop_lstat,
  gioop_mkdir, gioop_mkdirat, gioop_rmdir, gioop_unlink, gioop_unlinkat, gioop_chmod, gioop_chown,
  gioop_lchown,
}

module _ (paths : PathMap) (dirname : Bytes → Bytes) where
  vsize_stat-IsSafe : IsSafe paths (vsize_stat paths dirname)
  vsize_stat-IsSafe store v path valid inside =
      (calls-IsStep paths dirname store v valid inside 0 0 0 v blank_vfd path path (pos 0) inside).2

  vsize_mkdir-IsSafe : IsSafe paths (vsize_mkdir paths dirname)
  vsize_mkdir-IsSafe store v path valid inside =
      (calls-IsStep paths dirname store v valid inside 0 0 0 v blank_vfd path path (pos 0) inside).8

  vsize_rmdir-IsSafe : IsSafe paths (vsize_rmdir paths dirname)
  vsize_rmdir-IsSafe store v path valid inside =
      (calls-IsStep paths dirname store v valid inside 0 0 0 v blank_vfd path path (pos 0) inside).9

  vsize_unlink-IsSafe : IsSafe paths (vsize_unlink paths dirname)
  vsize_unlink-IsSafe store v path valid inside =
      (calls-IsStep paths dirname store v valid inside 0 0 0 v blank_vfd path path (pos 0)
        inside).10

  if_ok-IsSafe :
      (t : Task) (effect : Store paths → ℕ → Bytes → Store paths)
      → IsSafe paths effect
      → IsSafe paths (if_ok paths t effect)
  if_ok-IsSafe t effect safe store v path valid inside =
      when-IsStep paths (eqz t.status (pos 0)) store (effect store v path) valid
        (safe store v path valid inside)

  -- A handler that keeps the store in order, and every known path its object, whatever it returns
  abbrev pub KeepsAll : (Task → Generator paths → Result paths) → Type 0
  KeepsAll handler =
      (t : Task) (g : Generator paths)
      → IsValid paths g.store
      → Holds (KeepsResult paths g.store) (handler t g)

  pub gioop_stat-KeepsAll : KeepsAll (gioop_stat paths dirname)
  unfolding gioop_stat
  gioop_stat-KeepsAll t g valid =
      path_call-Keeps paths t g _ _ _ valid (if_ok-IsSafe t _ vsize_stat-IsSafe)

  pub gioop_statfs-KeepsAll : KeepsAll (gioop_statfs paths dirname)
  unfolding gioop_statfs
  gioop_statfs-KeepsAll t g valid =
      path_call-Keeps paths t g _ _ _ valid (if_ok-IsSafe t _ vsize_stat-IsSafe)

  pub gioop_statfs64-KeepsAll : KeepsAll (gioop_statfs64 paths dirname)
  unfolding gioop_statfs64
  gioop_statfs64-KeepsAll t g valid =
      path_call-Keeps paths t g _ _ _ valid (if_ok-IsSafe t _ vsize_stat-IsSafe)

  pub gioop_fstatat-KeepsAll : KeepsAll (gioop_fstatat paths dirname)
  unfolding gioop_fstatat
  gioop_fstatat-KeepsAll t g valid =
      path_call-Keeps paths t g _ _ _ valid (if_ok-IsSafe t _ vsize_stat-IsSafe)

  pub gioop_lstat-KeepsAll : KeepsAll (gioop_lstat paths dirname)
  unfolding gioop_lstat
  gioop_lstat-KeepsAll t g valid =
      path_call-Keeps paths t g _ _ _ valid (if_ok-IsSafe t _ vsize_stat-IsSafe)

  pub gioop_mkdir-KeepsAll : KeepsAll (gioop_mkdir paths dirname)
  unfolding gioop_mkdir
  gioop_mkdir-KeepsAll t g valid =
      path_call-Keeps paths t g _ _ _ valid (if_ok-IsSafe t _ vsize_mkdir-IsSafe)

  pub gioop_mkdirat-KeepsAll : KeepsAll (gioop_mkdirat paths dirname)
  unfolding gioop_mkdirat
  gioop_mkdirat-KeepsAll t g valid =
      path_call-Keeps paths t g _ _ _ valid (if_ok-IsSafe t _ vsize_mkdir-IsSafe)

  pub gioop_rmdir-KeepsAll : KeepsAll (gioop_rmdir paths dirname)
  unfolding gioop_rmdir
  gioop_rmdir-KeepsAll t g valid =
      path_call-Keeps paths t g _ _ _ valid (if_ok-IsSafe t _ vsize_rmdir-IsSafe)

  pub gioop_unlink-KeepsAll : KeepsAll (gioop_unlink paths dirname)
  unfolding gioop_unlink
  gioop_unlink-KeepsAll t g valid =
      path_call-Keeps paths t g _ _ _ valid (if_ok-IsSafe t _ vsize_unlink-IsSafe)

  pub gioop_unlinkat-KeepsAll : KeepsAll (gioop_unlinkat paths dirname)
  unfolding gioop_unlinkat
  gioop_unlinkat-KeepsAll t g valid =
      path_call-Keeps paths t g _ _ _ valid (if_ok-IsSafe t _ vsize_unlink-IsSafe)

  pub gioop_chmod-KeepsAll : KeepsAll (gioop_chmod paths dirname)
  unfolding gioop_chmod
  gioop_chmod-KeepsAll t g valid =
      path_call-Keeps paths t g _ _ _ valid (if_ok-IsSafe t _ vsize_stat-IsSafe)

  pub gioop_chown-KeepsAll : KeepsAll (gioop_chown paths dirname)
  unfolding gioop_chown
  gioop_chown-KeepsAll t g valid =
      path_call-Keeps paths t g _ _ _ valid (if_ok-IsSafe t _ vsize_stat-IsSafe)

  pub gioop_lchown-KeepsAll : KeepsAll (gioop_lchown paths dirname)
  unfolding gioop_lchown
  gioop_lchown-KeepsAll t g valid =
      path_call-Keeps paths t g _ _ _ valid (if_ok-IsSafe t _ vsize_stat-IsSafe)

  pub link_call-KeepsAll : (opcode : ℕ) → KeepsAll (link_call paths dirname opcode)
  unfolding link_call
  link_call-KeepsAll opcode t g valid =
      path_call-Keeps paths t g opcode (number t.status ∷ []) _ valid (λ store v path ok inside.
        elim (Option-cases t.path2) [
          | inl e ↦ rw e (
              when-IsStep paths (lez (pos 0) t.status) store (vsize_stat paths dirname store v path)
                ok (vsize_stat-IsSafe store v path ok inside))
          | inr (target, e) ↦ rw e (
              when-IsStep paths (lez (pos 0) t.status) store
                (vsize_symlink paths dirname store v path target) ok
                ((calls-IsStep paths dirname store v ok inside 0 0 0 v blank_vfd path target (pos 0)
                  inside).3))
        ])

  pub rename_call-KeepsAll : (opcode : ℕ) → KeepsAll (rename_call paths dirname opcode)
  unfolding rename_call write_line task_vsize
  rename_call-KeepsAll opcode t g valid = elim (Option-cases t.path) [
    | inl e ↦ rw (e, rename_call) (stay paths g.store valid)
    | inr (path, e) ↦ elim (Option-cases t.path2) [
      | inl e2 ↦ rw (e, e2, rename_call) (stay paths g.store valid)
      | inr (path2, e2) ↦
          let (v, store) = vsize_by_path paths g.store path in
          let found = vsize_by_path-IsLookup paths g.store path valid in
          let (v2, store2) = vsize_by_path paths store path2 in
          let found2 = vsize_by_path-IsLookup paths store path2 found.valid in
          elim (Bool-cases (eqz t.status (pos 0))) [
            | inl done ↦
                rw (e, e2, done, rename_call)
                  (follow paths (lookup-IsStep paths found) (
                    follow paths (lookup-IsStep paths found2) (
                      (calls-IsStep paths dirname store2 v found2.valid
                        (omega (arith, found.present, found.inside, found2.grown)) 0 0 0 v2
                        blank_vfd path path2 (pos 0)
                        (omega (arith, found2.present, found2.inside))).4)))
            | inr failed ↦ rw (e, e2, failed, rename_call) (lookup-IsStep paths found)
          ]
    ]
  ]
