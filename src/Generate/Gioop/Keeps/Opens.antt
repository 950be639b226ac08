-- ===== src/Generate/Gioop/Keeps/Opens.antt =====
-- The handlers of ioriot/src/generate/gioop.c for calls that open a file, and the order of the
-- store.
use ioriot.Prelude.{
  ℕ, ℤ, pos, inl, inr, Bool-cases, Option-cases, eqz, ltz, Holds, Holds-bind, not, ◌||◌, negsuc,
}
use ioriot.Generate.PathMap.{Bytes, PathMap}
use ioriot.Generate.Vsize.{to_ulong, vsize_open}
use ioriot.Generate.Vsize.Inv.{IsValid}
use ioriot.Generate.Vsize.Paths.{vsize_by_path-IsLookup}
use ioriot.Generate.Vsize.Steps.{stay, follow}
use ioriot.Generate.Vsize.Calls.{calls-IsStep}
use ioriot.Generate.Task.{Task, Generator}
use ioriot.Generate.Process.{task_vsize, write_line, task_vfd, create_vfd_by_realfd}
use ioriot.Generate.Gioop.Keeps.{Keeps, KeepsResult, lookup-IsStep, task_vsize-IsStep}
use ioriot.Generate.Gioop.Keeps.Descriptors.{create_vfd_by_realfd-Keeps}
use ioriot.Generate.Gioop.Paths.{open_call, gioop_open, gioop_openat, gioop_creat}
use ioriot.Generate.Gioop.Keeps.Paths.{KeepsAll}

module _ (paths : PathMap) (dirname : Bytes → Bytes) where
  pub open_call-Keeps :
      (o_directory o_creat opcode : ℕ) (flags : ℤ) (t : Task) (g : Generator paths) (path : Bytes)
      → IsValid paths g.store
      → Holds
          (KeepsResult paths g.store)
          (open_call paths dirname o_directory o_creat opcode flags t g path)
  unfolding open_call task_vsize write_line
  open_call-Keeps o_directory o_creat opcode flags t g path valid =
      Holds-bind (Keeps paths g.store) (KeepsResult paths g.store)
        (create_vfd_by_realfd paths t g path) _ (create_vfd_by_realfd-Keeps paths t g path valid)
        (λ (t1, g1) step. elim (Bool-cases (ltz (pos 0) t1.fd)) [
          | inl e ↦ rw e (
              follow paths step (
                task_vsize-IsStep paths t1 g1 path
                  (λ store v.
                    (vsize_open paths dirname o_directory o_creat store v (task_vfd paths t1 g1)
                      path (to_ulong flags)).0)
                  step.valid
                  (λ store v ok inside.
                    (calls-IsStep paths dirname store v ok inside o_directory o_creat
                      (to_ulong flags) v (task_vfd paths t1 g1) path path (pos 0) inside).0)))
          | inr e ↦ rw e (
              follow paths step
                (lookup-IsStep paths (vsize_by_path-IsLookup paths g1.store path step.valid)))
        ])

  module _ (o_directory o_creat : ℕ) (creat_flags : ℤ) where
    pub gioop_open-KeepsAll :
        KeepsAll paths dirname (gioop_open paths dirname o_directory o_creat creat_flags)
    unfolding gioop_open
    gioop_open-KeepsAll t g valid = elim (Option-cases t.path) [
      | inl e ↦ rw (e, gioop_open) (stay paths g.store valid)
      | inr (path, e) ↦ elim (Bool-cases (not t.has_fd || eqz t.flags (negsuc 0))) [
        | inl refused ↦ rw (e, gioop_open) (rw refused (stay paths g.store valid))
        | inr fine ↦
            rw (e, gioop_open) (rw fine (open_call-Keeps o_directory o_creat _ _ t g path valid))
      ]
    ]

    pub gioop_openat-KeepsAll :
        KeepsAll paths dirname (gioop_openat paths dirname o_directory o_creat creat_flags)
    unfolding gioop_openat
    gioop_openat-KeepsAll t g valid = elim (Option-cases t.path) [
      | inl e ↦ rw (e, gioop_openat) (stay paths g.store valid)
      | inr (path, e) ↦ elim (Bool-cases (not t.has_fd || eqz t.flags (negsuc 0))) [
        | inl refused ↦ rw (e, gioop_openat) (rw refused (stay paths g.store valid))
        | inr fine ↦
            rw (e, gioop_openat) (rw fine (open_call-Keeps o_directory o_creat _ _ t g path valid))
      ]
    ]

    pub gioop_creat-KeepsAll :
        KeepsAll paths dirname (gioop_creat paths dirname o_directory o_creat creat_flags)
    unfolding gioop_creat
    gioop_creat-KeepsAll t g valid = elim (Option-cases t.path) [
      | inl e ↦ rw (e, gioop_creat) (stay paths g.store valid)
      | inr (path, e) ↦ elim (Bool-cases (not t.has_fd || eqz t.mode (negsuc 0))) [
        | inl refused ↦ rw (e, gioop_creat) (rw refused (stay paths g.store valid))
        | inr fine ↦
            rw (e, gioop_creat) (rw fine (open_call-Keeps o_directory o_creat _ _ t g path valid))
      ]
    ]
