-- ===== src/Generate/Gioop/Keeps/Descriptors.antt =====
-- The mapping of descriptors of ioriot/src/generate/gprocess.c, and the order of the store.
use ioriot.Generate.State.{Store, touch}
use ioriot.Prelude.{
  ℕ, ◌-◌, ◌==◌, if◌then◌else◌, pos, inl, inr, Bool-cases, Outcome, ok, exit, fault, ltz, refl, ◌<◌,
  Holds, Holds-bind, Holds-any,
}
use ioriot.Generate.PathMap.{Bytes, PathMap}
use ioriot.Generate.Vsize.{vsize_close, Vfd}
use ioriot.Generate.Vsize.Inv.{IsValid}
use ioriot.Generate.Vsize.Steps.{IsStep, stay, follow, modify-IsStep}
use ioriot.Generate.Task.{Task, Generator}
use ioriot.Generate.Process.{
  task_vsize, write_line, task_vfd, insert_close, write_close, map_fd, create_vfd_by_realfd,
}
use ioriot.Generate.Gioop.Keeps.{Keeps, task_vsize-IsStep}

module _ (paths : PathMap) where
  pub vsize_close-IsStep :
      (store : Store paths) (v : ℕ) (vfd : Vfd)
      → IsValid paths store
      → v - 1 < store.num_vsizes
      → IsStep paths store (vsize_close paths store v vfd).0
  unfolding vsize_close
  vsize_close-IsStep store v vfd valid inside =
      modify-IsStep paths store store v touch (stay paths store valid) inside
        (λ o h. (refl, refl, h))

  pub Holds-follow :
      {store store' : Store paths} (m : Outcome (Task × Generator paths))
      → IsStep paths store store'
      → Holds (Keeps paths store') m
      → Holds (Keeps paths store) m
  Holds-follow (ok (t, g)) step h = follow paths step h
  Holds-follow exit step h = tt
  Holds-follow fault step h = tt

  map_fd-Keeps :
      (t : Task) (g : Generator paths) (path : Bytes)
      → IsValid paths g.store
      → Holds (Keeps paths g.store) (map_fd paths t g path)
  unfolding map_fd
  map_fd-Keeps t g path valid =
      Holds-bind (λ _. Unit) (Keeps paths g.store) _ _ (Holds-any _)
        (λ r _.
          Holds-bind (λ _. Unit) (Keeps paths g.store) _ _ (Holds-any _)
            (λ r2 _. stay paths g.store valid))

  write_close-IsStep :
      (t : Task) (g : Generator paths) (old_mapped : ℕ)
      → IsValid paths g.store
      → IsStep paths g.store (write_close paths t g old_mapped).1.store
  unfolding write_close write_line task_vsize
  write_close-IsStep t g old_mapped valid = elim (Bool-cases (t.vfd == 0)) [
    | inl e ↦ rw e (stay paths g.store valid)
    | inr e ↦ rw e (
        task_vsize-IsStep paths t g (task_vfd paths t g).path
          (λ store v. (vsize_close paths store v (task_vfd paths t g)).0) valid
          (λ store v ok inside. vsize_close-IsStep store v (task_vfd paths t g) ok inside))
  ]

  insert_close-Keeps :
      (t : Task) (g : Generator paths) (old_mapped : ℕ)
      → IsValid paths g.store
      → Holds (Keeps paths g.store) (insert_close paths t g old_mapped)
  unfolding insert_close
  insert_close-Keeps t g old_mapped valid =
      Holds-bind (λ _. Unit) (Keeps paths g.store) _ _ (Holds-any _)
        (λ vfd _.
          Holds-bind (λ _. Unit) (Keeps paths g.store) _ _ (Holds-any _)
            (λ r _.
              Holds-bind (λ _. Unit) (Keeps paths g.store) _ _ (Holds-any _)
                (λ r2 _. write_close-IsStep _ _ old_mapped valid)))

  pub create_vfd_by_realfd-Keeps :
      (t : Task) (g : Generator paths) (path : Bytes)
      → IsValid paths g.store
      → Holds (Keeps paths g.store) (create_vfd_by_realfd paths t g path)
  unfolding create_vfd_by_realfd
  create_vfd_by_realfd-Keeps t g path valid =
      let started : (old : ℕ)
          → Holds (Keeps paths g.store)
              (if old == 0 then ok (t, g) else insert_close paths t g old) =
        λ old. elim (Bool-cases (old == 0)) [
          | inl e ↦ rw e (stay paths g.store valid)
          | inr e ↦ rw e (insert_close-Keeps t g old valid)
        ] in
      elim (Bool-cases (ltz t.fd (pos 0))) [
        | inl e ↦ rw e (stay paths g.store valid)
        | inr e ↦ rw e (
            Holds-bind (λ _. Unit) (Keeps paths g.store) _ _ (Holds-any _)
              (λ old _.
                Holds-bind (Keeps paths g.store) (Keeps paths g.store)
                  (if old == 0 then ok (t, g) else insert_close paths t g old) _ (started old)
                  (λ a step. Holds-follow _ step (map_fd-Keeps a.0 a.1 path step.valid))))
      ]
