-- ===== src/Generate/Gioop/Keeps.antt =====
-- The shared steps of the handlers of ioriot/src/generate/gioop.c, and the order of the store.
use ioriot.Generate.Vsize.{Vfd}
use ioriot.Generate.Gioop.Paths.{rename_call, link_call, open_call}
pub mod Paths
pub mod Descriptors
pub mod Opens
pub mod Fds
pub mod Table
use ioriot.Prelude.{
  Bool-cases, ℕ, ◌-◌, ◌<◌, List, Bool, arith, inl, inr, Outcome, ok, exit, fault, ◌>>=◌,
  Option-cases, if◌then◌else◌, true, false, Holds, Holds-bind, Holds-any,
}
use ioriot.Generate.PathMap.{Bytes, PathMap}
use ioriot.Generate.State.{Store, vsize_by_path}
use ioriot.Generate.Vsize.Inv.{IsValid}
use ioriot.Generate.Vsize.Paths.{IsLookup, vsize_by_path-IsLookup}
use ioriot.Generate.Vsize.Steps.{IsStep, stay, follow}
use ioriot.Generate.Task.{Task, Field, Generator}
use ioriot.Generate.Process.{task_vsize, write_line, task_vfd}
use ioriot.Generate.Gioop.{fd_call, path_call}

module _ (paths : PathMap) where
  -- From a store, to a generator with the store in order and with every path that was known
  abbrev pub Keeps : Store paths → Task × Generator paths → Type 0
  Keeps store (t, g) = IsStep paths store g.store

  abbrev pub KeepsResult : Store paths → Bool × Task × Generator paths → Type 0
  KeepsResult store (success, t, g) = IsStep paths store g.store

  -- An effect on one object that keeps the store in order
  abbrev pub IsSafe {ℓ} : {A : Type ℓ} → (Store paths → ℕ → A → Store paths) → Type ℓ
  IsSafe effect =
      (store : Store paths) (v : ℕ) (a : _)
      → IsValid paths store
      → v - 1 < store.num_vsizes
      → IsStep paths store (effect store v a)

  pub lookup-IsStep :
      {g g' : Store paths} {path : Bytes} {v : ℕ} → IsLookup paths g path v g' → IsStep paths g g'
  lookup-IsStep found = record { valid = found.valid; grown = found.grown; others = found.others }

  pub path_call-Keeps :
      (t : Task) (g : Generator paths) (opcode : ℕ) (fields : List Field)
      (effect : Store paths → ℕ → Bytes → Store paths)
      → IsValid paths g.store
      → IsSafe effect
      → Holds (KeepsResult g.store) (path_call paths t g opcode fields effect)
  unfolding path_call task_vsize write_line
  path_call-Keeps t g opcode fields effect valid safe = elim (Option-cases t.path) [
    | inl e ↦ rw (e, path_call) (stay paths g.store valid)
    | inr (path, e) ↦
        let (v, store) = vsize_by_path paths g.store path in
        let found = vsize_by_path-IsLookup paths g.store path valid in
        rw (e, path_call)
          (follow paths (lookup-IsStep found)
            (safe store v path found.valid (omega (arith, found.present, found.inside))))
  ]

  -- The look-up of a task's object, with what follows on that object
  pub task_vsize-IsStep :
      (t : Task) (g : Generator paths) (path : Bytes) (effect : Store paths → ℕ → Store paths)
      → IsValid paths g.store
      → ((store : Store paths) (v : ℕ)
          → IsValid paths store
          → v - 1 < store.num_vsizes
          → IsStep paths store (effect store v))
      → IsStep paths g.store
          (effect (task_vsize paths t g path).1.store (task_vsize paths t g path).0.vsize)
  unfolding task_vsize
  task_vsize-IsStep t g path effect valid safe =
      let found = vsize_by_path-IsLookup paths g.store path valid in
      follow paths (lookup-IsStep found) (
        safe (vsize_by_path paths g.store path).1 (vsize_by_path paths g.store path).0 found.valid
          (omega (arith, found.present, found.inside)))

  -- An effect on one object and on a descriptor that keeps the store in order
  abbrev pub IsSafeFd : (Store paths → ℕ → Vfd → Store paths × Vfd) → Type 0
  IsSafeFd effect =
      (store : Store paths) (v : ℕ) (vfd : Vfd)
      → IsValid paths store
      → v - 1 < store.num_vsizes
      → IsStep paths store (effect store v vfd).0

  pub fd_call-Keeps :
      (t : Task) (g : Generator paths) (opcode : ℕ) (fields : List Field)
      (effect : Store paths → ℕ → Vfd → Store paths × Vfd)
      → IsValid paths g.store
      → IsSafeFd effect
      → Holds (KeepsResult g.store) (fd_call paths t g opcode fields effect)
  unfolding fd_call write_line task_vsize
  fd_call-Keeps t g opcode fields effect valid safe = elim (Bool-cases t.has_fd) [
    | inl e ↦
        rw (e, fd_call)
          (task_vsize-IsStep t g (task_vfd paths t g).path
            (λ store v. (effect store v (task_vfd paths t g)).0) valid
            (λ store v ok inside. safe store v (task_vfd paths t g) ok inside))
    | inr e ↦ rw (e, fd_call) (stay paths g.store valid)
  ]

  -- Most effects act only if the call succeeded.
  pub when-IsStep :
      (b : Bool) (store store' : Store paths)
      → IsValid paths store
      → IsStep paths store store'
      → IsStep paths store (if b then store' else store)
  when-IsStep true store store' valid step = step
  when-IsStep false store store' valid step = stay paths store valid
