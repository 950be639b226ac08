-- ===== src/Generate/Process.antt =====
-- The virtual descriptors of a process: ioriot/src/generate/gprocess.c, the macro `Gioop_write` of
-- gioop.h, and the lookups of generate.c that a task goes through.
use ioriot.Generate.Opcodes.{op_close}
use ioriot.Prelude.{
  ℕ, ◌+◌, ◌-◌, List, [], ◌∷◌, ◌++◌, Bool, true, false, ◌==◌, if◌then◌else◌, some, none, pos, eqz,
  ltz, length, set, Outcome, ok, exit, fault, ◌>>=◌,
}
use ioriot.Datas.AMap.{amap_get, amap_set}
use ioriot.Datas.Key.{long_key}
use ioriot.Datas.HMap
use ioriot.Datas.RBuffer
use ioriot.Generate.PathMap.{Bytes, PathMap}
use ioriot.Generate.State.{Store, deref, vsize_by_path}
use ioriot.Generate.Vsize.{Vfd, vsize_close}
use ioriot.Generate.Task.{
  Task, Process, gprocess_new, Field, number, Generator, process_at, vfd_at, vfd_update,
}

module _ (paths : PathMap) where
  -- `generate_vsize_by_path(g, t, path)`, with a path that is not NULL
  unfoldable pub task_vsize : Task → Generator paths → Bytes → Task × Generator paths
  task_vsize t g path =
      let (v, store) = vsize_by_path paths g.store path in
      (record t { vsize = v }, record g { store = store })

  -- `Gioop_write`
  unfoldable pub write_line : Task → Generator paths → ℕ → List Field → Generator paths
  write_line t g opcode fields = record g {
    replay =
        record {
          time = t.mapped_time;
          vsize_id = if t.vsize == 0 then 0 else (deref paths g.store t.vsize).id;
          mapped_pid = (process_at g.gprocesses t.gprocess).mapped_pid;
          opcode = opcode;
          fields = fields;
          lineno = t.lineno;
        }
        ∷ g.replay;
  }

  -- `*t->vfd`
  abbrev pub task_vfd : Task → Generator paths → Vfd
  task_vfd t g = vfd_at g.vfds t.vfd

  -- What a function of vsize.c leaves in the store and in `*t->vfd`
  abbrev pub put_back : Task → Generator paths → Store paths × Vfd → Generator paths
  put_back t g (store, vfd) = record g { store = store; vfds = set g.vfds (t.vfd - 1) vfd }

  abbrev pub put_process : Task → Generator paths → Process → Generator paths
  put_process t g p = record g { gprocesses = set g.gprocesses (t.gprocess - 1) p }

  -- `generate_gprocess_by_realpid`
  unfoldable pub gprocess_by_realpid : Task → Generator paths → Outcome (Task × Generator paths)
  gprocess_by_realpid t g = elim (amap_get g.pid_map t.pid) [
    | none ↦ fault
    | some p ↦
        (if p == 0
          then elim (amap_set g.pid_map t.pid (length g.gprocesses + 1)) [
            | none ↦ fault
            | some (refused, pid_map) ↦
                (if eqz refused (pos 0)
                  then ok (
                    record t { gprocess = length g.gprocesses + 1 },
                    record g {
                      gprocesses = g.gprocesses ++ gprocess_new t.pid (g.num_mapped_pids + 1) ∷ [];
                      pid_map = pid_map;
                      num_mapped_pids = g.num_mapped_pids + 1;
                    },
                  )
                  else exit)
          ]
          else ok (record t { gprocess = p }, g))
  ]

  -- The part of `gprocess_create_vfd_by_realfd` for a real descriptor that is mapped still: the
  -- close that it inserts for the old virtual descriptor, if there is one, and what it does before.
  unfoldable pub write_close : Task → Generator paths → ℕ → Task × Generator paths
  write_close t g old_mapped =
      if t.vfd == 0
      then (t, g)
      else (let (t, g) = task_vsize t g (task_vfd t g).path in
          let g = write_line t g op_close (number (pos old_mapped) ∷ number (pos 0) ∷ []) in
          let g = put_back t g (vsize_close paths g.store t.vsize (task_vfd t g)) in
          (t, record g { vfd_buffer = (RBuffer.insert g.vfd_buffer t.vfd).1 }))

  unfoldable pub insert_close : Task → Generator paths → ℕ → Outcome (Task × Generator paths)
  insert_close t g old_mapped = do
    let gp = process_at g.gprocesses t.gprocess
    vfd ← HMap.get long_key gp.vfd_map (pos old_mapped)
    (_, fd_map) ← HMap.remove long_key gp.fd_map t.fd
    (_, vfd_map) ← HMap.remove long_key gp.vfd_map (pos old_mapped)
    let g = put_process t g (record gp { fd_map = fd_map; vfd_map = vfd_map })
    ok (write_close (record t { vfd = vfd }) g old_mapped)

  -- Its rest: a descriptor object, used again or new, under a new mapped number
  unfoldable pub map_fd : Task → Generator paths → Bytes → Outcome (Task × Generator paths)
  map_fd t g path = do
    let gp = process_at g.gprocesses t.gprocess
    let (reused, vfd_buffer) = RBuffer.get_next g.vfd_buffer
    let mapped_fd = g.num_mapped_fds + 1
    let object = vfd_update t.fd mapped_fd path
    let vfd = if reused == 0 then length g.vfds + 1 else reused
    let vfds = if reused == 0 then g.vfds ++ object ∷ [] else set g.vfds (reused - 1) object
    (_, vfd_map) ← HMap.insert long_key gp.vfd_map (pos mapped_fd) vfd
    (_, fd_map) ← HMap.insert long_key gp.fd_map t.fd mapped_fd
    let t = record t { vfd = vfd; mapped_fd = pos mapped_fd }
    let g = record g { vfds = vfds; vfd_buffer = vfd_buffer; num_mapped_fds = mapped_fd }
    ok (t, put_process t g (record gp { vfd_map = vfd_map; fd_map = fd_map }))

  -- `gprocess_create_vfd_by_realfd`, for a task with this path
  unfoldable pub create_vfd_by_realfd :
      Task → Generator paths → Bytes → Outcome (Task × Generator paths)
  create_vfd_by_realfd t g path = if ltz t.fd (pos 0) then ok (t, g) else do
    let gp = process_at g.gprocesses t.gprocess
    old_mapped ← HMap.get long_key gp.fd_map t.fd
    (t, g) ← if old_mapped == 0 then ok (t, g) else insert_close t g old_mapped
    map_fd t g path

  -- `gprocess_vfd_by_realfd`; `false` is ERROR.
  unfoldable pub vfd_by_realfd : Task → Generator paths → Outcome (Bool × Task)
  vfd_by_realfd t g = do
    let gp = process_at g.gprocesses t.gprocess
    mapped_fd ← HMap.get long_key gp.fd_map t.fd
    let t = record t { mapped_fd = pos mapped_fd }
    if mapped_fd == 0 then ok (true, record t { has_fd = false }) else do
      vfd ← HMap.get long_key gp.vfd_map (pos mapped_fd)
      let t = record t { vfd = vfd }
      if vfd == 0
          then ok (false, t)
          else ok (true, record t { mapped_fd = pos (vfd_at g.vfds vfd).mapped_fd })
