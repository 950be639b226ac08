-- ===== src/Replay/Threads/Runs.antt =====
-- Every history of a worker and its threads (ioriot/src/replay/rworker.c, rthread.c): it runs the
-- tasks of a virtual size in their order, and it comes to its end.
use ioriot.Prelude.{
  ℕ, ◌+◌, ◌*◌, ◌≤◌, ◌<◌, ◌≡◌, ◌⊎◌, refl, sym, List, [], ◌∷◌, ◌++◌, true, false, length, Option,
  some, none, arith,
}
use ioriot.Replay.Lines.{RTask}
use ioriot.Replay.Threads.{
  Thread, Worker, rthread_new, Step, by_worker, by_thread, find, reuse, create, insert, get_next,
  process, idle, Run, start, next,
}
use ioriot.Replay.Threads.Order.{
  of, mapped, pending, InOrder, start-InOrder, same_flight-InOrder, find-InOrder,
}
use ioriot.Replay.Threads.Processing.{process-InOrder}
use ioriot.Replay.Threads.Histories.{reuse-InOrder, create-InOrder, insert-InOrder, flight-next}
use ioriot.Replay.Threads.Invariant.{
  Placed, start-Placed, find-Placed, reuse-Placed, create-Placed, insert-Placed, get_next-Placed,
  process-Placed, idle-Placed,
}
use ioriot.Replay.Threads.Progress.{Finished, advance}
use ioriot.Replay.Threads.Family.{
  work, total-update, total-create, load-insert, load-get_next, load-process, load-idle, total-zero,
}

Step-Placed :
    {num_threads map_size : ℕ} {s u : Worker}
    → Step num_threads map_size s u
    → Placed num_threads s
    → Placed num_threads u
Step-Placed {num_threads} {map_size} (by_worker (find s task rest t p q e)) k =
    find-Placed num_threads map_size s k task rest t p e
Step-Placed {num_threads} {map_size} (by_worker (reuse s task rest t others p q e b)) k =
    reuse-Placed num_threads map_size s k task rest t others p b
Step-Placed {num_threads} {map_size} (by_worker (create s task rest p q e h)) k =
    create-Placed num_threads map_size s k task rest p h
Step-Placed {num_threads} {map_size} (by_worker (insert s task t p h)) k =
    insert-Placed num_threads map_size s k task t p
Step-Placed {num_threads} {map_size} (by_thread (get_next s t task queue h p q)) k =
    get_next-Placed num_threads map_size s k t task queue
Step-Placed {num_threads} {map_size} (by_thread (process s t task h p)) k =
    process-Placed num_threads map_size s k t task p
Step-Placed {num_threads} {map_size} (by_thread (idle s t h p b room)) k =
    idle-Placed num_threads map_size s k t h p

Step-InOrder :
    {num_threads map_size : ℕ} {tasks : List RTask} {s u : Worker}
    → Step num_threads map_size s u
    → Placed num_threads s
    → InOrder map_size tasks s
    → InOrder map_size tasks u
Step-InOrder {map_size = map_size} {tasks = tasks} (by_worker (find s task rest t p q e)) a k =
    find-InOrder map_size tasks s k task rest t p q e
Step-InOrder {map_size = map_size} {tasks = tasks} (by_worker (reuse s task rest t others p q e b))
      a k =
    reuse-InOrder map_size tasks s k task rest t others p q e
Step-InOrder {map_size = map_size} {tasks = tasks} (by_worker (create s task rest p q e h)) a k =
    create-InOrder map_size tasks s k task rest p q e
Step-InOrder {map_size = map_size} {tasks = tasks} (by_worker (insert s task t p h)) a k =
    insert-InOrder map_size tasks s k task t p (a.given task t p)
Step-InOrder {map_size = map_size} {tasks = tasks} (by_thread (get_next s t task queue h p q)) a k =
    same_flight-InOrder map_size tasks s k t
      (record { queue = queue; hand = some task; busy = true }) s.rthread_buffer s.count
      (sym (flight-next (s.threads t) task queue p q)) (omega arith)
Step-InOrder {map_size = map_size} {tasks = tasks} (by_thread (process s t task h p)) a k =
    process-InOrder map_size tasks s k t task h p
Step-InOrder {map_size = map_size} {tasks = tasks} (by_thread (idle s t h p b room)) a k =
    same_flight-InOrder map_size tasks s k t (record (s.threads t) { busy = false })
      (s.rthread_buffer ++ t ∷ []) s.count refl (omega arith)

Step-work :
    {num_threads map_size : ℕ} {s u : Worker}
    → Step num_threads map_size s u
    → Placed num_threads s
    → work u < work s
Step-work (by_worker (find s task rest t p q e)) a = rw (p, q) (omega arith)
Step-work (by_worker (reuse s task rest t others p q e b)) a = rw (p, q) (omega arith)
Step-work (by_worker (create s task rest p q e h)) a =
    rw (p, q, total-create s.count s.threads) (omega arith)
Step-work (by_worker (insert s task t p h)) a =
    let thread : Thread = record (s.threads t) { queue = (s.threads t).queue ++ task ∷ [] } in
    rw p (
      omega (
        arith,
        total-update s.count s.threads t thread (a.given task t p),
        load-insert (s.threads t) task,
      ))
Step-work (by_thread (get_next s t task queue h p q)) a = omega (
  arith,
  total-update s.count s.threads t (record { queue = queue; hand = some task; busy = true }) h,
  load-get_next (s.threads t) task queue q,
)
Step-work (by_thread (process s t task h p)) a = omega (
  arith,
  total-update s.count s.threads t (record (s.threads t) { hand = none }) h,
  load-process (s.threads t) task p,
)
Step-work (by_thread (idle s t h p b room)) a = omega (
  arith,
  total-update s.count s.threads t (record (s.threads t) { busy = false }) h,
  load-idle (s.threads t) b,
)

Run-Placed :
    {num_threads map_size : ℕ} {tasks : List RTask} {n : ℕ} {s : Worker}
    → Run num_threads map_size tasks n s
    → Placed num_threads s
Run-Placed {num_threads} {tasks = tasks} start = start-Placed num_threads tasks
Run-Placed (next run step) = Step-Placed step (Run-Placed run)

Run-InOrder :
    {num_threads map_size : ℕ} {tasks : List RTask} {n : ℕ} {s : Worker}
    → Run num_threads map_size tasks n s
    → InOrder map_size tasks s
Run-InOrder {map_size = map_size} {tasks = tasks} start = start-InOrder map_size tasks
Run-InOrder (next run step) = Step-InOrder step (Run-Placed run) (Run-InOrder run)

Run-work :
    {num_threads map_size : ℕ} {tasks : List RTask} {n : ℕ} {s : Worker}
    → Run num_threads map_size tasks n s
    → n + work s ≤ 6 * length tasks
Run-work start = rw (total-zero (λ t. rthread_new)) (omega arith)
Run-work (next run step) = omega (arith, Run-work run, Step-work step (Run-Placed run))

-- In every state that a worker of at least two threads and its threads reach, in whatever order
-- they act, either nothing is left to do or a step can be taken, and no history has more than six
-- steps for each task.
pub Run-ends :
    {num_threads map_size n : ℕ} {tasks : List RTask} {s : Worker}
    → 2 ≤ num_threads
    → Run num_threads map_size tasks n s
    → (n ≤ 6 * length tasks) × (Finished s ⊎ ((u : Worker) × Step num_threads map_size s u))
Run-ends {num_threads} {map_size} {s = s} h run =
    (omega (arith, Run-work run), advance num_threads map_size s (Run-Placed run) h)

none_pending :
    (v : ℕ) (o : Option ℕ) (s : Worker)
    → Finished s
    → ((t : ℕ) → o ≡ some t → t < s.count)
    → mapped v o s.threads ≡ []
none_pending v none s k below = refl
none_pending v (some t) s (p, q, quiet) below = rw (quiet t (below t refl)) refl

-- In every state that a worker and its threads reach, in whatever order they act, the tasks of a
-- virtual size that the thread map has room for were run in the order of the lines and none twice:
-- those that were run are the first ones of the file, and they are all of them once nothing is
-- left to do.
pub Run-of :
    {num_threads map_size n : ℕ} {tasks : List RTask} {s : Worker} (v : ℕ)
    → v < map_size
    → Run num_threads map_size tasks n s
    → (rest : List RTask) × (of v tasks ≡ of v s.log ++ rest) × (Finished s → rest ≡ [])
Run-of {s = s} v h run = (
  pending v s,
  InOrder.whole (Run-InOrder run) v h,
  λ k.
      rw
        (
          none_pending v (s.rthread_map v) s k (λ t e. Placed.in_map (Run-Placed run) v t e),
          k.0,
          k.1,
        )
        refl,
)
