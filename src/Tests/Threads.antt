-- ===== src/Tests/Threads.antt =====
-- A worker with two threads on two lines of one virtual size (ioriot/src/replay/rworker.c).
use ioriot.Prelude.{
  ℕ, ◌*◌, ◌≤◌, ◌≡◌, ◌⊎◌, refl, List, [], ◌∷◌, ◌++◌, true, length, some, none, arith, pos, ◌%◌, sym,
  subst, Bool, false, ◌==◌,
}
use ioriot.Replay.Lines.{RTask}
use ioriot.Replay.Threads.{
  ready, Worker, rthread_new, worker_new, map_thread, hold, put_thread, Step, by_worker, by_thread,
  find, create, insert, get_next, process, Run, start, next,
}
use ioriot.Replay.Threads.Order.{of}
use ioriot.Replay.Threads.Progress.{Finished}
use ioriot.Replay.Threads.Runs.{Run-ends}
use ioriot.Replay.Threads.Replayed.{replayed-of}
use ioriot.Replay.Lines.{process_lines, time_and_vsize}
use ioriot.Text.{bytes}
use ioriot.Text.Numbers.{strtol, clamp_pos, long_bound}
use ioriot.Tests.Replay
use ioriot.Tests.Replay.{three_lines, lines_run}

abbrev task_at : ℕ → RTask
task_at lineno = record { time = pos 0; vsize = 3; pid = pos 1; lineno = lineno; line = [] }

abbrev two_tasks : List RTask
two_tasks = task_at 1 ∷ task_at 2 ∷ []

abbrev created : Worker
created =
    hold (task_at 1) (task_at 2 ∷ []) 0
      (map_thread 8 3 0 (put_thread 0 rthread_new (record (worker_new two_tasks) { count = 1 })))

abbrev inserted : Worker
inserted =
    put_thread 0 (record rthread_new { queue = task_at 1 ∷ [] }) (record created { phase = ready })

abbrev found : Worker
found = hold (task_at 2) [] 0 inserted

abbrev taken : Worker
taken = put_thread 0 (record { queue = []; hand = some (task_at 1); busy = true }) found

abbrev done : Worker
done =
    put_thread 0 (record { queue = []; hand = none; busy = true })
      (record taken { log = task_at 1 ∷ [] })

five_steps : Run 2 8 two_tasks 5 done
five_steps =
    next
      (next
        (next
          (next
            (next start (
              by_worker (
                create (worker_new two_tasks) (task_at 1) (task_at 2 ∷ []) refl refl refl
                  (omega arith))))
            (by_worker (insert created (task_at 1) 0 refl (omega arith))))
          (by_worker (find inserted (task_at 2) [] 0 refl refl refl)))
        (by_thread (get_next found 0 (task_at 1) [] (omega arith) refl refl)))
      (by_thread (process taken 0 (task_at 1) (omega arith) refl))

-- The second worker of two has the second of the two lines.
abbrev own_task : RTask
own_task = record { time = pos 6; vsize = 8; pid = pos 1; lineno = 3; line = bytes "0|0|30|2|" }

abbrev own_created : Worker
own_created = hold own_task [] 0 (
    map_thread 9 8 0 (put_thread 0 rthread_new (record (worker_new (own_task ∷ [])) { count = 1 })))

abbrev own_inserted : Worker
own_inserted =
    put_thread 0 (record rthread_new { queue = own_task ∷ [] })
      (record own_created { phase = ready })

abbrev own_taken : Worker
own_taken = put_thread 0 (record { queue = []; hand = some own_task; busy = true }) own_inserted

abbrev own_done : Worker
own_done =
    put_thread 0 (record { queue = []; hand = none; busy = true })
      (record own_taken { log = own_task ∷ [] })

four_steps : Run 2 9 (own_task ∷ []) 4 own_done
four_steps =
    next
      (next
        (next
          (next start (
            by_worker
              (create (worker_new (own_task ∷ [])) own_task [] refl refl refl (omega arith))))
          (by_worker (insert own_created own_task 0 refl (omega arith))))
        (by_thread (get_next own_inserted 0 own_task [] (omega arith) refl refl)))
      (by_thread (process own_taken 0 own_task (omega arith) refl))

own_lines : process_lines 2 0 0 three_lines ≡ (own_task ∷ [], true)
unfolding process_lines time_and_vsize strtol clamp_pos long_bound
own_lines = refl

replayed-of_example :
    ((8 % 2 == 0) ≡ true
      → (rest : List RTask) × (of 8 Replay.two_tasks ≡ of 8 own_done.log ++ rest)
        × (Finished own_done → rest ≡ []))
    × ((8 % 2 == 0) ≡ false → of 8 own_done.log ≡ [])
replayed-of_example =
    replayed-of 2 0 0 8 three_lines Replay.two_tasks (omega arith) lines_run (omega arith)
      (subst (λ (own : List RTask × Bool). Run 2 9 own.0 4 own_done) (sym own_lines) four_steps)

Run-ends_example : (5 ≤ 6 * length two_tasks) × (Finished done ⊎ ((u : Worker) × Step 2 8 done u))
Run-ends_example = Run-ends (omega arith) five_steps
