-- ===== src/Replay/Threads.antt =====
-- The threads of a worker: `rworker_process_lines` of ioriot/src/replay/rworker.c, which hands each
-- task to a thread, and `rthread_pthread_start` of rthread.c, which runs them. A ring buffer is the
-- list of what it holds, with the number that it has room for. What another thread does between a
-- test and the act that it allows is left open: a thread may put itself into the buffer of idle
-- threads though a task has just come in, and a thread is created though one has just become idle.
pub mod Order
pub mod Histories
pub mod Processing
pub mod Invariant
pub mod Family
pub mod Progress
pub mod Runs
pub mod Replayed
use ioriot.Prelude.{
  ℕ, suc, ◌+◌, ◌<◌, ◌≡◌, List, [], ◌∷◌, ◌++◌, Bool, true, false, ◌==◌, ltb, length, if◌then◌else◌,
  Option, some, none,
}
use ioriot.Replay.Lines.{RTask}

-- What `rthread_s` has of tasks, and whether the thread is behind its first wait
pub record Thread : Type 0 where
  pub queue : List RTask
  pub hand : Option RTask
  pub busy : Bool

-- What the worker is about: the next line, or to pass a task to a thread
pub data Phase : Type 0 where
  ready : Phase
  holding : RTask → ℕ → Phase

-- `rworker_s`: the tasks of the lines that are left, the threads in the order of their creation,
-- `rthread_map`, `rthread_buffer`, and the tasks that were run, the last one at the end
pub record Worker : Type 0 where
  pub todo : List RTask
  pub phase : Phase
  pub count : ℕ
  pub threads : ℕ → Thread
  pub rthread_map : ℕ → Option ℕ
  pub rthread_buffer : List ℕ
  pub log : List RTask

abbrev pub update {ℓ} : {A : Type ℓ} → (ℕ → A) → ℕ → A → ℕ → A
update f i a j = if i == j then a else f j

-- `rthread_new`
abbrev pub rthread_new : Thread
rthread_new = record { queue = []; hand = none; busy = false }

-- At the start
abbrev pub worker_new : List RTask → Worker
worker_new tasks = record {
  todo = tasks;
  phase = ready;
  count = 0;
  threads = λ t. rthread_new;
  rthread_map = λ v. none;
  rthread_buffer = [];
  log = [];
}

-- `TASK_BUFFER_PER_THREAD`: a ring buffer of that size has room for one less.
abbrev pub task_room : ℕ
task_room = 511

-- `amap_set(w->rthread_map, vsize_id, t)`: beyond the size of the map, nothing is kept.
abbrev pub map_thread : ℕ → ℕ → ℕ → Worker → Worker
map_thread map_size v t s = record s {
  rthread_map = if ltb v map_size then update s.rthread_map v (some t) else s.rthread_map;
}

abbrev pub hold : RTask → List RTask → ℕ → Worker → Worker
hold task rest t s = record s { todo = rest; phase = holding task t }

abbrev pub put_thread : ℕ → Thread → Worker → Worker
put_thread t thread s = record s { threads = update s.threads t thread }

-- The steps of a worker with several threads, whose threads are those below `count`
pub data WorkerStep (num_threads map_size : ℕ) : Worker → Worker → Type 0 where
  find :
      (s : Worker) (task : RTask) (rest : List RTask) (t : ℕ)
      → s.phase ≡ ready
      → s.todo ≡ task ∷ rest
      → s.rthread_map task.vsize ≡ some t
      → WorkerStep num_threads map_size s (hold task rest t s)
  reuse :
      (s : Worker) (task : RTask) (rest : List RTask) (t : ℕ) (others : List ℕ)
      → s.phase ≡ ready
      → s.todo ≡ task ∷ rest
      → s.rthread_map task.vsize ≡ none
      → s.rthread_buffer ≡ t ∷ others
      → WorkerStep num_threads map_size s (
          hold task rest t
            (map_thread map_size task.vsize t (record s { rthread_buffer = others })))
  create :
      (s : Worker) (task : RTask) (rest : List RTask)
      → s.phase ≡ ready
      → s.todo ≡ task ∷ rest
      → s.rthread_map task.vsize ≡ none
      → s.count < num_threads
      → WorkerStep num_threads map_size s (
          hold task rest s.count (
            map_thread map_size task.vsize s.count
              (put_thread s.count rthread_new (record s { count = s.count + 1 }))))
  insert :
      (s : Worker) (task : RTask) (t : ℕ)
      → s.phase ≡ holding task t
      → length (s.threads t).queue < task_room
      → WorkerStep num_threads map_size s (
          put_thread t
            (record (s.threads t) { queue = (s.threads t).queue ++ task ∷ [] })
            (record s { phase = ready }))

-- The steps of its threads: `rthread_pthread_start`
pub data ThreadStep (num_threads : ℕ) : Worker → Worker → Type 0 where
  get_next :
      (s : Worker) (t : ℕ) (task : RTask) (queue : List RTask)
      → t < s.count
      → (s.threads t).hand ≡ none
      → (s.threads t).queue ≡ task ∷ queue
      → ThreadStep num_threads s
          (put_thread t (record { queue = queue; hand = some task; busy = true }) s)
  process :
      (s : Worker) (t : ℕ) (task : RTask)
      → t < s.count
      → (s.threads t).hand ≡ some task
      → ThreadStep num_threads s (
          put_thread t
            (record (s.threads t) { hand = none })
            (record s { log = s.log ++ task ∷ [] }))
  idle :
      (s : Worker) (t : ℕ)
      → t < s.count
      → (s.threads t).hand ≡ none
      → (s.threads t).busy ≡ true
      → length s.rthread_buffer + 1 < num_threads
      → ThreadStep num_threads s (
          put_thread t
            (record (s.threads t) { busy = false })
            (record s { rthread_buffer = s.rthread_buffer ++ t ∷ [] }))

pub data Step (num_threads map_size : ℕ) : Worker → Worker → Type 0 where
  by_worker : {s u : Worker} → WorkerStep num_threads map_size s u → Step num_threads map_size s u
  by_thread : {s u : Worker} → ThreadStep num_threads s u → Step num_threads map_size s u

-- So many steps lead from the start to a state.
pub data Run (num_threads map_size : ℕ) (tasks : List RTask) : ℕ → Worker → Type 0 where
  start : Run num_threads map_size tasks 0 (worker_new tasks)
  next :
      {n : ℕ} {s u : Worker}
      → Run num_threads map_size tasks n s
      → Step num_threads map_size s u
      → Run num_threads map_size tasks (suc n) u
