-- ===== src/Replay/Threads/Invariant.antt =====
-- Where the threads of a worker are (ioriot/src/replay/rworker.c, rthread.c).
use ioriot.Prelude.{
  ℕ, ◌+◌, ◌≤◌, ◌<◌, ◌≡◌, refl, List, [], ◌∷◌, ◌++◌, Bool, true, false, not, ◌||◌, ◌==◌, is_nil,
  some, none, arith,
}
use ioriot.Replay.Lines.{RTask}
use ioriot.Replay.Threads.{
  Thread, Phase, ready, holding, Worker, rthread_new, worker_new, map_thread, hold, put_thread,
}

abbrev pub mem : ℕ → List ℕ → Bool
mem t [] = false
mem t (x ∷ xs) = x == t || mem t xs

abbrev pub given_to : ℕ → Phase → Bool
given_to t ready = false
given_to t (holding task j) = j == t

-- A thread is behind its wait, has tasks, or can be found by the worker.
abbrev pub cared : ℕ → Thread → Phase → List ℕ → Bool
cared t thread phase buffer =
    thread.busy || not (is_nil thread.queue) || given_to t phase || mem t buffer

pub record Placed (num_threads : ℕ) (s : Worker) : Type 0 where
  pub given : (task : RTask) (t : ℕ) → s.phase ≡ holding task t → t < s.count
  pub in_map : (v t : ℕ) → s.rthread_map v ≡ some t → t < s.count
  pub in_buffer : (t : ℕ) → mem t s.rthread_buffer ≡ true → t < s.count
  pub few : s.count ≤ num_threads
  pub at_work : (t : ℕ) (task : RTask) → (s.threads t).hand ≡ some task → (s.threads t).busy ≡ true
  pub none_lost : (t : ℕ) → t < s.count → cared t (s.threads t) s.phase s.rthread_buffer ≡ true

pub start-Placed : (num_threads : ℕ) (tasks : List RTask) → Placed num_threads (worker_new tasks)
start-Placed num_threads tasks = record {
  given = λ task t e. absurd (ground (arith, e));
  in_map = λ v t e. absurd (ground (arith, e));
  in_buffer = λ t e. absurd (ground (arith, e));
  few = omega arith;
  at_work = λ t task e. absurd (ground (arith, e));
  none_lost = λ t h. absurd (omega (arith, h));
}

mem-append : (t : ℕ) (xs ys : List ℕ) → mem t (xs ++ ys) ≡ (mem t xs || mem t ys)
mem-append t [] ys = refl
mem-append t (x ∷ xs) ys = ground (arith, mem-append t xs ys)

not_nil : (queue : List RTask) (task : RTask) → is_nil (queue ++ task ∷ []) ≡ false
not_nil [] task = refl
not_nil (x ∷ xs) task = refl

module _ (num_threads map_size : ℕ) (s : Worker) (k : Placed num_threads s) where
  pub find-Placed :
      (task : RTask) (rest : List RTask) (t : ℕ)
      → s.phase ≡ ready
      → s.rthread_map task.vsize ≡ some t
      → Placed num_threads (hold task rest t s)
  find-Placed task rest t p e = record {
    given = λ other j h. ground (arith, h, k.in_map task.vsize t e);
    in_map = k.in_map;
    in_buffer = k.in_buffer;
    few = k.few;
    at_work = k.at_work;
    none_lost = λ j h. ground (arith, p, k.none_lost j h);
  }

  pub reuse-Placed :
      (task : RTask) (rest : List RTask) (t : ℕ) (others : List ℕ)
      → s.phase ≡ ready
      → s.rthread_buffer ≡ t ∷ others
      → Placed num_threads (
          hold task rest t
            (map_thread map_size task.vsize t (record s { rthread_buffer = others })))
  reuse-Placed task rest t others p e = record {
    given = λ other j h. ground (arith, h, e, k.in_buffer t);
    in_map = λ v j h. ground (arith, h, e, k.in_buffer t, k.in_map v j);
    in_buffer = λ j h. ground (arith, h, e, k.in_buffer j);
    few = k.few;
    at_work = k.at_work;
    none_lost = λ j h. ground (arith, p, e, k.none_lost j h);
  }

  pub create-Placed :
      (task : RTask) (rest : List RTask)
      → s.phase ≡ ready
      → s.count < num_threads
      → Placed num_threads (
          hold task rest s.count (
            map_thread map_size task.vsize s.count
              (put_thread s.count rthread_new (record s { count = s.count + 1 }))))
  create-Placed task rest p e = record {
    given = λ other j h. ground (arith, h);
    in_map = λ v j h. ground (arith, h, k.in_map v j);
    in_buffer = λ j h. ground (arith, h, k.in_buffer j);
    few = omega (arith, e);
    at_work = λ t other h. ground (arith, h, k.at_work t other);
    none_lost = λ j h. ground (arith, p, k.none_lost j);
  }

  pub insert-Placed :
      (task : RTask) (t : ℕ)
      → s.phase ≡ holding task t
      → Placed num_threads (
          put_thread t
            (record (s.threads t) { queue = (s.threads t).queue ++ task ∷ [] })
            (record s { phase = ready }))
  insert-Placed task t p = record {
    given = λ other j h. absurd (ground (arith, h));
    in_map = k.in_map;
    in_buffer = k.in_buffer;
    few = k.few;
    at_work = λ j other h. ground (arith, h, k.at_work j other, k.at_work t other);
    none_lost = λ j h. ground (arith, p, k.none_lost j h, not_nil (s.threads t).queue task);
  }

  pub get_next-Placed :
      (t : ℕ) (task : RTask) (queue : List RTask)
      → Placed num_threads
          (put_thread t (record { queue = queue; hand = some task; busy = true }) s)
  get_next-Placed t task queue = record {
    given = k.given;
    in_map = k.in_map;
    in_buffer = k.in_buffer;
    few = k.few;
    at_work = λ j other h. ground (arith, h, k.at_work j other);
    none_lost = λ j h. ground (arith, k.none_lost j h);
  }

  pub process-Placed :
      (t : ℕ) (task : RTask)
      → (s.threads t).hand ≡ some task
      → Placed num_threads (
          put_thread t
            (record (s.threads t) { hand = none })
            (record s { log = s.log ++ task ∷ [] }))
  process-Placed t task p = record {
    given = k.given;
    in_map = k.in_map;
    in_buffer = k.in_buffer;
    few = k.few;
    at_work = λ j other h. ground (arith, h, k.at_work j other);
    none_lost = λ j h. ground (arith, k.none_lost j h, k.at_work t task p);
  }

  pub idle-Placed :
      (t : ℕ)
      → t < s.count
      → (s.threads t).hand ≡ none
      → Placed num_threads (
          put_thread t
            (record (s.threads t) { busy = false })
            (record s { rthread_buffer = s.rthread_buffer ++ t ∷ [] }))
  idle-Placed t below p = record {
    given = k.given;
    in_map = k.in_map;
    in_buffer = λ j h. ground (arith, h, k.in_buffer j, mem-append j s.rthread_buffer (t ∷ []));
    few = k.few;
    at_work = λ j other h. ground (arith, h, p, k.at_work j other);
    none_lost = λ j h. ground (arith, k.none_lost j h, mem-append j s.rthread_buffer (t ∷ []));
  }
