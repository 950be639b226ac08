-- ===== src/Replay/Threads/Order.antt =====
-- The order in which the threads of a worker (ioriot/src/replay/rworker.c, rthread.c) run tasks.
use ioriot.Prelude.{
  ℕ, ◌≤◌, ◌<◌, ◌≡◌, ◌≢◌, refl, ap, sym, subst, ◌∙◌, List, [], ◌∷◌, ◌++◌, true, ◌==◌, if◌then◌else◌,
  Option, some, none, arith, inl, inr, Bool-cases,
}
use ioriot.Replay.Lines.{RTask}
use ioriot.Replay.Threads.{
  Thread, Phase, ready, holding, Worker, update, worker_new, map_thread, hold, put_thread,
}

-- The tasks of a virtual size
abbrev pub of : ℕ → List RTask → List RTask
of v [] = []
of v (task ∷ tasks) = if task.vsize == v then task ∷ of v tasks else of v tasks

pub of-append : (v : ℕ) (xs ys : List RTask) → of v (xs ++ ys) ≡ of v xs ++ of v ys
of-append v [] ys = refl
of-append v (task ∷ xs) ys = elim (Bool-cases (task.vsize == v)) [
  | inl e ↦ rw e (ap (λ (r : List RTask). task ∷ r) (of-append v xs ys))
  | inr e ↦ rw e (of-append v xs ys)
]

-- The tasks that a thread has, the one that it runs first
abbrev pub flight_of : Option RTask → List RTask → List RTask
flight_of none queue = queue
flight_of (some task) queue = task ∷ queue

abbrev pub flight : Thread → List RTask
flight thread = flight_of thread.hand thread.queue

abbrev pub held : Phase → List RTask
held ready = []
held (holding task t) = task ∷ []

-- The tasks of a virtual size that are on their way: first those of its thread
abbrev pub mapped : ℕ → Option ℕ → (ℕ → Thread) → List RTask
mapped v none threads = []
mapped v (some t) threads = of v (flight (threads t))

abbrev pub pending : ℕ → Worker → List RTask
pending v s = mapped v (s.rthread_map v) s.threads ++ (of v (held s.phase) ++ of v s.todo)

mapped-same :
    (v : ℕ) (o : Option ℕ) (f g : ℕ → Thread)
    → ((t : ℕ) → flight (g t) ≡ flight (f t))
    → mapped v o g ≡ mapped v o f
mapped-same v none f g h = refl
mapped-same v (some t) f g h = ap (of v) (h t)

-- Of each virtual size that the map has room for: all its tasks are with its thread, or still with
-- the worker, in their order, and a thread that is not its own has none of them.
pub record InOrder (map_size : ℕ) (tasks : List RTask) (s : Worker) : Type 0 where
  pub alone : (v t : ℕ) → v < map_size → s.rthread_map v ≢ some t → of v (flight (s.threads t)) ≡ []
  pub passed :
      (task : RTask) (t : ℕ)
      → s.phase ≡ holding task t
      → task.vsize < map_size
      → s.rthread_map task.vsize ≡ some t
  pub whole : (v : ℕ) → v < map_size → of v tasks ≡ of v s.log ++ pending v s
  pub blank : (t : ℕ) → s.count ≤ t → flight (s.threads t) ≡ []

pub start-InOrder : (map_size : ℕ) (tasks : List RTask) → InOrder map_size tasks (worker_new tasks)
start-InOrder map_size tasks = record {
  alone = λ v t h n. refl;
  passed = λ task t e h. absurd (ground (arith, e));
  whole = λ v h. refl;
  blank = λ t h. refl;
}

-- The worker takes a task from the front of what is left.
taken :
    (v : ℕ) (phase : Phase) (todo : List RTask) (task : RTask) (rest : List RTask)
    → phase ≡ ready
    → todo ≡ task ∷ rest
    → of v (held phase) ++ of v todo ≡ of v (task ∷ []) ++ of v rest
taken v phase todo task rest p q =
    rw (p, q) (elim (Bool-cases (task.vsize == v)) [ inl e ↦ rw e refl | inr e ↦ rw e refl ])

pub update_same {ℓ} : {A : Type ℓ} (f : ℕ → A) (i : ℕ) (a : A) → update f i a i ≡ a
update_same f i a = ground arith

pub update_other {ℓ} : {A : Type ℓ} (f : ℕ → A) (i j : ℕ) (a : A) → i ≢ j → update f i a j ≡ f j
update_other f i j a h = ground (arith, h)

self_eq : (n : ℕ) → (n == n) ≡ true
self_eq n = ground arith

module _ (map_size : ℕ) (tasks : List RTask) (s : Worker) (k : InOrder map_size tasks s) where
  -- A thread changes, but not the tasks that it has.
  pub same_flight-InOrder :
      (t : ℕ) (thread : Thread) (buffer : List ℕ) (count : ℕ)
      → flight thread ≡ flight (s.threads t)
      → s.count ≤ count
      → InOrder map_size tasks
          (put_thread t thread (record s { rthread_buffer = buffer; count = count }))
  same_flight-InOrder t thread buffer count e more =
      let same : (j : ℕ) → flight (update s.threads t thread j) ≡ flight (s.threads j) = λ j.
        elim (Bool-cases (t == j)) [
          | inl f ↦ rw f (e ∙ ap (λ (i : ℕ). flight (s.threads i)) (ground (arith, f)))
          | inr f ↦ rw f refl
        ] in
      record {
        alone = λ v j h n. ap (of v) (same j) ∙ k.alone v j h n;
        passed = k.passed;
        whole = λ v h.
            k.whole v h
            ∙ ap (λ (x : List RTask). of v s.log ++ (x ++ (of v (held s.phase) ++ of v s.todo)))
                (sym (mapped-same v (s.rthread_map v) s.threads (update s.threads t thread) same));
        blank = λ j h. same j ∙ k.blank j (omega (arith, more, h));
      }

  pub find-InOrder :
      (task : RTask) (rest : List RTask) (t : ℕ)
      → s.phase ≡ ready
      → s.todo ≡ task ∷ rest
      → s.rthread_map task.vsize ≡ some t
      → InOrder map_size tasks (hold task rest t s)
  find-InOrder task rest t p q e = record {
    alone = k.alone;
    passed = λ other t' held_by h. cc;
    whole = λ v h.
        k.whole v h
        ∙ ap (λ (x : List RTask). of v s.log ++ (mapped v (s.rthread_map v) s.threads ++ x))
            (taken v s.phase s.todo task rest p q);
    blank = k.blank;
  }

  -- The task's virtual size gets a thread, if the map has room for it.
  map_at :
      (v w t : ℕ)
      → w < map_size
      → (map_thread map_size v t s).rthread_map w ≡ (if v == w then some t else s.rthread_map w)
  map_at v w t h = ground (arith, h)

  unmapped : (v w t : ℕ) → s.rthread_map v ≡ none → (v == w) ≡ true → s.rthread_map w ≢ some t
  unmapped v w t e f z =
      let same : v ≡ w = ground (arith, f) in
      let old : s.rthread_map v ≡ some t = ap s.rthread_map same ∙ z in cc

  mapped-map_thread :
      (v w t : ℕ)
      → s.rthread_map v ≡ none
      → w < map_size
      → mapped w ((map_thread map_size v t s).rthread_map w) s.threads
        ≡ mapped w (s.rthread_map w) s.threads
  mapped-map_thread v w t e h = elim (Bool-cases (v == w)) [
    | inl f ↦
        let same : v ≡ w = ground (arith, f) in
        let old : s.rthread_map w ≡ none = ap s.rthread_map (sym same) ∙ e in
        rw (map_at v w t h, f, old) (k.alone w t h (unmapped v w t e f))
    | inr f ↦ rw (map_at v w t h, f) refl
  ]

  pub mapped-InOrder :
      (task : RTask) (rest : List RTask) (t : ℕ)
      → s.phase ≡ ready
      → s.todo ≡ task ∷ rest
      → s.rthread_map task.vsize ≡ none
      → InOrder map_size tasks (hold task rest t (map_thread map_size task.vsize t s))
  mapped-InOrder task rest t p q e = record {
    alone = λ v j h n. elim (Bool-cases (task.vsize == v)) [
      | inl f ↦ k.alone v j h (unmapped task.vsize v j e f)
      | inr f ↦ k.alone v j h (λ z. n (map_at task.vsize v t h ∙ rw f z))
    ];
    passed = λ other j held_by h.
        let same : other ≡ task = cc in
        let thread : j ≡ t = cc in
        rw (same, thread)
          (map_at task.vsize task.vsize t (subst (λ (x : RTask). x.vsize < map_size) same h)
            ∙ rw (self_eq task.vsize) refl);
    whole = λ v h.
        k.whole v h
        ∙ ap (λ (x : List RTask). of v s.log ++ (mapped v (s.rthread_map v) s.threads ++ x))
            (taken v s.phase s.todo task rest p q)
        ∙ ap (λ (x : List RTask). of v s.log ++ (x ++ (of v (task ∷ []) ++ of v rest)))
            (sym (mapped-map_thread task.vsize v t e h));
    blank = k.blank;
  }
