-- ===== src/Replay/Threads/Histories.antt =====
-- The order of the tasks in every history of a worker and its threads
-- (ioriot/src/replay/rworker.c, rthread.c).
use ioriot.Prelude.{
  ℕ, ◌+◌, ◌<◌, ◌≡◌, ◌≢◌, refl, ap, sym, subst, ◌∙◌, List, [], ◌∷◌, ◌++◌, ◌==◌, Option, some, none,
  arith, inl, inr, Bool-cases,
}
use mathlib.Core.List.{append-nil, append_assoc}
use ioriot.Replay.Lines.{RTask}
use ioriot.Replay.Threads.{
  Thread, Phase, ready, holding, Worker, update, rthread_new, map_thread, hold, put_thread,
}
use ioriot.Replay.Threads.Order.{
  of, of-append, flight_of, flight, held, mapped, InOrder, same_flight-InOrder, mapped-InOrder,
  update_other,
}

flight_of-append :
    (hand : Option RTask) (queue : List RTask) (task : RTask)
    → flight_of hand (queue ++ task ∷ []) ≡ flight_of hand queue ++ task ∷ []
flight_of-append none queue task = refl
flight_of-append (some first) queue task = refl

pub flight-next :
    (thread : Thread) (task : RTask) (queue : List RTask)
    → thread.hand ≡ none
    → thread.queue ≡ task ∷ queue
    → flight thread ≡ task ∷ queue
flight-next thread task queue p q = rw (p, q) refl

module _ (map_size : ℕ) (tasks : List RTask) (s : Worker) (k : InOrder map_size tasks s) where
  pub reuse-InOrder :
      (task : RTask) (rest : List RTask) (t : ℕ) (others : List ℕ)
      → s.phase ≡ ready
      → s.todo ≡ task ∷ rest
      → s.rthread_map task.vsize ≡ none
      → InOrder map_size tasks (
          hold task rest t
            (map_thread map_size task.vsize t (record s { rthread_buffer = others })))
  reuse-InOrder task rest t others p q e =
      mapped-InOrder map_size tasks (record s { rthread_buffer = others })
        (record { alone = k.alone; passed = k.passed; whole = k.whole; blank = k.blank }) task rest
        t p q e

  pub create-InOrder :
      (task : RTask) (rest : List RTask)
      → s.phase ≡ ready
      → s.todo ≡ task ∷ rest
      → s.rthread_map task.vsize ≡ none
      → InOrder map_size tasks (
          hold task rest s.count (
            map_thread map_size task.vsize s.count
              (put_thread s.count rthread_new (record s { count = s.count + 1 }))))
  create-InOrder task rest p q e =
      mapped-InOrder map_size tasks
        (put_thread s.count rthread_new (record s { count = s.count + 1 }))
        (same_flight-InOrder map_size tasks s k s.count rthread_new s.rthread_buffer (s.count + 1)
          (sym (k.blank s.count (omega arith))) (omega arith))
        task rest s.count p q e

  alien :
      (task : RTask) (t v : ℕ)
      → s.phase ≡ holding task t
      → v < map_size
      → s.rthread_map v ≢ some t
      → of v (task ∷ []) ≡ []
  alien task t v p h n = elim (Bool-cases (task.vsize == v)) [
    | inl e ↦
        let same : task.vsize ≡ v = ground (arith, e) in
        absurd
          (n (subst (λ (w : ℕ). s.rthread_map w ≡ some t) same (k.passed task t p (rw same h))))
    | inr e ↦ rw e refl
  ]

  inserted :
      (task : RTask) (t v : ℕ)
      → s.phase ≡ holding task t
      → of v (flight (record (s.threads t) { queue = (s.threads t).queue ++ task ∷ [] }))
        ≡ of v (flight (s.threads t)) ++ of v (task ∷ [])
  inserted task t v p =
      ap (of v) (flight_of-append (s.threads t).hand (s.threads t).queue task)
      ∙ of-append v (flight (s.threads t)) (task ∷ [])

  insert-alone :
      (task : RTask) (t v j : ℕ)
      → s.phase ≡ holding task t
      → v < map_size
      → s.rthread_map v ≢ some j
      → of v (
          flight (
            update s.threads t
              (record (s.threads t) { queue = (s.threads t).queue ++ task ∷ [] })
              j))
        ≡ []
  insert-alone task t v j p h n = elim (Bool-cases (t == j)) [
    | inl e ↦
        let same : t ≡ j = ground (arith, e) in
        let not_mapped : s.rthread_map v ≢ some t =
          subst (λ (i : ℕ). s.rthread_map v ≢ some i) (sym same) n in
        rw (e, inserted task t v p, k.alone v t h not_mapped, alien task t v p h not_mapped) refl
    | inr e ↦ rw e (k.alone v j h n)
  ]

  insert-mapped :
      (task : RTask) (t v : ℕ) (o : Option ℕ)
      → s.phase ≡ holding task t
      → v < map_size
      → s.rthread_map v ≡ o
      → mapped v o
          (update s.threads t (record (s.threads t) { queue = (s.threads t).queue ++ task ∷ [] }))
        ≡ mapped v o s.threads ++ of v (task ∷ [])
  insert-mapped task t v none p h e = sym (alien task t v p h (λ z. ground (arith, e, z)))
  insert-mapped task t v (some j) p h e = elim (Bool-cases (t == j)) [
    | inl f ↦ let same : t ≡ j = ground (arith, f) in rw f (inserted task t v p ∙ rw same refl)
    | inr f ↦ rw (f, alien task t v p h (λ z. ground (arith, e, z, f))) (sym (append-nil _))
  ]

  pub insert-InOrder :
      (task : RTask) (t : ℕ)
      → s.phase ≡ holding task t
      → t < s.count
      → InOrder map_size tasks (
          put_thread t
            (record (s.threads t) { queue = (s.threads t).queue ++ task ∷ [] })
            (record s { phase = ready }))
  insert-InOrder task t p below = record {
    alone = λ v j h n. insert-alone task t v j p h n;
    passed = λ other j held_by h. absurd (ground (arith, held_by));
    whole = λ v h.
        k.whole v h
        ∙ ap (λ (x : List RTask). of v s.log ++ x)
            (ap
                (λ (x : Phase).
                  mapped v (s.rthread_map v) s.threads ++ (of v (held x) ++ of v s.todo))
                p
              ∙ sym (
                  append_assoc (mapped v (s.rthread_map v) s.threads) (of v (task ∷ []))
                    (of v s.todo))
              ∙ ap (λ (x : List RTask). x ++ of v s.todo)
                  (sym (insert-mapped task t v (s.rthread_map v) p h refl)));
    blank = λ j h.
        rw
          (update_other s.threads t j
            (record (s.threads t) { queue = (s.threads t).queue ++ task ∷ [] })
            (omega (arith, h, below)))
          (k.blank j h);
  }
