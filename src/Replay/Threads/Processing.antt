-- ===== src/Replay/Threads/Processing.antt =====
-- A thread runs the task in its hand (ioriot/src/replay/rthread.c).
use ioriot.Prelude.{
  ℕ, ◌<◌, ◌≡◌, ◌≢◌, refl, ap, sym, subst, ◌∙◌, List, [], ◌∷◌, ◌++◌, ◌==◌, Option, some, none, arith,
  inl, inr, Bool-cases,
}
use mathlib.Core.List.{append_assoc}
use ioriot.Replay.Lines.{RTask}
use ioriot.Replay.Threads.{Worker, update, put_thread}
use ioriot.Replay.Threads.Order.{
  of, of-append, flight, held, mapped, pending, InOrder, update_other,
}

of-head :
    (v : ℕ) (task : RTask) (queue : List RTask)
    → of v (task ∷ []) ++ of v queue ≡ of v (task ∷ queue)
of-head v task queue = elim (Bool-cases (task.vsize == v)) [ inl e ↦ rw e refl | inr e ↦ rw e refl ]

of-tail :
    (v : ℕ) (task : RTask) (queue : List RTask)
    → of v (task ∷ queue) ≡ []
    → (of v queue ≡ []) × (of v (task ∷ []) ≡ [])
of-tail v task queue h = elim (Bool-cases (task.vsize == v)) [
  | inl e ↦ absurd (ground (arith, h, e))
  | inr e ↦ (ground (arith, h, e), rw e refl)
]

module _ (map_size : ℕ) (tasks : List RTask) (s : Worker) (k : InOrder map_size tasks s) where
  processed :
      (task : RTask) (t v : ℕ)
      → (s.threads t).hand ≡ some task
      → of v (flight (s.threads t)) ≡ of v (task ∷ (s.threads t).queue)
  processed task t v p = rw p refl

  process-alone :
      (task : RTask) (t v j : ℕ)
      → (s.threads t).hand ≡ some task
      → v < map_size
      → s.rthread_map v ≢ some j
      → of v (flight (update s.threads t (record (s.threads t) { hand = none }) j)) ≡ []
  process-alone task t v j p h n = elim (Bool-cases (t == j)) [
    | inl e ↦
        let same : t ≡ j = ground (arith, e) in
        let not_mapped : s.rthread_map v ≢ some t =
          subst (λ (i : ℕ). s.rthread_map v ≢ some i) (sym same) n in
        rw e
          (of-tail v task (s.threads t).queue
            (sym (processed task t v p) ∙ k.alone v t h not_mapped)).0
    | inr e ↦ rw e (k.alone v j h n)
  ]

  process-mapped :
      (task : RTask) (t v : ℕ) (o : Option ℕ)
      → (s.threads t).hand ≡ some task
      → v < map_size
      → s.rthread_map v ≡ o
      → mapped v o s.threads
        ≡ of v (task ∷ []) ++ mapped v o (update s.threads t (record (s.threads t) { hand = none }))
  process-mapped task t v none p h e =
      rw
        (of-tail v task (s.threads t).queue
          (sym (processed task t v p) ∙ k.alone v t h (λ z. ground (arith, e, z)))).1
        refl
  process-mapped task t v (some j) p h e = elim (Bool-cases (t == j)) [
    | inl f ↦
        let same : t ≡ j = ground (arith, f) in
        rw f (
          sym (ap (λ (i : ℕ). of v (flight (s.threads i))) same)
          ∙ processed task t v p
          ∙ sym (of-head v task (s.threads t).queue))
    | inr f ↦
        rw
          (
            f,
            (of-tail v task (s.threads t).queue
                (sym (processed task t v p) ∙ k.alone v t h (λ z. ground (arith, e, z, f)))).1,
          )
          refl
  ]

  pub process-InOrder :
      (t : ℕ) (task : RTask)
      → t < s.count
      → (s.threads t).hand ≡ some task
      → InOrder map_size tasks (
          put_thread t
            (record (s.threads t) { hand = none })
            (record s { log = s.log ++ task ∷ [] }))
  process-InOrder t task below p = record {
    alone = λ v j h n. process-alone task t v j p h n;
    passed = k.passed;
    whole = λ v h.
        k.whole v h
        ∙ ap (λ (x : List RTask). of v s.log ++ (x ++ (of v (held s.phase) ++ of v s.todo)))
            (process-mapped task t v (s.rthread_map v) p h refl)
        ∙ ap (λ (x : List RTask). of v s.log ++ x) (append_assoc (of v (task ∷ [])) _ _)
        ∙ sym (append_assoc (of v s.log) (of v (task ∷ [])) _)
        ∙ ap
            (λ (x : List RTask).
              x ++ pending v (put_thread t (record (s.threads t) { hand = none }) s))
            (sym (of-append v s.log (task ∷ [])));
    blank = λ j h.
        rw
          (update_other s.threads t j (record (s.threads t) { hand = none })
            (omega (arith, h, below)))
          (k.blank j h);
  }
