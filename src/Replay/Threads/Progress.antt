-- ===== src/Replay/Threads/Progress.antt =====
-- A worker and its threads are never stuck (ioriot/src/replay/rworker.c, rthread.c).
use ioriot.Prelude.{
  ℕ, zero, suc, ◌≤◌, ◌<◌, ◌≡◌, ◌⊎◌, refl, List, [], ◌∷◌, true, ◌==◌, none, arith, inl, inr,
  Option-cases, Bool-cases,
}
use native.Mathlib.Decide.{dec_lt}
use ioriot.Replay.Lines.{RTask}
use ioriot.Replay.Threads.{
  Phase, ready, holding, Worker, Step, by_worker, by_thread, find, reuse, create, insert, get_next,
  process, idle,
}
use ioriot.Replay.Threads.Order.{flight}
use ioriot.Replay.Threads.Invariant.{Placed}

list_cases {ℓ} :
    {A : Type ℓ} (xs : List A) → (xs ≡ []) ⊎ ((x : A) × (rest : List A) × (xs ≡ x ∷ rest))
list_cases [] = inl refl
list_cases (x ∷ rest) = inr (x, rest, refl)

-- Nothing is left to do.
abbrev pub Finished : Worker → Type 0
Finished s = (s.phase ≡ ready) × (s.todo ≡ []) × ((t : ℕ) → t < s.count → flight (s.threads t) ≡ [])

-- A thread does something, or none has a task.
look :
    (num_threads map_size : ℕ) (s : Worker) (n : ℕ)
    → n ≤ s.count
    → ((u : Worker) × Step num_threads map_size s u)
      ⊎ ((t : ℕ) → t < n → ((s.threads t).hand ≡ none) × ((s.threads t).queue ≡ []))
look num_threads map_size s zero h = inr (λ t below. absurd (omega (arith, below)))
look num_threads map_size s (suc n) h = elim (look num_threads map_size s n (omega (arith, h))) [
  | inl step ↦ inl step
  | inr quiet ↦ elim (Option-cases (s.threads n).hand) [
    | inl p ↦ elim (list_cases (s.threads n).queue) [
      | inl q ↦ inr (λ t below. elim (Bool-cases (t == n)) [
        | inl e ↦ let same : t ≡ n = ground (arith, e) in rw same (p, q)
        | inr e ↦ quiet t (ground (arith, e, below))
      ])
      | inr (task, queue, q) ↦ inl (_, by_thread (get_next s n task queue (omega (arith, h)) p q))
    ]
    | inr (task, p) ↦ inl (_, by_thread (process s n task (omega (arith, h)) p))
  ]
]

Quiet : Worker → Type 0
Quiet s = (t : ℕ) → t < s.count → ((s.threads t).hand ≡ none) × ((s.threads t).queue ≡ [])

full_idle :
    (num_threads map_size : ℕ) (s : Worker)
    → Placed num_threads s
    → 2 ≤ num_threads
    → Quiet s
    → s.phase ≡ ready
    → s.rthread_buffer ≡ []
    → num_threads ≤ s.count
    → (u : Worker) × Step num_threads map_size s u
unfolding Quiet
full_idle num_threads map_size s k two quiet p b full =
    let below : 0 < s.count = omega (arith, two, full) in
    let busy : (s.threads 0).busy ≡ true =
      ground (arith, k.none_lost 0 below, p, b, (quiet 0 below).1) in
    (_, by_thread (idle s 0 below (quiet 0 below).0 busy (rw b (omega (arith, two)))))

give :
    (num_threads map_size : ℕ) (s : Worker)
    → Placed num_threads s
    → 2 ≤ num_threads
    → Quiet s
    → (task : RTask) (rest : List RTask) → s.phase ≡ ready
    → s.todo ≡ task ∷ rest
    → (u : Worker) × Step num_threads map_size s u
give num_threads map_size s k two quiet task rest p q =
    elim (Option-cases (s.rthread_map task.vsize)) [
      | inl e ↦ elim (list_cases s.rthread_buffer) [
        | inl b ↦ elim (dec_lt s.count num_threads) [
          | yes more ↦ (_, by_worker (create s task rest p q e more))
          | no full ↦ full_idle num_threads map_size s k two quiet p b (omega (arith, full))
        ]
        | inr (t, others, b) ↦ (_, by_worker (reuse s task rest t others p q e b))
      ]
      | inr (t, e) ↦ (_, by_worker (find s task rest t p q e))
    ]

phase_cases :
    (phase : Phase) → (phase ≡ ready) ⊎ ((task : RTask) × (t : ℕ) × (phase ≡ holding task t))
phase_cases ready = inl refl
phase_cases (holding task t) = inr (task, t, refl)

pub advance :
    (num_threads map_size : ℕ) (s : Worker)
    → Placed num_threads s
    → 2 ≤ num_threads
    → Finished s ⊎ ((u : Worker) × Step num_threads map_size s u)
unfolding Quiet
advance num_threads map_size s k two = elim (look num_threads map_size s s.count (omega arith)) [
  | inl step ↦ inr step
  | inr quiet ↦ elim (phase_cases s.phase) [
    | inl p ↦ elim (list_cases s.todo) [
      | inl q ↦ inl (p, q, λ t h. rw ((quiet t h).0, (quiet t h).1) refl)
      | inr (task, rest, q) ↦ inr (give num_threads map_size s k two quiet task rest p q)
    ]
    | inr (task, t, p) ↦
        inr (_, by_worker (insert s task t p (rw ((quiet t (k.given task t p)).1) (omega arith))))
  ]
]
