-- ===== src/Replay/Threads/Replayed.antt =====
-- The tasks of a .replay file that its workers (ioriot/src/replay/rworker.c) and their threads
-- (rthread.c) have run.
use ioriot.Prelude.{
  ℕ, ◌%◌, ◌<◌, ◌≡◌, refl, ap, sym, subst, ◌∙◌, List, [], ◌∷◌, ◌++◌, Bool, true, false, ◌==◌, arith,
  inl, inr, Bool-cases,
}
use ioriot.Text.{Bytes}
use ioriot.Replay.Lines.{RTask, process_lines}
use ioriot.Replay.Lines.Dispatch.{tasks_of, process_lines-tasks_of}
use ioriot.Replay.Threads.{Worker, Run}
use ioriot.Replay.Threads.Order.{of}
use ioriot.Replay.Threads.Progress.{Finished}
use ioriot.Replay.Threads.Runs.{Run-of}

self_eq : (n : ℕ) → (n == n) ≡ true
self_eq n = ground arith

same_eq : (a b : ℕ) → (a == b) ≡ true → a ≡ b
same_eq a b e = ground (arith, e)

other_eq : (n w a v : ℕ) → ((a % n) == w) ≡ true → ((v % n) == w) ≡ false → (a == v) ≡ false
other_eq n w a v e f = elim (Bool-cases (a == v)) [
  | inl g ↦
      let moved : ((v % n) == w) ≡ true =
        subst (λ (x : ℕ). ((x % n) == w) ≡ true) (same_eq a v g) e in
      absurd (ground (arith, moved, f))
  | inr g ↦ g
]

-- The worker of a virtual size has all its tasks, and another one none.
of-tasks_of : (n v : ℕ) (tasks : List RTask) → of v (tasks_of n (v % n) tasks) ≡ of v tasks
of-tasks_of n v [] = refl
of-tasks_of n v (task ∷ tasks) = elim (Bool-cases (task.vsize == v)) [
  | inl e ↦
      let mine : ((task.vsize % n) == (v % n)) ≡ true =
        rw (same_eq task.vsize v e) (self_eq (v % n)) in
      rw (mine, e) (ap (λ (r : List RTask). task ∷ r) (of-tasks_of n v tasks))
  | inr e ↦ elim (Bool-cases ((task.vsize % n) == (v % n))) [
    | inl mine ↦ rw (mine, e) (of-tasks_of n v tasks)
    | inr other ↦ rw (other, e) (of-tasks_of n v tasks)
  ]
]

of-tasks_of_other :
    (n w v : ℕ) (tasks : List RTask) → ((v % n) == w) ≡ false → of v (tasks_of n w tasks) ≡ []
of-tasks_of_other n w v [] h = refl
of-tasks_of_other n w v (task ∷ tasks) h = elim (Bool-cases ((task.vsize % n) == w)) [
  | inl mine ↦
      let not_v : (task.vsize == v) ≡ false = other_eq n w task.vsize v mine h in
      rw (mine, not_v) (of-tasks_of_other n w v tasks h)
  | inr other ↦ rw other (of-tasks_of_other n w v tasks h)
]

nothing-append : (xs ys : List RTask) → [] ≡ xs ++ ys → xs ≡ []
nothing-append [] ys e = refl
nothing-append (task ∷ xs) ys e = absurd (ground (arith, e))

-- Of the workers of a .replay file that can be read to its end, each in any state that it and its
-- threads reach, in whatever order they act: the worker whose number is the remainder of a virtual
-- size by the number of workers has run the tasks of this virtual size in the order of the file and
-- none twice, namely the first ones of the file, and all of them once nothing is left for it to do;
-- no other worker has run one. The thread map has room for the virtual size.
pub replayed-of :
    {num_threads map_size steps : ℕ} {s : Worker} (n lineno w v : ℕ) (lines : List Bytes)
    (tasks : List RTask)
    → 0 < n
    → process_lines 1 0 lineno lines ≡ (tasks, true)
    → v < map_size
    → Run num_threads map_size (process_lines n w lineno lines).0 steps s
    → (((v % n) == w) ≡ true
        → (rest : List RTask) × (of v tasks ≡ of v s.log ++ rest) × (Finished s → rest ≡ []))
      × (((v % n) == w) ≡ false → of v s.log ≡ [])
replayed-of {s = s} n lineno w v lines tasks positive e h run =
    let (own, _) = process_lines-tasks_of n lineno lines tasks positive e in
    let mine : (process_lines n w lineno lines).0 ≡ tasks_of n w tasks =
      ap (λ (r : List RTask × Bool). r.0) (own w) in
    let (rest, split, done) = Run-of v h run in
    (
      λ same.
          let w_eq : v % n ≡ w = same_eq (v % n) w same in
          (
            rest,
            sym (of-tasks_of n v tasks)
                ∙ ap (λ (x : ℕ). of v (tasks_of n x tasks)) w_eq
                ∙ sym (ap (of v) mine)
                ∙ split,
            done,
          ),
      λ other.
          nothing-append (of v s.log) rest
            (sym (of-tasks_of_other n w v tasks other) ∙ sym (ap (of v) mine) ∙ split),
    )
