-- ===== src/Replay/Threads/Family.antt =====
-- What is still to be done by the threads of a worker (ioriot/src/replay/rthread.c), as one number.
use ioriot.Prelude.{
  ℕ, zero, suc, ◌+◌, ◌*◌, ◌≤◌, ◌<◌, ◌≡◌, refl, false, ◌==◌, length, if◌then◌else◌, Option, some,
  none, arith, inl, inr, Bool-cases, List, [], ◌∷◌, ◌++◌, true, length-append,
}
use ioriot.Replay.Lines.{RTask}
use ioriot.Replay.Threads.{rthread_new, Thread, Phase, ready, holding, Worker, update}

abbrev pub in_hand : Option RTask → ℕ
in_hand none = 0
in_hand (some task) = 2

abbrev pub load : Thread → ℕ
load thread = 4 * length thread.queue + in_hand thread.hand + (if thread.busy then 1 else 0)

pub total : ℕ → (ℕ → Thread) → ℕ
total zero f = 0
total (suc n) f = total n f + load (f n)

abbrev pub passing : Phase → ℕ
passing ready = 0
passing (holding task t) = 5

-- How many steps are left at most
abbrev pub work : Worker → ℕ
work s = 6 * length s.todo + passing s.phase + total s.count s.threads

pub total-update_of_le :
    (n : ℕ) (f : ℕ → Thread) (i : ℕ) (a : Thread) → n ≤ i → total n (update f i a) ≡ total n f
unfolding total
total-update_of_le zero f i a h = refl
total-update_of_le (suc n) f i a h =
    let other : (i == n) ≡ false = ground (arith, h) in
    rw (total-update_of_le n f i a (omega (arith, h)), other) refl

pub total-update :
    (n : ℕ) (f : ℕ → Thread) (i : ℕ) (a : Thread)
    → i < n
    → total n (update f i a) + load (f i) ≡ total n f + load a
unfolding total
total-update zero f i a h = absurd (omega (arith, h))
total-update (suc n) f i a h = elim (Bool-cases (i == n)) [
  | inl e ↦
      let same : i ≡ n = ground (arith, e) in
      rw (e, total-update_of_le n f i a (omega (arith, same)), same) (omega arith)
  | inr e ↦ rw e (omega (arith, total-update n f i a (ground (arith, e, h))))
]

pub total-create : (n : ℕ) (f : ℕ → Thread) → total (n + 1) (update f n rthread_new) ≡ total n f
unfolding total
total-create n f = ground (arith, total-update_of_le n f n rthread_new (omega arith))

pub load-insert :
    (thread : Thread) (task : RTask)
    → load (record thread { queue = thread.queue ++ task ∷ [] }) ≡ load thread + 4
load-insert thread task = rw (length-append thread.queue (task ∷ [])) (omega arith)

pub load-get_next :
    (thread : Thread) (task : RTask) (queue : List RTask)
    → thread.queue ≡ task ∷ queue
    → load (record { queue = queue; hand = some task; busy = true }) < load thread
load-get_next thread task queue p = ground (arith, p)

pub load-process :
    (thread : Thread) (task : RTask)
    → thread.hand ≡ some task
    → load (record thread { hand = none }) < load thread
load-process thread task p = ground (arith, p)

pub load-idle :
    (thread : Thread) → thread.busy ≡ true → load (record thread { busy = false }) < load thread
load-idle thread p = ground (arith, p)

pub total-zero : (f : ℕ → Thread) → total 0 f ≡ 0
unfolding total
total-zero f = refl
