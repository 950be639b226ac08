-- ===== src/Replay/Lines/Dispatch.antt =====
-- How the workers of ioriot/src/replay/rworker.c share the lines of a .replay file.
use ioriot.Prelude.{
  ℕ, ◌+◌, ◌%◌, ◌<◌, ◌≡◌, refl, ap, ◌∙◌, List, [], ◌∷◌, Bool, true, false, not, ◌==◌, leb, length,
  if◌then◌else◌, Option, some, none, arith, inl, inr, Bool-cases, ℤ,
}
use native.Mathlib.Nat.{mod-lt}
use ioriot.Text.{Bytes, before_first}
use ioriot.Mounts.Normal.{All}
use ioriot.Replay.Lines.{
  RTask, time_and_vsize, with_pid, take_line, process_lines, byte_is, max_line_len,
}

-- The tasks of one worker
abbrev pub tasks_of : ℕ → ℕ → List RTask → List RTask
tasks_of num_workers rworker_num [] = []
tasks_of num_workers rworker_num (task ∷ tasks) =
    let rest = tasks_of num_workers rworker_num tasks in
    if (task.vsize % num_workers) == rworker_num then task ∷ rest else rest

-- A list of tasks is the shared one
abbrev Shares : ℕ → ℕ → List RTask × Bool → List RTask × Bool → Type 0
Shares n w all own = all.1 ≡ true → own ≡ (tasks_of n w all.0, true)

if-Shares :
    (n w : ℕ) (b : Bool) (all own all' own' : List RTask × Bool)
    → Shares n w all own
    → Shares n w all' own'
    → Shares n w (if b then all else all') (if b then own else own')
if-Shares n w true all own all' own' h k = h
if-Shares n w false all own all' own' h k = k

with_pid-Shares :
    (n w lineno vsize : ℕ) (time : ℤ) (o : Option (Bytes × Bytes)) (all own : List RTask × Bool)
    → Shares n w all own
    → Shares n w
        (with_pid time vsize lineno o all)
        (if not ((vsize % n) == w) then own else with_pid time vsize lineno o own)
with_pid-Shares n w lineno vsize time none all own h = λ whole. absurd (ground (arith, whole))
with_pid-Shares n w lineno vsize time (some (pid, line)) all own h = λ whole.
    elim (Bool-cases ((vsize % n) == w)) [
      | inl e ↦ rw e (
          ap (λ (r : List RTask × Bool). with_pid time vsize lineno (some (pid, line)) r) (h whole))
      | inr e ↦ rw e (h whole)
    ]

take_line-Shares :
    (n w lineno : ℕ) (o : Option (ℤ × ℕ × Bytes)) (all own : List RTask × Bool)
    → Shares n w all own
    → Shares n w (take_line 1 0 lineno o all) (take_line n w lineno o own)
take_line-Shares n w lineno none all own h = λ whole. absurd (ground (arith, whole))
take_line-Shares n w lineno (some (time, vsize, next2)) all own h =
    let mine : ((vsize % 1) == 0) ≡ true = ground arith in
    rw mine (with_pid-Shares n w lineno vsize time (before_first b'|' next2) all own h)

process_lines-Shares :
    (n w lineno : ℕ) (lines : List Bytes)
    → Shares n w (process_lines 1 0 lineno lines) (process_lines n w lineno lines)
unfolding process_lines
process_lines-Shares n w lineno [] = λ whole. refl
process_lines-Shares n w lineno (line ∷ lines) =
    let rest = process_lines-Shares n w (lineno + 1) lines in
    if-Shares n w (leb max_line_len (length line)) _ _ _ _ (λ whole. absurd (ground (arith, whole)))
      (if-Shares n w (byte_is 0 line b'#') _ _ _ _
        (if-Shares n w (byte_is 1 line b'I') _ _ _ _ (λ whole. refl) rest)
        (take_line-Shares n w (lineno + 1) (time_and_vsize line) _ _ rest))

below-All : (n : ℕ) (tasks : List RTask) → 0 < n → All (λ task. task.vsize % n < n) tasks
below-All n [] h = tt
below-All n (task ∷ tasks) h = (mod-lt task.vsize h, below-All n tasks h)

-- Where a single worker reads a .replay file to its end, each of several workers does so, too, and
-- takes just those of its tasks, in their order, whose virtual size leaves the worker's number as
-- its remainder. Every task so has one worker, all tasks of a virtual size the same one.
pub process_lines-tasks_of :
    (n lineno : ℕ) (lines : List Bytes) (tasks : List RTask)
    → 0 < n
    → process_lines 1 0 lineno lines ≡ (tasks, true)
    → ((w : ℕ) → process_lines n w lineno lines ≡ (tasks_of n w tasks, true))
      × All (λ task. task.vsize % n < n) tasks
process_lines-tasks_of n lineno lines tasks h e = (
  λ w.
      process_lines-Shares n w lineno lines (ap (λ (r : List RTask × Bool). r.1) e)
      ∙ ap (λ (r : List RTask × Bool). (tasks_of n w r.0, true)) e,
  below-All n tasks h,
)
