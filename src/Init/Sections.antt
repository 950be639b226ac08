-- ===== src/Init/Sections.antt =====
-- All lines of the INIT section for a file (ioriot/src/generate/generate.c), as
-- ioriot/src/init/init.c reads them.
use ioriot.Prelude.{
  ◌≡◌, refl, ap, sym, ◌∙◌, List, [], ◌∷◌, Bool, true, false, not, ◌&&◌, ◌||◌, is_nil, if◌then◌else◌,
  Option, some, none, arith, inl, inr, Bool-cases, ℤ, pos, ltz, lez, ◌+ℤ◌, ◌-ℤ◌, ◌<ℤ◌, ok,
}
use mathlib.Core.List.{append-nil}
use ioriot.Datas.BTree.{BTree, run_cb2_r}
use ioriot.Datas.BTree.Ranges.{within}
use ioriot.Generate.DataRange.{asks_for}
use ioriot.Generate.Print.{barred}
use ioriot.Generate.State.{Vsize}
use ioriot.Generate.Section.{init_words, write_data, write_init_cb}
use ioriot.Init.Covered.{IsNeeded, file_task}
use ioriot.Init.Lines.{ITask, lines_of, tasks_of, init_tasks}
use ioriot.Prelude.Long.{pos_part, neg_part}
use ioriot.Prelude.{ltz_cases, lez_cases, +ℤ_parts, eq_of_parts}
use ioriot.Mounts.Normal.{All}
use ioriot.Text.{Bytes}
use ioriot.Text.Numbers.{long_bound}
use ioriot.Init.Ranges.{
  FitsLong, range_tasks, nat_of, line-tasks, ranges-tasks, asked_by, asked_by-ranges,
  in_ranges-run_cb2,
}

-- The tasks of a file that has ranges, or only a size
abbrev pub data_tasks : Vsize → Option BTree → List ITask
data_tasks v (some ranges) = range_tasks v (run_cb2_r ranges.root)
data_tasks v none = if lez (pos 0) v.bytes then file_task v (pos 0) v.bytes ∷ [] else []

-- The numbers of a file that are written
abbrev pub DataFits : ℤ → Option BTree → Type 0
DataFits size (some ranges) = All FitsLong (run_cb2_r ranges.root)
DataFits size none = size <ℤ pos long_bound

data-tasks :
    (v : Vsize) (ranges : Option BTree)
    → IsNeeded v
    → DataFits v.bytes ranges
    → tasks_of (lines_of (write_data v ranges)) ≡ ok (data_tasks v ranges)
unfolding lines_of tasks_of long_bound
data-tasks v (some ranges) k h = ranges-tasks v (run_cb2_r ranges.root) k h
data-tasks v none k h = elim (Bool-cases (lez (pos 0) v.bytes)) [
  | inl e ↦
      let (b, q) = nat_of v.bytes (ground (arith, lez_cases (pos 0) v.bytes, e)) in
      rw e (
        ap (λ (s : Bytes). tasks_of (lines_of s))
          (sym (append-nil (barred (init_words v (pos 0) v.bytes []))))
        ∙ line-tasks v (pos 0) v.bytes 0 b [] [] k refl q (omega (arith, h, ap pos_part q))
            (omega (arith, h, ap pos_part q, ap neg_part q)) refl)
  | inr e ↦ rw e refl
]

first_place : (size : ℤ) → pos 0 +ℤ size ≡ size
first_place size = eq_of_parts (pos 0 +ℤ size) size (omega (arith, +ℤ_parts (pos 0) size))

or_false : (b : Bool) → (b || false) ≡ b
or_false true = refl
or_false false = refl

no_place : (size p : ℤ) → lez (pos 0) size ≡ false → within p (pos 0) size ≡ false
no_place size p e = ground (arith, e, lez_cases (pos 0) size, lez_cases (pos 0) p, ltz_cases p size)

pub asked_by-data :
    (v : Vsize) (ranges : Option BTree) (p : ℤ)
    → asked_by (data_tasks v ranges) p ≡ asks_for v.bytes ranges p
asked_by-data v (some ranges) p =
    asked_by-ranges v (run_cb2_r ranges.root) p ∙ in_ranges-run_cb2 ranges.root p
asked_by-data v none p = elim (Bool-cases (lez (pos 0) v.bytes)) [
  | inl e ↦ rw (e, first_place v.bytes) (or_false (within p (pos 0) v.bytes))
  | inr e ↦ rw e (sym (no_place v.bytes p e))
]

ranges-same :
    (v : Vsize) (ranges : List (ℤ × ℤ))
    → All (λ (task : ITask). (task.path ≡ v.path) × (task.is_file ≡ true)) (range_tasks v ranges)
ranges-same v [] = tt
ranges-same v ((start, end) ∷ ranges) = elim (Bool-cases (ltz (pos 0) (end -ℤ start))) [
  | inl e ↦ rw e ((refl, refl), ranges-same v ranges)
  | inr e ↦ rw e (ranges-same v ranges)
]

data_tasks-same :
    (v : Vsize) (ranges : Option BTree)
    → All (λ (task : ITask). (task.path ≡ v.path) × (task.is_file ≡ true)) (data_tasks v ranges)
data_tasks-same v (some ranges) = ranges-same v (run_cb2_r ranges.root)
data_tasks-same v none = elim (Bool-cases (lez (pos 0) v.bytes)) [
  | inl e ↦ rw e ((refl, refl), tt)
  | inr e ↦ rw e tt
]

needed :
    (a b c : Bool) (link text : Bytes) {tasks : List ITask}
    → a ≡ true
    → b ≡ false
    → c ≡ false
    → tasks_of (lines_of text) ≡ ok tasks
    → tasks_of (lines_of (if a && not b then (if c then link else text) else [])) ≡ ok tasks
needed a b c link text p q r e = rw (p, q, r) e

-- The lines that the generator writes for a regular file that the replay needs are read by the
-- initialiser as tasks, all for this file, that ask together for those positions that the generator
-- has recorded, and for no others: where the path is not empty and holds neither a bar nor a
-- newline, and the numbers fit a `long` and do not lie in front of the file.
pub init_tasks-write_init_cb :
    (v : Vsize)
    → IsNeeded v
    → DataFits v.bytes v.read_ranges
    → (tasks : List ITask) × (init_tasks (write_init_cb v) ≡ ok tasks)
      × ((p : ℤ) → asked_by tasks p ≡ asks_for v.bytes v.read_ranges p)
      × All (λ task. (task.path ≡ v.path) × (task.is_file ≡ true)) tasks
unfolding init_tasks write_init_cb
init_tasks-write_init_cb v k h = (
  data_tasks v v.read_ranges,
  needed v.required (is_nil v.path) v.is_link _ _ k.required k.word.some_byte k.not_link
      (data-tasks v v.read_ranges k h),
  asked_by-data v v.read_ranges,
  data_tasks-same v v.read_ranges,
)
