-- ===== src/Init/Ranges.antt =====
-- The lines of the INIT section for the ranges of a file (ioriot/src/generate/generate.c), as read
-- by ioriot/src/init/init.c.
use ioriot.Prelude.{
  ℕ, ◌<◌, ◌≡◌, refl, ap, ◌∙◌, List, [], ◌∷◌, ◌++◌, Bool, true, false, ◌||◌, if◌then◌else◌, arith,
  inl, inr, Bool-cases, ℤ, pos, negsuc, ltz, ◌+ℤ◌, ◌-ℤ◌, ◌≤ℤ◌, ◌<ℤ◌, ok, ◌>>=◌,
}
use ioriot.Datas.BTree.{Elem, leaf, node, run_cb2_r}
use ioriot.Datas.BTree.Ranges.{within, covers}
use ioriot.Generate.Print.{barred}
use ioriot.Generate.State.{Vsize}
use ioriot.Generate.Section.{flag, init_words, write_ranges_cb, write_ranges}
use ioriot.Init.Covered.{OnLine, IsNeeded, file_task, init_line-file, lines_of-barred}
use ioriot.Init.Lines.{ITask, lines_of, tasks_of}
use ioriot.Prelude.Long.{pos_part, neg_part}
use ioriot.Prelude.{ltz_cases, lez_cases, +ℤ_parts, -ℤ_parts, eq_of_parts}
use ioriot.Mounts.Normal.{All}
use ioriot.Text.{Bytes}
use ioriot.Text.Numbers.{long_bound}
use ioriot.Text.Numbers.Laws.{show_long-lacks_newline}

-- The numbers of a range fit a `long`, and it does not start in front of the file.
abbrev pub FitsLong : ℤ × ℤ → Type 0
FitsLong (start, end) = (pos 0 ≤ℤ start) × (start <ℤ pos long_bound) × (end <ℤ pos long_bound)

abbrev pub range_tasks : Vsize → List (ℤ × ℤ) → List ITask
range_tasks v [] = []
range_tasks v ((start, end) ∷ ranges) =
    if ltz (pos 0) (end -ℤ start)
    then file_task v start (end -ℤ start) ∷ range_tasks v ranges
    else range_tasks v ranges

pub nat_of : (z : ℤ) → pos 0 ≤ℤ z → (n : ℕ) × (z ≡ pos n)
nat_of (pos n) h = (n, refl)
nat_of (negsuc n) h = absurd (omega (arith, h))

size_of :
    (start end : ℤ)
    → ltz (pos 0) (end -ℤ start) ≡ true
    → pos 0 ≤ℤ start
    → end <ℤ pos long_bound
    → (n : ℕ) × (end -ℤ start ≡ pos n) × (n < long_bound)
size_of start end e h k =
    let size : ℤ = end -ℤ start in
    let (n, q) = nat_of size (ground (arith, ltz_cases (pos 0) size, e)) in
    (n, q, omega (arith, ap pos_part q, ap neg_part q, -ℤ_parts end start, h, k))

grown_back : (start end : ℤ) → start +ℤ (end -ℤ start) ≡ end
grown_back start end =
    eq_of_parts (start +ℤ (end -ℤ start)) end
      (omega (arith, +ℤ_parts start (end -ℤ start), -ℤ_parts end start))

empty_range : (start end p : ℤ) → ltz (pos 0) (end -ℤ start) ≡ false → within p start end ≡ false
empty_range start end p e = ground (
  arith,
  e,
  ltz_cases (pos 0) (end -ℤ start),
  -ℤ_parts end start,
  lez_cases start p,
  ltz_cases p end,
)

flag-OnLine : (b : Bool) → OnLine (flag b)
flag-OnLine true = refl
flag-OnLine false = refl

pub line-tasks :
    (v : Vsize) (start size : ℤ) (a b : ℕ) (rest : Bytes) (tasks : List ITask)
    → IsNeeded v
    → start ≡ pos a
    → size ≡ pos b
    → a < long_bound
    → b < long_bound
    → tasks_of (lines_of rest) ≡ ok tasks
    → tasks_of (lines_of (barred (init_words v start size []) ++ rest))
      ≡ ok (file_task v start size ∷ tasks)
unfolding tasks_of ◌>>=◌
line-tasks v start size a b rest tasks k p q m n e =
    ap tasks_of (
      lines_of-barred (init_words v start size []) rest (
        flag-OnLine v.is_dir,
        (
          flag-OnLine v.is_file,
          (
            flag-OnLine v.is_link,
            (show_long-lacks_newline start, (show_long-lacks_newline size, (k.on_line, tt))),
          ),
        ),
      ))
    ∙ rw (p, q) (rw (init_line-file v a b k m n) (rw e refl))

pub ranges-tasks :
    (v : Vsize) (ranges : List (ℤ × ℤ))
    → IsNeeded v
    → All FitsLong ranges
    → tasks_of (lines_of (write_ranges v ranges)) ≡ ok (range_tasks v ranges)
unfolding write_ranges write_ranges_cb lines_of tasks_of
ranges-tasks v [] k h = refl
ranges-tasks v ((start, end) ∷ ranges) k h = elim (Bool-cases (ltz (pos 0) (end -ℤ start))) [
  | inl e ↦
      let (a, p) = nat_of start h.0.0 in
      let (b, q, n) = size_of start end e h.0.0 h.0.2 in
      rw e (
        line-tasks v start (end -ℤ start) a b (write_ranges v ranges) (range_tasks v ranges) k p q
          (omega (arith, h.0.1, ap pos_part p, ap neg_part p)) n (ranges-tasks v ranges k h.1))
  | inr e ↦ rw e (ranges-tasks v ranges k h.1)
]

-- What the tasks of a file ask for at a position
abbrev pub asked_by : List ITask → ℤ → Bool
asked_by [] p = false
asked_by (task ∷ tasks) p = within p task.offset (task.offset +ℤ task.bytes) || asked_by tasks p

abbrev in_ranges : List (ℤ × ℤ) → ℤ → Bool
in_ranges [] p = false
in_ranges ((start, end) ∷ ranges) p = within p start end || in_ranges ranges p

pub asked_by-ranges :
    (v : Vsize) (ranges : List (ℤ × ℤ)) (p : ℤ)
    → asked_by (range_tasks v ranges) p ≡ in_ranges ranges p
asked_by-ranges v [] p = refl
asked_by-ranges v ((start, end) ∷ ranges) p = elim (Bool-cases (ltz (pos 0) (end -ℤ start))) [
  | inl e ↦ rw (e, grown_back start end, asked_by-ranges v ranges p) refl
  | inr e ↦ rw (e, empty_range start end p e) (asked_by-ranges v ranges p)
]

in_ranges-append :
    (xs ys : List (ℤ × ℤ)) (p : ℤ) → in_ranges (xs ++ ys) p ≡ (in_ranges xs p || in_ranges ys p)
in_ranges-append [] ys p = refl
in_ranges-append ((start, end) ∷ xs) ys p = ground (arith, in_ranges-append xs ys p)

pub in_ranges-run_cb2 : (t : Elem) (p : ℤ) → in_ranges (run_cb2_r t) p ≡ covers t p
unfolding run_cb2_r covers
in_ranges-run_cb2 leaf p = refl
in_ranges-run_cb2 (node left right k v) p = ground (
  arith,
  in_ranges-append (run_cb2_r left) (run_cb2_r right) p,
  in_ranges-run_cb2 left p,
  in_ranges-run_cb2 right p,
)
