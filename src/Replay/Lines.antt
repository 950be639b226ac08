-- ===== src/Replay/Lines.antt =====
-- The lines of a .replay file that a worker takes: the reading in `rworker_process_lines` of
-- ioriot/src/replay/rworker.c, and the tokens that `rthread_process_task` of rthread.c makes of the
-- rest of a line. The waiting and the statistics between two lines are left out.
pub mod Dispatch
pub mod RoundTrip
pub mod Printed
use ioriot.Prelude.{
  ℕ, zero, suc, ◌+◌, ◌-◌, ◌*◌, ◌/◌, ◌%◌, ◌^◌, ◌≤◌, ◌<◌, ◌≡◌, ◌≢◌, ◌⊎◌, ◌↔◌, refl, ap, sym, subst,
  ◌∙◌, List, [], ◌∷◌, ◌++◌, Bool, true, false, not, ◌&&◌, ◌||◌, ◌==◌, ltb, leb, is_nil, length,
  get_or, set, if◌then◌else◌, Option, some, none, arith, length-append, inl, inr, Option-cases,
  Bool-cases, ℤ, pos, negsuc, eqz, ltz, lez, ◌+ℤ◌, ◌-ℤ◌, ◌≤ℤ◌, ◌<ℤ◌, Outcome, ok, exit, fault,
  ◌>>=◌, Holds, Holds-bind, Holds-any,
}
use ioriot.Text.{Bytes, before_first, strtok}
use ioriot.Text.Numbers.{strtol}
use ioriot.Generate.Vsize.{to_ulong}

-- What `rtask_update` keeps of a line, and its time
pub record RTask : Type 0 where
  pub time : ℤ
  pub vsize : ℕ
  pub pid : ℤ
  pub lineno : ℕ
  pub line : Bytes

-- `MAX_LINE_LEN`
abbrev pub max_line_len : ℕ
max_line_len = 1024 * 8

-- `line[i] == c`
abbrev pub byte_is : ℕ → Bytes → ℕ → Bool
byte_is i [] c = false
byte_is zero (d ∷ line) c = d == c
byte_is (suc i) (d ∷ line) c = byte_is i line c

-- The time and the virtual size in front of a line, and what stands behind them
unfoldable pub time_and_vsize : Bytes → Option (ℤ × ℕ × Bytes)
time_and_vsize line = elim (before_first b'|' line) [
  | none ↦ none
  | some (time, next) ↦ elim (before_first b'|' next) [
    | none ↦ none
    | some (vsize_id, next2) ↦ some (strtol time, to_ulong (strtol vsize_id), next2)
  ]
]

-- The tasks of the lines that are left, and whether they are read to the end: `false` is the exit
-- by `Error`. The task of a line that the worker takes stands in front of the rest.
abbrev pub with_pid : ℤ → ℕ → ℕ → Option (Bytes × Bytes) → List RTask × Bool → List RTask × Bool
with_pid time vsize lineno none rest = ([], false)
with_pid time vsize lineno (some (pid, line)) rest = (
  record { time = time; vsize = vsize; pid = strtol pid; lineno = lineno; line = line } ∷ rest.0,
  rest.1,
)

-- One line that is no comment
abbrev pub take_line : ℕ → ℕ → ℕ → Option (ℤ × ℕ × Bytes) → List RTask × Bool → List RTask × Bool
take_line num_workers rworker_num lineno none rest = ([], false)
take_line num_workers rworker_num lineno (some (time, vsize, next2)) rest =
    if not ((vsize % num_workers) == rworker_num)
    then rest
    else with_pid time vsize lineno (before_first b'|' next2) rest

-- The loop of `rworker_process_lines`, from the number of lines that it has read
unfoldable pub process_lines : ℕ → ℕ → ℕ → List Bytes → List RTask × Bool
process_lines num_workers rworker_num lineno [] = ([], true)
process_lines num_workers rworker_num lineno (line ∷ lines) =
    let rest = process_lines num_workers rworker_num (lineno + 1) lines in
    if leb max_line_len (length line)
    then ([], false)
    else if byte_is 0 line b'#'
    then (if byte_is 1 line b'I' then ([], true) else rest)
    else take_line num_workers rworker_num (lineno + 1) (time_and_vsize line) rest

-- `rthread_process_task`: the tokens. The NULL behind eleven tokens lies outside `toks`.
unfoldable pub task_tokens : Bytes → Outcome (List Bytes)
task_tokens line =
    let toks = strtok b'|' line in
    if ltb 11 (length toks) then exit else if length toks == 11 then fault else ok toks
