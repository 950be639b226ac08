-- ===== src/Tests/Replay.antt =====
-- The replay of small .replay files.
use ioriot.Prelude.{
  ◌++◌, ok, ℕ, ◌%◌, ◌<◌, ◌≡◌, refl, List, [], ◌∷◌, true, if◌then◌else◌, some, arith, inl, inr,
  Bool-cases, ℤ, pos, negsuc, fault, Holds, sym, subst, length, none,
}
use ioriot.Text.{Bytes, bytes, strtok}
use ioriot.Text.Numbers.{strtol, clamp_pos, long_bound}
use ioriot.Mounts.Normal.{All}
use ioriot.Datas.AMap.Creation.{new_blank}
use ioriot.Replay.Lines.{time_and_vsize, RTask, max_line_len, process_lines, task_tokens}
use ioriot.Replay.Lines.Dispatch.{tasks_of, process_lines-tasks_of}
use ioriot.Text.Numbers.{show_nat, show_long, show_from}
use ioriot.Generate.Task.{Line, number, text}
use ioriot.Generate.Print.{print_line, call_words, show_fields}
use ioriot.Replay.Lines.RoundTrip.{printed_task, in_front}
use ioriot.Replay.Lines.Printed.{process_lines-print_line}
use ioriot.Init.Lines.{lines_of}
use ioriot.Replay.Files.{Call, Files, System}
use ioriot.Replay.Ioop.{Toks}
use ioriot.Replay.Table.{run_all}
use ioriot.Replay.Sound.{is_open, IsSound}
use ioriot.Replay.Sound.Changes.{IsFresh}
use ioriot.Replay.Sound.Table.{run_all-IsSound}

-- Two virtual sizes, and the INIT section behind them
abbrev pub three_lines : List Bytes
three_lines =
    bytes "#META"
    ∷ bytes "5|7|1|0|0|30|1|"
    ∷ bytes "6|8|1|0|0|30|2|"
    ∷ bytes "#INIT"
    ∷ bytes "x"
    ∷ []

abbrev pub two_tasks : List RTask
two_tasks =
    record { time = pos 5; vsize = 7; pid = pos 1; lineno = 2; line = bytes "0|0|30|1|" }
    ∷ record { time = pos 6; vsize = 8; pid = pos 1; lineno = 3; line = bytes "0|0|30|2|" }
    ∷ []

pub lines_run : process_lines 1 0 0 three_lines ≡ (two_tasks, true)
unfolding process_lines time_and_vsize strtol clamp_pos long_bound
lines_run = refl

process_lines-tasks_of_example :
    ((w : ℕ) → process_lines 2 w 0 three_lines ≡ (tasks_of 2 w two_tasks, true))
    × All (λ task. task.vsize % 2 < 2) two_tasks
process_lines-tasks_of_example =
    process_lines-tasks_of 2 0 three_lines two_tasks (omega arith) lines_run

-- Eleven tokens are one too many for `toks`, with the NULL behind them.
eleven_run : task_tokens (bytes "0|0|30|4|5|6|7|8|9|10|11|") ≡ fault
unfolding task_tokens strtok
eleven_run = refl

-- A system in which one file can be open at a time
abbrev one_at_a_time : List Call → Bytes → ℕ → ℤ
one_at_a_time calls path flags = if is_open calls (pos 3) then negsuc 0 else pos 3

abbrev small_system : System
small_system = record {
  o_rdonly = 0;
  o_wronly = 1;
  o_rdwr = 2;
  o_creat = 64;
  o_trunc = 512;
  o_excl = 128;
  o_directory = 65536;
  f_getfd = pos 1;
  f_getfl = pos 3;
  f_setfd = pos 2;
  f_setfl = pos 4;
  user = some (pos 99);
  open_result = one_at_a_time;
  has_stream = λ calls fd. true;
}

small_system-IsFresh : IsFresh small_system
small_system-IsFresh calls path flags h = elim (Bool-cases (is_open calls (pos 3))) [
  | inl e ↦ absurd (omega (arith, rw e at h))
  | inr e ↦ rw e e
]

some_fds : 0 < 1
some_fds = omega arith

-- An empty map of descriptors
abbrev no_files : Files
no_files = record { fds = (new_blank 1 some_fds).0; vfds = []; calls = [] }

no_files-IsSound : IsSound no_files
no_files-IsSound =
    let (fds, made, valid, large, small, blank) = new_blank 1 some_fds in
    record {
      map_lem = valid;
      held = record {
        calls_lem = tt;
        open_lem = λ q live. absurd (live (blank q));
        apart_lem = λ q r live also n. absurd (live (blank q));
        there_lem = λ q. omega (arith, blank q);
      };
    }

-- The tokens of a line, the NULL, and what a former line has left
abbrev filled : List Bytes → Toks
filled [] = none ∷ some (bytes "0") ∷ []
filled (t ∷ toks) = some t ∷ filled toks

-- open, write, close and write again
abbrev four_tasks : List (ℕ × Toks)
four_tasks =
    (2, filled (strtok b'|' (bytes "0|0|30|1|/tmp/x|0|66|open@2|")))
    ∷ (3, filled (strtok b'|' (bytes "0|0|20|1|4|write@3|")))
    ∷ (4, filled (strtok b'|' (bytes "0|0|50|1|0|close@4|")))
    ∷ (5, filled (strtok b'|' (bytes "0|0|20|1|4|write@5|")))
    ∷ []

run_all-IsSound_example : Holds IsSound (run_all small_system four_tasks no_files)
run_all-IsSound_example =
    run_all-IsSound small_system four_tasks no_files small_system-IsFresh no_files-IsSound

abbrev one_line : Line
one_line = record {
  time = pos 5;
  vsize_id = 7;
  mapped_pid = 1;
  opcode = 30;
  fields = number (pos 1) ∷ text (bytes "/tmp/x") ∷ [];
  lineno = 2;
}

one_line_run :
    print_line one_line (bytes "open") ≡ bytes "5|7|1|0|0|30|1|/tmp/x|open@2|" ++ b'\n' ∷ []
unfolding print_line call_words show_fields show_long show_nat show_from
one_line_run = refl

one_line_fits : (5 < long_bound) × (7 < long_bound) × (1 < long_bound)
unfolding long_bound
one_line_fits = (omega arith, omega arith, omega arith)

one_line_short : length (print_line one_line (bytes "open")) < max_line_len
one_line_short = subst (λ (s : Bytes). length s < max_line_len) (sym one_line_run) (omega arith)

process_lines-print_line_example :
    (process_lines 4 3 9 (lines_of (print_line one_line (bytes "open") ++ bytes "#INIT"))
      ≡ in_front true
          (printed_task one_line (bytes "open") 10)
          (process_lines 4 3 10 (lines_of (bytes "#INIT"))))
    × (task_tokens (printed_task one_line (bytes "open") 10).line
        ≡ ok (call_words one_line (bytes "open") ++ (b'\n' ∷ []) ∷ []))
process_lines-print_line_example =
    process_lines-print_line 4 3 9 one_line (bytes "open") (bytes "#INIT") 5 one_line_short refl
      one_line_fits.0 one_line_fits.1 one_line_fits.2
      (tt, (record { some_byte = refl; no_bar = refl }, tt)) (tt, (refl, tt))
      (record { some_byte = refl; no_bar = refl }) refl (omega arith)
