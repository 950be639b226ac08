-- ===== src/Replay/Lines/Printed.antt =====
-- The lines that the generator of ioriot/src/generate writes, in the file that the replayer of
-- ioriot/src/replay reads line by line.
use ioriot.Prelude.{
  ℕ, ◌+◌, ◌%◌, ◌≤◌, ◌<◌, ◌≡◌, refl, ◌∙◌, List, [], ◌∷◌, ◌++◌, true, false, ◌==◌, leb, is_nil,
  length, arith, ℤ, pos, ok,
}
use ioriot.Generate.Print.{print_line, call_words, show_fields}
use ioriot.Generate.Task.{Line, Field, number, text}
use ioriot.Init.Covered.{OnLine, lines_of-barred}
use ioriot.Init.Lines.{lines_of}
use ioriot.Mounts.Normal.{All}
use ioriot.Replay.Lines.{
  max_line_len, byte_is, process_lines, task_tokens, take_line, time_and_vsize,
}
use ioriot.Replay.Lines.RoundTrip.{
  IsWord, FieldOk, printed_task, in_front, take_line-print_line, task_tokens-call_words,
}
use ioriot.Text.{Bytes}
use ioriot.Text.Laws.{lacks}
use ioriot.Text.Numbers.{show_nat, show_long, long_bound}
use ioriot.Text.Numbers.Laws.{
  show_nat-AreDigits, AreDigits-lacks, show_long-lacks_newline, show_nat-is_nil,
}

abbrev pub IsOnLine : Field → Type 0
IsOnLine (number n) = Unit
IsOnLine (text s) = OnLine s

nat-OnLine : (n : ℕ) → OnLine (show_nat n)
nat-OnLine n = AreDigits-lacks b'\n' (show_nat n) refl (show_nat-AreDigits n)

named-OnLine : (name : Bytes) (n : ℕ) → OnLine name → OnLine (name ++ (b'@' ∷ show_nat n))
named-OnLine [] n h = nat-OnLine n
named-OnLine (c ∷ name) n h = ground (arith, named-OnLine name n, h)

fields-OnLine :
    (fields : List Field) (name : Bytes) (n : ℕ)
    → All IsOnLine fields
    → OnLine name
    → All OnLine (show_fields fields name n)
unfolding show_fields
fields-OnLine [] name n h w = (named-OnLine name n w, tt)
fields-OnLine (number z ∷ fields) name n h w =
    (show_long-lacks_newline z, fields-OnLine fields name n h.1 w)
fields-OnLine (text s ∷ fields) name n h w = (h.0, fields-OnLine fields name n h.1 w)

words-OnLine :
    (l : Line) (name : Bytes)
    → All IsOnLine l.fields
    → OnLine name
    → All OnLine
        (show_long l.time ∷ show_nat l.vsize_id ∷ show_nat l.mapped_pid ∷ call_words l name)
unfolding call_words
words-OnLine l name h w = (
  show_long-lacks_newline l.time,
  (
    nat-OnLine l.vsize_id,
    (
      nat-OnLine l.mapped_pid,
      (refl, (refl, (nat-OnLine l.opcode, fields-OnLine l.fields name l.lineno h w))),
    ),
  ),
)

lines_of-print_line :
    (l : Line) (name rest : Bytes)
    → All IsOnLine l.fields
    → OnLine name
    → lines_of (print_line l name ++ rest) ≡ print_line l name ∷ lines_of rest
unfolding print_line
lines_of-print_line l name rest h w =
    lines_of-barred
      (show_long l.time ∷ show_nat l.vsize_id ∷ show_nat l.mapped_pid ∷ call_words l name) rest
      (words-OnLine l name h w)

first_byte :
    (word rest : Bytes)
    → is_nil word ≡ false
    → lacks b'#' word ≡ true
    → byte_is 0 (word ++ rest) b'#' ≡ false
first_byte [] rest h k = absurd (ground (arith, h))
first_byte (c ∷ word) rest h k = ground (arith, k)

time_first :
    (n : ℤ) (time : ℕ) (rest : Bytes) → n ≡ pos time → byte_is 0 (show_long n ++ rest) b'#' ≡ false
unfolding show_long
time_first n time rest e = rw e (
    first_byte (show_nat time) rest (show_nat-is_nil time)
      (AreDigits-lacks b'#' (show_nat time) refl (show_nat-AreDigits time)))

no_comment :
    (l : Line) (name : Bytes) (time : ℕ)
    → l.time ≡ pos time
    → byte_is 0 (print_line l name) b'#' ≡ false
unfolding print_line
no_comment l name time e = time_first l.time time _ e

-- One line of less than the longest length that is no comment
process_line :
    (num_workers rworker_num lineno : ℕ) (line : Bytes) (lines : List Bytes)
    → length line < max_line_len
    → byte_is 0 line b'#' ≡ false
    → process_lines num_workers rworker_num lineno (line ∷ lines)
      ≡ take_line num_workers rworker_num
          (lineno + 1)
          (time_and_vsize line)
          (process_lines num_workers rworker_num (lineno + 1) lines)
unfolding process_lines
process_line num_workers rworker_num lineno line lines h e =
    let short : leb max_line_len (length line) ≡ false = ground (arith, h) in rw (short, e) refl

-- In front of the rest of a file, a line that the generator writes is read by the loop of a worker
-- that has read `lineno` lines: where the virtual size is the worker's own, a task with the time,
-- the virtual size, the process and the number of the line comes in front of those of the rest, and
-- otherwise the tasks are those of the rest. The tokens of this task are the two zeros, the number
-- of the operation, the fields, the name with the number of the captured line, and the end of the
-- line. The conditions: the line, its newline counted, is shorter than MAX_LINE_LEN; the time is
-- not negative, and it, the virtual size and the process fit a `long`; the texts and the name are
-- not empty and have no bar and no newline; and the call has at most five fields.
pub process_lines-print_line :
    (num_workers rworker_num lineno : ℕ) (l : Line) (name rest : Bytes) (time : ℕ)
    → length (print_line l name) < max_line_len
    → l.time ≡ pos time
    → time < long_bound
    → l.vsize_id < long_bound
    → l.mapped_pid < long_bound
    → All FieldOk l.fields
    → All IsOnLine l.fields
    → IsWord name
    → OnLine name
    → length l.fields ≤ 5
    → (process_lines num_workers rworker_num lineno (lines_of (print_line l name ++ rest))
        ≡ in_front
            ((l.vsize_id % num_workers) == rworker_num)
            (printed_task l name (lineno + 1))
            (process_lines num_workers rworker_num (lineno + 1) (lines_of rest)))
      × (task_tokens (printed_task l name (lineno + 1)).line
          ≡ ok (call_words l name ++ (b'\n' ∷ []) ∷ []))
process_lines-print_line num_workers rworker_num lineno l name rest time s e t v p h o w k n = (
  rw (lines_of-print_line l name rest o k) (
      process_line num_workers rworker_num lineno (print_line l name) (lines_of rest) s
        (no_comment l name time e)
      ∙ take_line-print_line num_workers rworker_num l name (lineno + 1) time
          (process_lines num_workers rworker_num (lineno + 1) (lines_of rest)) e t v p),
  task_tokens-call_words l name h w n,
)
