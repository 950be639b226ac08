-- ===== src/Tests/Parser.antt =====
-- The parser at a line of a capture.
use ioriot.Prelude.{
  ◌≡◌, ◌≢◌, refl, [], ◌∷◌, Bool, true, Option, some, none, ℤ, pos, negsuc, eqz, ltz, lez, ◌-ℤ◌,
  Outcome, ok, exit, fault, ◌>>=◌, Holds,
}
use ioriot.Text.{Bytes, bytes, find, chreplace, strunquote, is_number}
use ioriot.Text.Numbers.{strtol, atoi, clamp_pos, long_bound}
use ioriot.Text.Tokens.{all_tokens, tokens, strtok2}
use ioriot.Mounts.{
  Mounts, normalize_path, transform_path, ignore_path, any_starts, last_mount, inserted,
}
use ioriot.Datas.Key.{to_int}
use ioriot.Generate.Task.{task_init}
use ioriot.Generate.Parser.{
  extract_toks, complete, transformed, first_path, second_path, transform_paths, parse_new, extract,
}
use ioriot.Generate.Parser.Keys.{
  Parse, case_d, case_i, case_o, case_p, case_t, path_value, is_long, extract_tok,
}
use ioriot.Generate.Parser.Accepted.{IsAccepted, extract-IsAccepted}

abbrev one_mount : Mounts
one_mount = record { mps = bytes "/usr" ∷ []; ignore_mps = [] }

abbrev open_line : Bytes
open_line = bytes "t=1008;:,i=7:9;:,o=open;:,p=/usr/a|b;:,d=5;:,"

-- The path, the descriptor, the time and the start of the capture, and whether the task is accepted
abbrev outline : Outcome (Bool × Parse) → Option (Bool × Option Bytes × ℤ × ℤ × ℤ)
outline (ok (accepted, p)) =
    some (accepted, p.task.path, p.task.fd, p.task.mapped_time, p.start_time)
outline exit = none
outline fault = none

extract_run :
    outline (extract one_mount (bytes "t") open_line (parse_new 1 (pos 1000)))
    ≡ some (true, some (bytes "/usr/.ioriot/t/a_b"), pos 5, pos 8, pos 1000)
unfolding extract extract_toks all_tokens tokens strtok2 find extract_tok case_t case_i case_o
    case_p case_d strtol atoi to_int clamp_pos long_bound is_number is_long path_value chreplace
    strunquote transform_paths complete first_path transformed second_path transform_path
    normalize_path ignore_path any_starts last_mount inserted parse_new task_init lez ltz eqz ◌-ℤ◌
    ◌>>=◌
extract_run = refl

extract-IsAccepted_example :
    Holds
      (λ r.
        (pos 1000 ≢ negsuc 0 → r.1.start_time ≡ pos 1000)
        × (r.0 ≡ true → IsAccepted (pos 1000) open_line r.1))
      (extract one_mount (bytes "t") open_line (parse_new 1 (pos 1000)))
extract-IsAccepted_example =
    extract-IsAccepted one_mount (bytes "t") open_line 1 (pos 1000) (refl, tt) refl
