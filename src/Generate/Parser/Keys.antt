-- ===== src/Generate/Parser/Keys.antt =====
-- The tokens of a line of the capture: `gparser_extract_tok` of ioriot/src/generate/gparser.c, a
-- function for each case of its `switch`.
use ioriot.Prelude.{
  ℕ, List, [], ◌∷◌, Bool, true, false, not, ◌&&◌, ◌==◌, ltb, if◌then◌else◌, some, none, ℤ, pos,
  negsuc, eqz, ltz, lez, ◌-ℤ◌, Outcome, ok, fault,
}
use ioriot.Text.{Bytes, chreplace, strunquote, is_number, before_first}
use ioriot.Text.Numbers.{strtol, atoi, long_bound}
use ioriot.Generate.Task.{Task}

-- What a token changes: the task, the fields of `gtask_s` that only the parser uses, and
-- `start_time` of `generate_s`. `pidtid` is not kept.
pub record Parse : Type 0 where
  pub task : Task
  pub tid : ℤ
  pub address : ℤ
  pub address2 : ℤ
  pub start_time : ℤ

-- What a case does with the value; `false` is ERROR.
abbrev pub Case : Type 0
Case = Bytes → Parse → Outcome (Bool × Parse)

-- A value that has to be a number
abbrev pub number : (Bytes → Parse → Parse) → Case
number put value p = if is_number value then ok (true, put value p) else ok (false, p)

-- One that can be given once
abbrev pub once : (Task → ℤ) → (Bytes → Parse → Parse) → Case
once old put value p = if eqz (old p.task) (negsuc 0) then number put value p else ok (false, p)

abbrev pub put_task : (Task → ℤ → Task) → (Bytes → ℤ) → Bytes → Parse → Parse
put_task put read value p = record p { task = put p.task (read value) }

unfoldable pub case_a : Case
case_a value p = ok (true, record p { address = strtol value })

unfoldable pub case_A : Case
case_A value p = ok (true, record p { address2 = strtol value })

unfoldable pub case_b : Case
case_b = once (λ t. t.bytes) (put_task (λ t n. record t { bytes = n }) strtol)

unfoldable pub case_c : Case
case_c = once (λ t. t.count) (put_task (λ t n. record t { count = n }) strtol)

abbrev pub put_fd : Task → ℤ → Task
put_fd t n = record t { fd = n; has_fd = if ltz (pos 0) n then true else t.has_fd }

unfoldable pub case_d : Case
case_d = once (λ t. t.fd) (put_task put_fd atoi)

unfoldable pub case_f : Case
case_f = number (put_task (λ t n. record t { flags = n }) atoi)

-- `gparser_get_pidtid`: `*pid` and `*tid` keep what was read when the result is `false`.
unfoldable pub case_i : Case
case_i value p = elim (before_first b':' value) [
  | none ↦ ok (false, p)
  | some (pid, tid) ↦
      (if not (is_number tid)
        then ok (false, p)
        else (let p = record p { tid = strtol tid } in
            if not (is_number pid)
            then ok (false, p)
            else (let p = record p { task = record p.task { pid = strtol pid } } in
                ok (lez (pos 0) p.task.pid && lez (pos 0) p.tid, p))))
]

unfoldable pub case_m : Case
case_m = number (put_task (λ t n. record t { mode = n }) atoi)

unfoldable pub case_o : Case
case_o value p = ok (true, record p { task = record p.task { op = some value } })

unfoldable pub case_O : Case
case_O = number (put_task (λ t n. record t { offset = n }) strtol)

unfoldable pub case_W : Case
case_W = number (put_task (λ t n. record t { whence = n }) strtol)

-- A path, with no quotes around it and none of the bytes that separate the fields of a replay
unfoldable pub path_value : Bytes → Bytes
path_value value = strunquote (chreplace value b'|' b'_')

unfoldable pub case_p : Case
case_p value p = ok (true, record p { task = record p.task { path = some (path_value value) } })

unfoldable pub case_P : Case
case_P value p = ok (true, record p { task = record p.task { path2 = some (path_value value) } })

unfoldable pub case_s : Case
case_s = number (put_task (λ t n. record t { status = n }) atoi)

-- A difference that does not fit a `long` is undefined.
unfoldable pub is_long : ℤ → Bool
is_long (pos n) = ltb n long_bound
is_long (negsuc n) = ltb n long_bound

-- The time that the replay starts at
abbrev pub start_at : ℤ → ℤ → ℤ
start_at start_time time = if eqz start_time (negsuc 0) then time else start_time

abbrev pub put_time : ℤ → ℤ → Parse → Outcome (Bool × Parse)
put_time time start_time p =
    if is_long (time -ℤ start_time)
    then ok (
      true,
      record p {
        start_time = start_time;
        task = record p.task { mapped_time = time -ℤ start_time };
      },
    )
    else fault

unfoldable pub case_t : Case
case_t value p =
    if is_number value
    then put_time (strtol value) (start_at p.start_time (strtol value)) p
    else ok (false, p)

unfoldable pub case_F : Case
case_F = number (put_task (λ t n. record t { F = n }) atoi)

unfoldable pub case_G : Case
case_G = number (put_task (λ t n. record t { G = n }) atoi)

unfoldable pub case_skip : Case
case_skip value p = ok (true, p)

-- The `switch`
abbrev pub keys : List (ℕ × Case)
keys =
    (b'a', case_a)
    ∷ (b'A', case_A)
    ∷ (b'b', case_b)
    ∷ (b'c', case_c)
    ∷ (b'd', case_d)
    ∷ (b'f', case_f)
    ∷ (b'i', case_i)
    ∷ (b'm', case_m)
    ∷ (b'o', case_o)
    ∷ (b'O', case_O)
    ∷ (b'W', case_W)
    ∷ (b'p', case_p)
    ∷ (b'P', case_P)
    ∷ (b's', case_s)
    ∷ (b't', case_t)
    ∷ (b'F', case_F)
    ∷ (b'G', case_G)
    ∷ (b'T', case_skip)
    ∷ (b'D', case_skip)
    ∷ []

abbrev pub case_of : List (ℕ × Case) → ℕ → Case
case_of [] key value p = ok (false, p)
case_of ((k, run) ∷ rest) key value p = if k == key then run value p else case_of rest key value p

-- `gparser_extract_tok`, and `gparser_token_not_ok` in its patterns and its test
unfoldable pub extract_tok : Parse → Bytes → Outcome (Bool × Parse)
extract_tok p (key ∷ eq ∷ c ∷ value) =
    if eq == b'=' then case_of keys key (c ∷ value) p else ok (false, p)
extract_tok p other = ok (false, p)
