-- ===== src/Replay/Lines/RoundTrip.antt =====
-- A line that the generator of ioriot/src/generate writes, as the replayer of ioriot/src/replay
-- reads it.
use ioriot.Prelude.{
  ℕ, ◌+◌, ◌≡◌, refl, ap, ◌∙◌, List, [], ◌∷◌, ◌++◌, true, false, is_nil, length, some, arith, ℤ, ◌%◌,
  ◌≤◌, ◌<◌, Bool, not, ◌==◌, ltb, if◌then◌else◌, length-append, pos, negsuc, ok,
}
use mathlib.Core.Path.{ap₂}
use ioriot.Generate.Vsize.{to_ulong}
use ioriot.Replay.Lines.{RTask, time_and_vsize, with_pid, take_line, task_tokens}
use ioriot.Text.{Bytes, before_first, strtok, add}
use ioriot.Text.Laws.{lacks, pieces-append}
use ioriot.Text.Numbers.{strtol, long_bound, show_nat, show_long}
use ioriot.Text.Numbers.Laws.{
  strtol-show_nat, show_nat-lacks, show_long-lacks, show_nat-is_nil, show_long-some,
}
use ioriot.Mounts.Normal.{All}
use ioriot.Generate.Task.{Line, Field, number, text}
use ioriot.Generate.Print.{print_line, call_words, show_fields, barred}

-- A word that is read back as it is
pub record IsWord (word : Bytes) : Type 0 where
  pub some_byte : is_nil word ≡ false
  pub no_bar : lacks b'|' word ≡ true

abbrev pub FieldOk : Field → Type 0
FieldOk (number n) = Unit
FieldOk (text s) = IsWord s

before_first-word :
    (word rest : Bytes)
    → lacks b'|' word ≡ true
    → before_first b'|' (word ++ (b'|' ∷ rest)) ≡ some (word, rest)
before_first-word [] rest h = refl
before_first-word (c ∷ word) rest h = ground (arith, before_first-word word rest)

add-word : (word : Bytes) (words : List Bytes) → IsWord word → add word words ≡ word ∷ words
add-word [] words h = absurd (ground (arith, h.some_byte))
add-word (c ∷ word) words h = refl

pub strtok-barred :
    (words : List Bytes)
    → All IsWord words
    → strtok b'|' (barred words) ≡ words ++ (b'\n' ∷ []) ∷ []
unfolding strtok
strtok-barred [] h = refl
strtok-barred (word ∷ words) h = rw (pieces-append b'|' word (barred words) h.0.no_bar) (
    add-word word (strtok b'|' (barred words)) h.0
    ∙ ap (λ (r : List Bytes). word ∷ r) (strtok-barred words h.1))

pub number-IsWord : (n : ℤ) → IsWord (show_long n)
number-IsWord n = record { some_byte = show_long-some n; no_bar = show_long-lacks n }

nat-IsWord : (n : ℕ) → IsWord (show_nat n)
nat-IsWord n = record { some_byte = show_nat-is_nil n; no_bar = show_nat-lacks n }

named-IsWord : (name : Bytes) (n : ℕ) → IsWord name → IsWord (name ++ (b'@' ∷ show_nat n))
named-IsWord name n h = record {
  some_byte = named_some name n;
  no_bar = named_lacks name n h.no_bar;
}
  where
    named_some : (name : Bytes) (n : ℕ) → is_nil (name ++ (b'@' ∷ show_nat n)) ≡ false
    named_some [] n = refl
    named_some (c ∷ name) n = refl

    named_lacks :
        (name : Bytes) (n : ℕ)
        → lacks b'|' name ≡ true
        → lacks b'|' (name ++ (b'@' ∷ show_nat n)) ≡ true
    named_lacks [] n h = show_nat-lacks n
    named_lacks (c ∷ name) n h = ground (arith, named_lacks name n)

fields-IsWord :
    (fields : List Field) (name : Bytes) (n : ℕ)
    → All FieldOk fields
    → IsWord name
    → All IsWord (show_fields fields name n)
unfolding show_fields
fields-IsWord [] name n h w = (named-IsWord name n w, tt)
fields-IsWord (number z ∷ fields) name n h w = (number-IsWord z, fields-IsWord fields name n h.1 w)
fields-IsWord (text s ∷ fields) name n h w = (h.0, fields-IsWord fields name n h.1 w)

length-show_fields :
    (fields : List Field) (name : Bytes) (n : ℕ)
    → length (show_fields fields name n) ≡ length fields + 1
unfolding show_fields
length-show_fields [] name n = omega arith
length-show_fields (field ∷ fields) name n = omega (arith, length-show_fields fields name n)

words-IsWord :
    (l : Line) (name : Bytes) → All FieldOk l.fields → IsWord name → All IsWord (call_words l name)
unfolding call_words
words-IsWord l name h w = (
  record { some_byte = refl; no_bar = refl },
  (
    record { some_byte = refl; no_bar = refl },
    (nat-IsWord l.opcode, fields-IsWord l.fields name l.lineno h w),
  ),
)

length-call_words : (l : Line) (name : Bytes) → length (call_words l name) ≡ length l.fields + 4
unfolding call_words
length-call_words l name = omega (arith, length-show_fields l.fields name l.lineno)

pub task_tokens-call_words :
    (l : Line) (name : Bytes)
    → All FieldOk l.fields
    → IsWord name
    → length l.fields ≤ 5
    → task_tokens (barred (call_words l name)) ≡ ok (call_words l name ++ (b'\n' ∷ []) ∷ [])
unfolding task_tokens
task_tokens-call_words l name h w n =
    let words : List Bytes = call_words l name ++ (b'\n' ∷ []) ∷ [] in
    let size : length words ≡ length l.fields + 5 =
      omega
        (arith, length-append (call_words l name) ((b'\n' ∷ []) ∷ []), length-call_words l name) in
    let few : ltb 11 (length words) ≡ false = ground (arith, size, n) in
    let fewer : (length words == 11) ≡ false = ground (arith, size, n) in
    rw (strtok-barred (call_words l name) (words-IsWord l name h w)) (rw (few, fewer) refl)

pub strtol-show_long : (z : ℤ) (n : ℕ) → z ≡ pos n → n < long_bound → strtol (show_long z) ≡ z
unfolding show_long
strtol-show_long (pos m) n e h = strtol-show_nat m (ground (arith, e, h))
strtol-show_long (negsuc m) n e h = absurd (ground (arith, e))

-- What the replayer makes of a line that is its own
abbrev pub printed_task : Line → Bytes → ℕ → RTask
printed_task l name lineno = record {
  time = l.time;
  vsize = l.vsize_id;
  pid = pos l.mapped_pid;
  lineno = lineno;
  line = barred (call_words l name);
}

-- A task in front of those of the other lines, where it is the worker's own
abbrev pub in_front : Bool → RTask → List RTask × Bool → List RTask × Bool
in_front mine task rest = if mine then (task ∷ rest.0, rest.1) else rest

small_lem : (n : ℕ) → n < long_bound → to_ulong (pos n) ≡ n
unfolding long_bound
small_lem n h = omega arith

take_pid :
    (mine : Bool) (lineno vsize : ℕ) (time : ℤ) (pid line : Bytes) (z : ℤ)
    (rest : List RTask × Bool)
    → strtol pid ≡ z
    → (if not mine then rest else with_pid time vsize lineno (some (pid, line)) rest)
      ≡ in_front mine
          (record { time = time; vsize = vsize; pid = z; lineno = lineno; line = line })
          rest
take_pid true lineno vsize time pid line z rest e =
    ap
      (λ (q : ℤ).
        in_front true (record { time = time; vsize = vsize; pid = q; lineno = lineno; line = line })
          rest)
      e
take_pid false lineno vsize time pid line z rest e = refl

front-print_line :
    (l : Line) (name : Bytes) (time : ℕ)
    → l.time ≡ pos time
    → time < long_bound
    → l.vsize_id < long_bound
    → time_and_vsize (print_line l name)
      ≡ some (l.time, l.vsize_id, show_nat l.mapped_pid ++ (b'|' ∷ barred (call_words l name)))
unfolding print_line time_and_vsize
front-print_line l name time e t v =
    let back : Bytes = show_nat l.mapped_pid ++ (b'|' ∷ barred (call_words l name)) in
    let first =
      before_first-word (show_long l.time) (show_nat l.vsize_id ++ (b'|' ∷ back))
        (show_long-lacks l.time) in
    let second = before_first-word (show_nat l.vsize_id) back (show_nat-lacks l.vsize_id) in
    rw (first, time_and_vsize)
      (rw (second, time_and_vsize)
        (ap₂ (λ (a : ℤ) (b : ℕ). some (a, b, back)) (strtol-show_long l.time time e t)
          (ap to_ulong (strtol-show_nat l.vsize_id v) ∙ small_lem l.vsize_id v)))

pub take_line-print_line :
    (num_workers rworker_num : ℕ) (l : Line) (name : Bytes) (lineno time : ℕ)
    → (rest : List RTask × Bool) → l.time ≡ pos time
    → time < long_bound
    → l.vsize_id < long_bound
    → l.mapped_pid < long_bound
    → take_line num_workers rworker_num lineno (time_and_vsize (print_line l name)) rest
      ≡ in_front ((l.vsize_id % num_workers) == rworker_num) (printed_task l name lineno) rest
take_line-print_line num_workers rworker_num l name lineno time rest e t v p =
    let third =
      before_first-word (show_nat l.mapped_pid) (barred (call_words l name))
        (show_nat-lacks l.mapped_pid) in
    rw (front-print_line l name time e t v) (
      rw third (
        take_pid ((l.vsize_id % num_workers) == rworker_num) lineno l.vsize_id l.time
          (show_nat l.mapped_pid) (barred (call_words l name)) (pos l.mapped_pid) rest
          (strtol-show_nat l.mapped_pid p)))
