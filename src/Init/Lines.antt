-- ===== src/Init/Lines.antt =====
-- The lines of the INIT section as `init_run` of ioriot/src/init/init.c reads them.
use ioriot.Prelude.{
  ℕ, ◌+◌, List, [], ◌∷◌, Bool, true, false, ◌==◌, if◌then◌else◌, Option, some, none, ℤ, pos, eqz,
  ltz, Outcome, ok, exit, fault, ◌>>=◌,
}
use ioriot.Text.{Bytes, strtok}
use ioriot.Text.Numbers.{strtol, atoi}

-- What the loop over the tokens sets
pub record Parsed : Type 0 where
  pub is_dir : Bool
  pub is_file : Bool
  pub is_link : Bool
  pub offset : ℤ
  pub bytes : ℤ
  pub path : Option Bytes
  pub target : Option Bytes

abbrev pub parsed_none : Parsed
parsed_none = record {
  is_dir = false;
  is_file = false;
  is_link = false;
  offset = pos 0;
  bytes = pos 0;
  path = none;
  target = none;
}

-- `itask_s`, without its counts
pub record ITask : Type 0 where
  pub is_dir : Bool
  pub is_file : Bool
  pub is_link : Bool
  pub offset : ℤ
  pub bytes : ℤ
  pub path : Bytes
  pub target : Option Bytes

-- `atoi(tok) == 1`
abbrev pub is_one : Bytes → Bool
is_one tok = eqz (atoi tok) (pos 1)

-- `case 3` and `case 4`: a number that is not negative
abbrev pub not_negative : ℤ → Parsed → Outcome Parsed
not_negative n p = if ltz n (pos 0) then exit else ok p

-- The token of the number `ntok`
abbrev pub init_tok : ℕ → Bytes → Parsed → Outcome Parsed
init_tok ntok tok p =
    if ntok == 0
    then ok (record p { is_dir = is_one tok })
    else if ntok == 1
    then ok (record p { is_file = is_one tok })
    else if ntok == 2
    then ok (record p { is_link = is_one tok })
    else if ntok == 3
    then not_negative (strtol tok) (record p { offset = strtol tok })
    else if ntok == 4
    then not_negative (strtol tok) (record p { bytes = strtol tok })
    else if ntok == 5
    then ok (record p { path = some tok })
    else if ntok == 6
    then ok (record p { target = some tok })
    else ok p

-- The loop over the tokens, from the number of the next one
unfoldable pub init_toks : ℕ → List Bytes → Parsed → Outcome Parsed
init_toks ntok [] p = ok p
init_toks ntok (tok ∷ toks) p = init_tok ntok tok p >>= λ q. init_toks (ntok + 1) toks q

-- The values of a task, whether new or recycled: `Clone` of no path reads from NULL.
abbrev pub task_at : Parsed → Option Bytes → Outcome ITask
task_at p none = fault
task_at p (some path) = ok (
    if p.is_dir
    then record {
      is_dir = true;
      is_file = false;
      is_link = false;
      offset = pos 0;
      bytes = pos 0;
      path = path;
      target = none;
    }
    else if p.is_link
    then record {
      is_dir = false;
      is_file = false;
      is_link = true;
      offset = pos 0;
      bytes = pos 0;
      path = path;
      target = p.target;
    }
    else if p.is_file
    then record {
      is_dir = false;
      is_file = true;
      is_link = false;
      offset = p.offset;
      bytes = p.bytes;
      path = path;
      target = none;
    }
    else record {
      is_dir = false;
      is_file = false;
      is_link = false;
      offset = pos 0;
      bytes = pos 0;
      path = path;
      target = none;
    })

-- The task of a line
unfoldable pub init_line : Bytes → Outcome ITask
init_line line = init_toks 0 (strtok b'|' line) parsed_none >>= λ p. task_at p p.path

-- `getline` up to the end of the file
abbrev pub push : ℕ → List Bytes → List Bytes
push c [] = (c ∷ []) ∷ []
push c (line ∷ lines) = (c ∷ line) ∷ lines

unfoldable pub lines_of : Bytes → List Bytes
lines_of [] = []
lines_of (c ∷ file) =
    let lines = lines_of file in if c == b'\n' then (c ∷ []) ∷ lines else push c lines

-- The tasks of the lines, in their order
unfoldable pub tasks_of : List Bytes → Outcome (List ITask)
tasks_of [] = ok []
tasks_of (line ∷ lines) = init_line line >>= λ task. tasks_of lines >>= λ tasks. ok (task ∷ tasks)

-- The loop of `init_run` over the INIT section
unfoldable pub init_tasks : Bytes → Outcome (List ITask)
init_tasks section = tasks_of (lines_of section)
