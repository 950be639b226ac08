-- ===== src/Replay/Ioop.antt =====
-- The calls of a .replay file: the handlers and the table of ioriot/src/replay/rioop.c. A token
-- that is not there is NULL, where the model ends, or is left from another line.
use ioriot.Prelude.{
  pos_part, get_elem?, ℕ, zero, suc, ◌+◌, ◌-◌, ◌/◌, ◌%◌, ◌^◌, List, [], ◌∷◌, ◌++◌, Bool, false, not,
  ◌||◌, ◌==◌, ltb, length, get_or, if◌then◌else◌, Option, some, none, ℤ, pos, negsuc, eqz, ltz, lez,
  Outcome, ok, exit, fault, ◌>>=◌,
}
use Prim.Native.Nat.{bit_and, bit_or}
use ioriot.Text.{Bytes}
use ioriot.Text.Numbers.{strtol, atoi}
use ioriot.Datas.AMap.{amap_get, amap_set}
use ioriot.Replay.Files.{
  Sys, sys_stat, sys_fstat, sys_statfs, sys_fstatfs, sys_read, sys_readahead, sys_readlink,
  sys_readlinkat, sys_write, sys_close, Call, on_path, on_fd, closed, opened, renamed, RVfd, Files,
  System,
}

-- `task->toks`: the tokens of the line, NULL, and behind it what former lines of the task have left
-- there
abbrev pub Toks : Type 0
Toks = List (Option Bytes)

-- What a handler does with the tokens of a task
abbrev pub Handler : Type 0
Handler = ℕ → Toks → Files → Outcome Files

-- `task->toks[i]`, which is read: NULL and what lies outside the array fault.
abbrev at_tok : Option (Option Bytes) → Outcome Bytes
at_tok none = fault
at_tok (some none) = fault
at_tok (some (some t)) = ok t

abbrev pub tok : Toks → ℕ → Outcome Bytes
tok toks i = at_tok (get_elem? toks i)

abbrev pub emit : Call → Files → Files
emit call s = record s { calls = call ∷ s.calls }

-- `_Init_virtfd`: the object of a descriptor, and what is done with it
abbrev pub no_vfd : RVfd
no_vfd = record { fd = pos 0; dirfd = false; mapped_fd = pos 0; path = [] }

abbrev pub vfd_of : Files → ℕ → RVfd
vfd_of s p = get_or s.vfds (p - 1) no_vfd

abbrev pub found : Option ℕ → (ℕ → Outcome Files) → Files → Outcome Files
found none use_it s = fault
found (some p) use_it s = if p == 0 then ok s else use_it p

abbrev pub with_vfd : ℤ → Files → (ℕ → Outcome Files) → Outcome Files
with_vfd fd s use_it = found (amap_get s.fds fd) use_it s

-- A call with the path of token 3
abbrev pub path_call : Sys → Handler
path_call sys lineno toks s = do path ← tok toks 3; ok (emit (on_path sys path []) s)

-- A call with the descriptor of token 3
abbrev pub fd_call : Sys → Handler
fd_call sys lineno toks s = do
  fd ← tok toks 3
  with_vfd (strtol fd) s (λ p. ok (emit (on_fd sys (vfd_of s p).fd []) s))

unfoldable pub rioop_stat : Handler
rioop_stat = path_call sys_stat

unfoldable pub rioop_fstat : Handler
rioop_fstat = fd_call sys_fstat

unfoldable pub rioop_fstatfs : Handler
rioop_fstatfs = fd_call sys_fstatfs

unfoldable pub rioop_rename : Handler
rioop_rename lineno toks s = do
  path ← tok toks 3
  path2 ← tok toks 4
  ok (emit (renamed path path2) s)

-- A call with a number of bytes, which is left out if that is not positive
abbrev pub bytes_call : Sys → ℕ → List ℤ → Handler
bytes_call sys place before lineno toks s = do
  fd ← tok toks 3
  bytes ← tok toks place
  if lez (atoi bytes) (pos 0)
      then ok s
      else with_vfd (strtol fd) s
          (λ p. ok (emit (on_fd sys (vfd_of s p).fd (before ++ atoi bytes ∷ [])) s))

unfoldable pub rioop_read : Handler
rioop_read = bytes_call sys_read 4 []

unfoldable pub rioop_readahead : Handler
rioop_readahead lineno toks s = do
  offset ← tok toks 4
  bytes_call sys_readahead 5 (strtol offset ∷ []) lineno toks s

unfoldable pub rioop_readlink : Handler
rioop_readlink = path_call sys_readlink

unfoldable pub rioop_readlinkat : Handler
rioop_readlinkat = path_call sys_readlinkat

unfoldable pub rioop_statfs : Handler
rioop_statfs = path_call sys_statfs

-- Whether the decimal digits of `n` are at most that many
abbrev pub digits_fit : ℕ → ℕ → Bool
digits_fit zero n = false
digits_fit (suc places) n = ltb n 10 || digits_fit places (n / 10)

-- The number of the line is printed into the buffer first, also if the buffer is too short for it.
unfoldable pub rioop_write : Handler
rioop_write lineno toks s = do
  fd ← tok toks 3
  bytes ← tok toks 4
  if lez (atoi bytes) (pos 0)
      then ok s
      else with_vfd (strtol fd) s (λ p.
        if not (digits_fit (pos_part (atoi bytes)) lineno)
        then fault
        else if eqz (vfd_of s p).fd (pos 0)
        then exit
        else ok (emit (on_fd sys_write (vfd_of s p).fd (atoi bytes ∷ [])) s))

-- The 32 bits of an `int`
unfoldable pub to_u32 : ℤ → ℕ
to_u32 (pos n) = n % 2 ^ 32
to_u32 (negsuc n) = 2 ^ 32 - 1 - n % 2 ^ 32

unfoldable pub not_u32 : ℕ → ℕ
not_u32 n = 2 ^ 32 - 1 - n

-- What `rioop_open` makes of the flags for a descriptor that is kept
unfoldable pub kept_flags : System → ℕ → ℕ
kept_flags sys flags =
    let flags =
      if bit_and flags sys.o_directory == sys.o_directory
      then bit_and flags
          (bit_and sys.o_rdonly (not_u32 (bit_or (bit_or sys.o_rdwr sys.o_wronly) sys.o_creat)))
      else bit_and flags (not_u32 sys.o_rdonly) in
    bit_and flags (not_u32 sys.o_excl)

-- The new object is put into the map.
abbrev pub keep_open : ℤ → Bytes → ℤ → Files → Outcome Files
keep_open fd path ret s = elim (amap_set s.fds fd (length s.vfds + 1)) [
  | none ↦ fault
  | some (status, fds) ↦ ok (record s {
    fds = fds;
    vfds = s.vfds ++ record { fd = ret; dirfd = false; mapped_fd = fd; path = path } ∷ [];
  })
]

-- The rest of `rioop_open`, with the result of open(2)
abbrev pub after_open : ℤ → Bytes → ℤ → Files → Outcome Files
after_open fd path ret s =
    if not (ltz (pos 0) ret)
    then ok s
    else if ltz fd (pos 0)
    then ok (emit (closed sys_close ret) s)
    else if not (ltz (pos 0) fd)
    then ok s
    else keep_open fd path ret s

unfoldable pub open_with : System → ℤ → Bytes → ℕ → Files → Outcome Files
open_with sys fd path flags s =
    let flags = if ltz (pos 0) fd then kept_flags sys flags else flags in
    let ret = sys.open_result s.calls path flags in
    after_open fd path ret (emit (opened path flags ret) s)

unfoldable pub rioop_open : System → Option ℕ → Handler
rioop_open sys flags_ lineno toks s = do
  fd ← tok toks 3
  path ← tok toks 4
  flags ← tok toks 6
  open_with sys (strtol fd) path (elim flags_ [ some f ↦ f | none ↦ to_u32 (atoi flags) ]) s

-- `_rioop_open_default` and `_rioop_open_creat`
unfoldable pub rioop_open_default : System → Handler
rioop_open_default sys = rioop_open sys none

unfoldable pub rioop_open_creat : System → Handler
rioop_open_creat sys = rioop_open sys (some (bit_or (bit_or sys.o_creat sys.o_wronly) sys.o_trunc))
