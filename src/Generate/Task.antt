-- ===== src/Generate/Task.antt =====
-- The state that a system call of the capture is turned into a line of the .replay file with:
-- `gtask_s`, `gprocess_s` and `generate_s` of ioriot/src/generate. Virtual descriptors and
-- processes stand in lists, and a pointer to the i-th is its number, counted from 1.
use ioriot.Prelude.{ℕ, ◌-◌, List, [], Bool, false, Option, none, ℤ, pos, negsuc, get_or}
use ioriot.Datas.AMap.{AMap}
use ioriot.Datas.Key.{long_key}
use ioriot.Datas.HMap
use ioriot.Datas.HMap.{HMap}
use ioriot.Datas.RBuffer.{RBuffer}
use ioriot.Generate.PathMap.{Bytes, PathMap}
use ioriot.Generate.State.{Store}
use ioriot.Generate.Vsize.{Vfd}

-- `gtask_s`, but for what only the parser uses
pub record Task : Type 0 where
  pub has_fd : Bool
  pub op : Option Bytes
  pub path : Option Bytes
  pub path2 : Option Bytes
  pub F : ℤ
  pub G : ℤ
  pub fd : ℤ
  pub flags : ℤ
  pub mode : ℤ
  pub status : ℤ
  pub ret : ℤ
  pub bytes : ℤ
  pub count : ℤ
  pub lineno : ℕ
  pub mapped_fd : ℤ
  pub mapped_time : ℤ
  pub offset : ℤ
  pub pid : ℤ
  pub whence : ℤ
  pub vfd : ℕ
  pub gprocess : ℕ
  pub vsize : ℕ
  pub vsize2 : ℕ

-- `gtask_init`
unfoldable pub task_init : ℕ → Task
task_init lineno = record {
  has_fd = false;
  op = none;
  path = none;
  path2 = none;
  F = negsuc 0;
  G = negsuc 0;
  fd = negsuc 0;
  flags = negsuc 0;
  mode = negsuc 0;
  status = negsuc 0;
  ret = pos 0;
  bytes = negsuc 0;
  count = negsuc 0;
  lineno = lineno;
  mapped_fd = negsuc 0;
  mapped_time = negsuc 0;
  offset = negsuc 0;
  pid = negsuc 0;
  whence = negsuc 0;
  vfd = 0;
  gprocess = 0;
  vsize = 0;
  vsize2 = 0;
}

-- `gprocess_s`, but for `max_mapped_fd`, which nothing reads
pub record Process : Type 0 where
  pub pid : ℤ
  pub mapped_pid : ℕ
  pub vfd_map : HMap ℤ
  pub fd_map : HMap ℤ

-- `gprocess_new`
unfoldable pub gprocess_new : ℤ → ℕ → Process
gprocess_new pid mapped_pid = record {
  pid = pid;
  mapped_pid = mapped_pid;
  vfd_map = HMap.new long_key 1024;
  fd_map = HMap.new long_key 1024;
}

-- An argument of a printed line
pub data Field : Type 0 where
  number : ℤ → Field
  text : Bytes → Field

-- A line of the .replay file, but for the name of the call that stands at its end
pub record Line : Type 0 where
  pub time : ℤ
  pub vsize_id : ℕ
  pub mapped_pid : ℕ
  pub opcode : ℕ
  pub fields : List Field
  pub lineno : ℕ

-- The part of `generate_s` that the calls of a capture change, and the lines written, the last one
-- first
pub record Generator (paths : PathMap) : Type 0 where
  pub store : Store paths
  pub vfds : List Vfd
  pub vfd_buffer : RBuffer
  pub gprocesses : List Process
  pub pid_map : AMap
  pub num_mapped_pids : ℕ
  pub num_mapped_fds : ℕ
  pub replay : List Line

-- `*p`. A pointer to no object reads as an object that is new.
abbrev pub process_at : List Process → ℕ → Process
process_at ps p = get_or ps (p - 1) (gprocess_new (pos 0) 0)

abbrev pub blank_vfd : Vfd
blank_vfd = record { fd = pos 0; mapped_fd = 0; path = []; offset = 0 }

abbrev pub vfd_at : List Vfd → ℕ → Vfd
vfd_at vfds p = get_or vfds (p - 1) blank_vfd

-- `vfd_new`, and `vfd_update` of one that is used again, with a path that is not NULL
unfoldable pub vfd_update : ℤ → ℕ → Bytes → Vfd
vfd_update fd mapped_fd path = record { fd = fd; mapped_fd = mapped_fd; path = path; offset = 0 }
