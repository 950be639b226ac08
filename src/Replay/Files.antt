-- ===== src/Replay/Files.antt =====
-- What the handlers of ioriot/src/replay/rioop.c change: the map from the descriptors of a .replay
-- file to those that are open now, and the calls that they make to the system.
use ioriot.Prelude.{ℕ, List, Bool, Option, ℤ}
use ioriot.Text.{Bytes}
use ioriot.Datas.AMap.{AMap}

-- The functions of the system that are called with a path or a descriptor
pub data Sys : Type 0 where
  sys_stat : Sys
  sys_fstat : Sys
  sys_statfs : Sys
  sys_fstatfs : Sys
  sys_read : Sys
  sys_readahead : Sys
  sys_readlink : Sys
  sys_readlinkat : Sys
  sys_write : Sys
  sys_close : Sys
  sys_closedir : Sys
  sys_fdopendir : Sys
  sys_readdir : Sys
  sys_mkdir : Sys
  sys_unlink : Sys
  sys_rmdir : Sys
  sys_lseek : Sys
  sys_fsync : Sys
  sys_fdatasync : Sys
  sys_syncfs : Sys
  sys_sync_file_range : Sys
  sys_fcntl : Sys
  sys_chmod : Sys
  sys_fchmod : Sys
  sys_chown : Sys
  sys_fchown : Sys
  sys_lchown : Sys

-- A call, with the numbers behind the path or the descriptor; `opened` has its result. The modes,
-- always all permissions, and the buffers are left out.
pub data Call : Type 0 where
  on_path : Sys → Bytes → List ℤ → Call
  on_fd : Sys → ℤ → List ℤ → Call
  closed : Sys → ℤ → Call
  opened : Bytes → ℕ → ℤ → Call
  renamed : Bytes → Bytes → Call
  synced : Call

-- `vfd_s`, as far as the replay uses it: `dirfd` tells whether there is a stream.
pub record RVfd : Type 0 where
  pub fd : ℤ
  pub dirfd : Bool
  pub mapped_fd : ℤ
  pub path : Bytes

-- `fds_map`, the objects that it points to, counted from 1, and the calls, the last one first
pub record Files : Type 0 where
  pub fds : AMap
  pub vfds : List RVfd
  pub calls : List Call

-- What is read from the system: its constants, the user's number, and the results of open(2) and
-- fdopendir(3) after the calls that were made
pub record System : Type 0 where
  pub o_rdonly : ℕ
  pub o_wronly : ℕ
  pub o_rdwr : ℕ
  pub o_creat : ℕ
  pub o_trunc : ℕ
  pub o_excl : ℕ
  pub o_directory : ℕ
  pub f_getfd : ℤ
  pub f_getfl : ℤ
  pub f_setfd : ℤ
  pub f_setfl : ℤ
  pub user : Option ℤ
  pub open_result : List Call → Bytes → ℕ → ℤ
  pub has_stream : List Call → ℤ → Bool
