-- ===== src/Tests/Gioop.antt =====
-- The run of a task: mkdir(2) of `/a` that succeeded.
use ioriot.Datas.Key.{str_same}
use ioriot.Datas.AMap.{amap_get, amap_set}
use ioriot.Generate.Gioop.Fds.{gioop_sync}
use ioriot.Generate.Process.{gprocess_by_realpid, write_line}
use ioriot.Prelude.{
  List, [], ◌∷◌, some, pos, arith, Holds, Outcome, ok, exit, fault, ◌>>=◌, ◌≡◌, refl, negsuc, eqz,
}
use ioriot.Datas.AMap
use ioriot.Datas.AMap.Creation
use ioriot.Datas.RBuffer
use ioriot.Generate.PathMap.{string_map}
use ioriot.Generate.Task.{Task, task_init, Generator, Line, number, gprocess_new}
use ioriot.Generate.Gioop.Table.{
  gioop_run, run_with, run_opening, run_found, preopen, dispatch, finish, find_handler,
}
use ioriot.Generate.Gioop.Keeps.{Keeps}
use ioriot.Generate.Gioop.Keeps.Table.{gioop_run-IsStep}
use ioriot.Tests.Vsize.{empty_store, empty_store-IsValid, file_a, parent_of}

abbrev mkdir_a : Task
mkdir_a = record (task_init 1) {
  op = some (109 ∷ 107 ∷ 100 ∷ 105 ∷ 114 ∷ []);
  path = some file_a;
  mode = pos 493;
  status = pos 0;
  pid = pos 7;
}

abbrev at_start : Generator string_map
at_start = record {
  store = empty_store;
  vfds = [];
  vfd_buffer = RBuffer.new 1024;
  gprocesses = [];
  pid_map = (AMap.Creation.new_blank 1024 (omega arith)).0;
  num_mapped_pids = 0;
  num_mapped_fds = 10;
  replay = [];
}

gioop_run-IsStep_example :
    Holds
      (Keeps string_map empty_store)
      (gioop_run string_map parent_of 65536 64 (pos 577) (pos 1 ∷ pos 3 ∷ []) mkdir_a at_start)
gioop_run-IsStep_example =
    gioop_run-IsStep string_map parent_of 65536 64 (pos 577) (pos 1 ∷ pos 3 ∷ []) mkdir_a at_start
      empty_store-IsValid

-- The lines that a run writes
abbrev lines : Outcome (Task × Generator string_map) → List Line
lines (ok (t, g)) = g.replay
lines exit = []
lines fault = []

abbrev sync_task : Task
sync_task = record (task_init 5) {
  op = some (115 ∷ 121 ∷ 110 ∷ 99 ∷ []);
  status = pos 0;
  pid = pos 0;
}

abbrev one_process : Generator string_map
one_process = record at_start {
  pid_map = record { arrays = (0 ∷ []) ∷ []; num_arrays = 1; size = 1 };
}

-- sync(2) of process 0, the first one seen
sync_run :
    lines (gioop_run string_map parent_of 65536 64 (pos 577) [] sync_task one_process)
    ≡ record {
      time = negsuc 0;
      vsize_id = 0;
      mapped_pid = 1;
      opcode = 62;
      fields = number (pos 0) ∷ [];
      lineno = 5;
    }
      ∷ []
unfolding gioop_run run_with run_opening run_found preopen dispatch finish find_handler
    gprocess_by_realpid gioop_sync write_line task_init str_same gprocess_new amap_get amap_set
    ◌>>=◌ eqz
sync_run = refl
