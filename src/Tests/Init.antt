-- ===== src/Tests/Init.antt =====
-- The INIT section of a file with a hole, and a task of it (ioriot/src/init).
use ioriot.Prelude.{
  ℕ, ◌+◌, ◌<◌, ◌≡◌, refl, List, [], ◌∷◌, ◌++◌, true, false, ◌==◌, if◌then◌else◌, some, none, arith,
  ℤ, pos, negsuc, ltz, ◌-ℤ◌, ok,
}
use ioriot.Datas.BTree.{BTree, leaf, node, run_cb2_r}
use ioriot.Futils.{FileSystem, regular}
use ioriot.Generate.DataRange.{asks_for}
use ioriot.Generate.Section.{write_init_cb, write_ranges, write_ranges_cb}
use ioriot.Generate.State.{Vsize}
use ioriot.Init.Covered.{IsNeeded, file_task}
use ioriot.Init.Lines.{ITask, init_tasks}
use ioriot.Init.Ranges.{asked_by}
use ioriot.Init.Sections.{DataFits, init_tasks-write_init_cb}
use ioriot.Init.Tasks.{counted, ithread_run_task}
use ioriot.Init.Tasks.Short.{HasSizes, missing_bytes, ithread_run_task_size}
use ioriot.Mounts.Normal.{All}
use ioriot.Text.{bytes}
use ioriot.Text.Numbers.{long_bound, show_long, show_nat, show_from}

abbrev holed : BTree
holed = record {
  root = node leaf (node leaf leaf (pos 5000) (pos 5100)) (pos 0) (pos 100);
  size = 2;
}

abbrev file_x : Vsize
file_x = record {
  path = bytes "/x";
  link_target = none;
  bytes = negsuc 0;
  read_ranges = some holed;
  write_ranges = none;
  id = 1;
  renamed = false;
  required = true;
  is_dir = false;
  is_file = true;
  is_link = false;
  unsure = false;
  updates = 0;
  inserted = false;
}

file_x_run :
    write_init_cb file_x
    ≡ bytes "0|1|0|0|100|/x|" ++ (b'\n' ∷ bytes "0|1|0|5000|100|/x|" ++ (b'\n' ∷ []))
unfolding write_init_cb write_ranges write_ranges_cb run_cb2_r show_long show_nat show_from ◌-ℤ◌ ltz
file_x_run = refl

file_x-IsNeeded : IsNeeded file_x
file_x-IsNeeded = record {
  required = refl;
  is_file = refl;
  not_dir = refl;
  not_link = refl;
  word = record { some_byte = refl; no_bar = refl };
  on_line = refl;
}

file_x-DataFits : DataFits file_x.bytes file_x.read_ranges
unfolding run_cb2_r long_bound
file_x-DataFits = omega arith

init_tasks-write_init_cb_example :
    (tasks : List ITask) × (init_tasks (write_init_cb file_x) ≡ ok tasks)
    × ((p : ℤ) → asked_by tasks p ≡ asks_for (negsuc 0) (some holed) p)
    × All (λ (task : ITask). (task.path ≡ bytes "/x") × (task.is_file ≡ true)) tasks
init_tasks-write_init_cb_example = init_tasks-write_init_cb file_x file_x-IsNeeded file_x-DataFits

-- A file system with one file, by its length
abbrev one_file : FileSystem ℕ
one_file = record {
  stat = λ s path. regular;
  lstat = λ s path. regular;
  unlink = λ s path. 0;
  mkdir = λ s path. (false, s);
  symlink = λ s target path. (false, s);
  append = λ s path n. some (s + n);
  overwrite = λ s path offset n. some (if n == 0 then 0 else offset + n);
}

abbrev one_file_sizes : HasSizes one_file
one_file_sizes = record {
  size = λ s path. s;
  overwritten = λ s path offset n. ((if n == 0 then 0 else offset + n), refl, refl);
  appended = λ s path n. (s + n, refl, refl);
}

-- A file of 9000 bytes, and data of 100 bytes at 5000
ithread_run_task_size_example :
    (after : ℕ) × (ithread_run_task one_file 9000 (file_task file_x (pos 5000) (pos 100))
      ≡ ok (counted 0 1 100, after))
    × (0 < 5000 → after < 5000 + 100)
    × (◌≡◌ {A = ℕ} 5000 0 → after + missing_bytes 100 ≡ 9000 + 100)
ithread_run_task_size_example =
    ithread_run_task_size one_file one_file_sizes 9000 (file_task file_x (pos 5000) (pos 100)) 5000
      99 refl refl refl refl refl refl
