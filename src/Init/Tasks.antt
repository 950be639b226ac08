-- ===== src/Init/Tasks.antt =====
-- What a thread of the initialiser does for a task: `ithread_run_task` of
-- ioriot/src/init/ithread.c, and the counts of itask.c.
pub mod Short
use ioriot.Prelude.{
  ℕ, zero, suc, ◌+◌, ◌-◌, ◌*◌, ◌/◌, ◌%◌, ◌^◌, ◌≤◌, ◌<◌, ◌≡◌, ◌≢◌, ◌⊎◌, ◌↔◌, refl, ap, sym, subst,
  ◌∙◌, List, [], ◌∷◌, ◌++◌, Bool, true, false, not, ◌&&◌, ◌||◌, ◌==◌, ltb, leb, is_nil, length,
  get_or, set, if◌then◌else◌, Option, some, none, arith, length-append, inl, inr, Option-cases,
  Bool-cases, ℤ, pos, negsuc, eqz, ltz, lez, ◌+ℤ◌, ◌-ℤ◌, ◌≤ℤ◌, ◌<ℤ◌, Outcome, ok, exit, fault,
  ◌>>=◌, Holds, Holds-bind, Holds-any,
}
use ioriot.Futils.{
  FileSystem, ensure_dir_exists, ensure_file_exists, ensure_relative_symlink_exists,
  append_random_to_file, write_random_to_file,
}
use ioriot.Init.Lines.{ITask}
use ioriot.Text.{Bytes}

-- What a task has created
pub record Counts : Type 0 where
  pub dirs_created : ℕ
  pub files_created : ℕ
  pub sizes_created : ℕ

-- `itask_extract_stats`: the sums, which no `long` bounds here
abbrev pub itask_extract_stats : Counts → Counts → Counts
itask_extract_stats task sums = record {
  dirs_created = sums.dirs_created + task.dirs_created;
  files_created = sums.files_created + task.files_created;
  sizes_created = sums.sizes_created + task.sizes_created;
}

abbrev pub counted : ℕ → ℕ → ℕ → Counts
counted dirs files sizes = record {
  dirs_created = dirs;
  files_created = files;
  sizes_created = sizes;
}

abbrev pub one_if : Bool → ℕ
one_if b = if b then 1 else 0

module _ {S : Type 0} (sys : FileSystem S) where
  -- The data of a file: at an offset, or behind what it has
  abbrev pub write_data_at : S → Bytes → ℤ → ℕ → Outcome S
  write_data_at s path (pos (suc offset)) size = write_random_to_file sys s path size (suc offset)
  write_data_at s path (pos zero) size = append_random_to_file sys s path size
  write_data_at s path (negsuc n) size = append_random_to_file sys s path size

  -- The data, where the file is there and has some
  abbrev pub fill_file : Bytes → ℤ → ℤ → Bool × ℕ × S → Outcome (Counts × S)
  fill_file path offset (pos (suc size)) (true, dirs, s) =
      write_data_at s path offset (suc size) >>= λ after. ok (counted dirs 1 (suc size), after)
  fill_file path offset (pos zero) (true, dirs, s) = ok (counted dirs 1 0, s)
  fill_file path offset (negsuc n) (true, dirs, s) = ok (counted dirs 1 0, s)
  fill_file path offset size (false, dirs, s) = ok (counted dirs 0 0, s)

  -- `ithread_run_task`, on a task that has created nothing yet
  unfoldable pub ithread_run_task : S → ITask → Outcome (Counts × S)
  ithread_run_task s task =
      if task.is_dir
      then ensure_dir_exists sys s task.path >>= (λ (dirs, after). ok (counted dirs 0 0, after))
      else if task.is_link
      then ensure_relative_symlink_exists sys s task.path task.target
        >>= (λ (done, dirs, after). ok (counted dirs (one_if done) 0, after))
      else if task.is_file
      then ensure_file_exists sys s task.path >>= fill_file task.path task.offset task.bytes
      else ok (counted 0 0 0, s)
