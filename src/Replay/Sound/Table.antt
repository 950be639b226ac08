-- ===== src/Replay/Sound/Table.antt =====
-- What a whole replay by ioriot/src/replay/rioop.c does with descriptors.
use ioriot.Prelude.{ℕ, List, [], ◌∷◌, some, none, ℤ, pos, eqz, Holds, Holds-bind}
use ioriot.Text.Numbers.{atoi}
use ioriot.Generate.Parser.Valid.{if-Holds}
use ioriot.Replay.Files.{
  sys_stat, sys_fstat, sys_statfs, sys_fstatfs, sys_read, sys_readahead, sys_readlink,
  sys_readlinkat, sys_mkdir, sys_unlink, sys_rmdir, sys_lseek, sys_fsync, sys_fdatasync, sys_syncfs,
  sys_sync_file_range, sys_chmod, sys_fchmod, sys_chown, sys_lchown, Files, System,
}
use ioriot.Replay.Ioop.{
  Toks, Handler, rioop_stat, rioop_fstat, rioop_fstatfs, rioop_read, rioop_readahead,
  rioop_readlink, rioop_readlinkat, rioop_statfs, rioop_open_default, rioop_open_creat,
}
use ioriot.Replay.Table.{
  rioop_readdir, rioop_mkdir, rioop_unlink, rioop_rmdir, rioop_lseek, rioop_fsync, rioop_fdatasync,
  rioop_sync, rioop_syncfs, rioop_sync_file_range, rioop_chmod, rioop_fchmod, rioop_chown,
  rioop_lchown, rioop_noop, handlers, run_in, rioop_run, run_all,
}
use ioriot.Replay.Sound.{IsSound, emit_synced-IsSound}
use ioriot.Replay.Sound.Handlers.{
  Keeps, tok-Holds, path_call-Keeps, fd_call-Keeps, bytes_call-Keeps, rioop_rename-Keeps,
  rioop_write-Keeps, after_offset-Keeps, rioop_fcntl-Keeps, chown_path-Keeps, rioop_fchown-Keeps,
}
use ioriot.Replay.Sound.Changes.{rioop_close-Keeps, rioop_getdents-Keeps, IsFresh, rioop_open-Keeps}

abbrev AllKeep : List (ℕ × Handler) → Type 0
AllKeep [] = Unit
AllKeep ((number, handler) ∷ rest) = Keeps handler × AllKeep rest

handlers-AllKeep : (sys : System) → IsFresh sys → AllKeep (handlers sys)
unfolding rioop_stat rioop_fstat rioop_fstatfs rioop_read rioop_readahead rioop_readlink
    rioop_readlinkat rioop_statfs rioop_open_default rioop_open_creat rioop_readdir rioop_mkdir
    rioop_unlink rioop_rmdir rioop_lseek rioop_fsync rioop_fdatasync rioop_sync rioop_syncfs
    rioop_sync_file_range rioop_chmod rioop_fchmod rioop_chown rioop_lchown rioop_noop
handlers-AllKeep sys fresh = (
  fd_call-Keeps sys_fstat,
  (
    fd_call-Keeps sys_fstatfs,
    (
      fd_call-Keeps sys_fstatfs,
      (
        path_call-Keeps sys_stat,
        (
          path_call-Keeps sys_stat,
          (
            path_call-Keeps sys_stat,
            (
              path_call-Keeps sys_statfs,
              (
                path_call-Keeps sys_statfs,
                (
                  bytes_call-Keeps sys_read 4 [],
                  (
                    bytes_call-Keeps sys_read 4 [],
                    (
                      after_offset-Keeps sys_readahead,
                      (
                        path_call-Keeps sys_readlink,
                        (
                          path_call-Keeps sys_readlinkat,
                          (
                            rioop_write-Keeps,
                            (
                              rioop_write-Keeps,
                              (
                                rioop_open-Keeps sys none fresh,
                                (
                                  rioop_open-Keeps sys none fresh,
                                  (
                                    rioop_open-Keeps sys (some _) fresh,
                                    (
                                      path_call-Keeps sys_mkdir,
                                      (
                                        path_call-Keeps sys_mkdir,
                                        (
                                          rioop_rename-Keeps,
                                          (
                                            rioop_rename-Keeps,
                                            (
                                              rioop_rename-Keeps,
                                              (
                                                rioop_close-Keeps,
                                                (
                                                  path_call-Keeps sys_unlink,
                                                  (
                                                    path_call-Keeps sys_unlink,
                                                    (
                                                      path_call-Keeps sys_rmdir,
                                                      (
                                                        fd_call-Keeps sys_fsync,
                                                        (
                                                          fd_call-Keeps sys_fdatasync,
                                                          (
                                                            λ lineno toks s h.
                                                            emit_synced-IsSound s h,
                                                            (
                                                            fd_call-Keeps sys_syncfs,
                                                            (
                                                            after_offset-Keeps sys_sync_file_range,
                                                            (
                                                            rioop_fcntl-Keeps sys,
                                                            (
                                                            rioop_getdents-Keeps sys,
                                                            (
                                                            rioop_getdents-Keeps sys,
                                                            (
                                                            bytes_call-Keeps sys_lseek 6 [],
                                                            (
                                                            bytes_call-Keeps sys_lseek 6 [],
                                                            (
                                                            path_call-Keeps sys_chmod,
                                                            (
                                                            fd_call-Keeps sys_fchmod,
                                                            (
                                                            chown_path-Keeps sys_chown sys,
                                                            (
                                                            chown_path-Keeps sys_chown sys,
                                                            (
                                                            rioop_fchown-Keeps sys,
                                                            (
                                                            rioop_fchown-Keeps sys,
                                                            (
                                                            rioop_fchown-Keeps sys,
                                                            (
                                                            chown_path-Keeps sys_lchown sys,
                                                            (
                                                            chown_path-Keeps sys_lchown sys,
                                                            (
                                                            λ lineno toks s h. h,
                                                            (λ lineno toks s h. h, tt),
                                                            ),
                                                            ),
                                                            ),
                                                            ),
                                                            ),
                                                            ),
                                                            ),
                                                            ),
                                                            ),
                                                            ),
                                                            ),
                                                            ),
                                                            ),
                                                            ),
                                                            ),
                                                            ),
                                                            ),
                                                          ),
                                                        ),
                                                      ),
                                                    ),
                                                  ),
                                                ),
                                              ),
                                            ),
                                          ),
                                        ),
                                      ),
                                    ),
                                  ),
                                ),
                              ),
                            ),
                          ),
                        ),
                      ),
                    ),
                  ),
                ),
              ),
            ),
          ),
        ),
      ),
    ),
  ),
)

run_in-Holds :
    (table : List (ℕ × Handler)) (op : ℤ) (lineno : ℕ) (toks : Toks) (s : Files)
    → AllKeep table
    → IsSound s
    → Holds IsSound (run_in table op lineno toks s)
run_in-Holds [] op lineno toks s k h = tt
run_in-Holds ((number, handler) ∷ rest) op lineno toks s k h =
    if-Holds IsSound (eqz (pos number) op) _ _ (k.0 lineno toks s h)
      (run_in-Holds rest op lineno toks s k.1 h)

rioop_run-Keeps : (sys : System) → IsFresh sys → Keeps (rioop_run sys)
unfolding rioop_run
rioop_run-Keeps sys fresh lineno toks s h =
    tok-Holds toks 2 _
      (λ op. run_in-Holds (handlers sys) (atoi op) lineno toks s (handlers-AllKeep sys fresh) h)

-- Where open(2) returns no descriptor that is open: whatever the tokens of the lines are, and in
-- whatever order the tasks are run, as long as the replay goes on, every call that it makes with a
-- descriptor is made with one that it has opened and has not closed since, so none is closed
-- twice; each descriptor that the map has leads to an open one, and no two lead to the same.
pub run_all-IsSound :
    (sys : System) (tasks : List (ℕ × Toks)) (s : Files)
    → IsFresh sys
    → IsSound s
    → Holds IsSound (run_all sys tasks s)
unfolding run_all
run_all-IsSound sys [] s fresh h = h
run_all-IsSound sys ((lineno, toks) ∷ tasks) s fresh h =
    Holds-bind IsSound IsSound (rioop_run sys lineno toks s) _
      (rioop_run-Keeps sys fresh lineno toks s h) (λ s k. run_all-IsSound sys tasks s fresh k)
