-- ===== src/Lib.antt =====
-- A model of I/O Riot, which replays the I/O of a Linux server: `ioriot` captures the system calls
-- of a server, generates a .replay file from the capture, creates the files that the replay needs,
-- and replays the calls by several processes and threads.
--
-- Datas.RBuffer models ioriot/src/datas/rbuffer.c, Datas.RBuffer.Threads its use by a writer and a
-- reader thread. Datas.Stack, Datas.BTree, Datas.AMap, Datas.NamedList and Datas.HMap model
-- stack.c, btree.c, amap.c, list.c and hmap.c of the same folder; Datas.Key has what the versions
-- for strings and for `long` keys of the last two do differently. Tests has runs at small inputs.
--
-- Generate.State models the virtual sizes of ioriot/src/generate/vsize.c and their lookup by path
-- in generate.c, Generate.DataRange the record of the data a file must have, Generate.Vsize the
-- effect of each system call. They use the map from paths through the interface of
-- Generate.PathMap, which the hash map of Datas.HMap fills. `dirname` of the C library and the open
-- flags are parameters.
--
-- Generate.Task models the state of the generator, its processes and its tasks (generate.h,
-- gprocess.h, gtask.h), Generate.Process the mapping of descriptors of gprocess.c, Generate.Gioop
-- and the modules below it the handlers and tables of gioop.c (the order of the store is in its
-- child Keeps), Generate.Opcodes the numbers of opcodes.h. Generate.Print models the text of a
-- written line; its name of the call, left out of the generator's state, is an argument there, and
-- its numbers have at most twenty digits. The flags and the commands of fcntl(2) from the system's
-- headers are parameters.
--
-- Text and the modules below it model the strings of ioriot/src/utils/utils.c and what the code
-- uses of the C library for strings and numbers: a string is the list of its bytes. Mounts models
-- the paths of ioriot/src/mounts.c: the normal form of a path, the choice of a mount point, the
-- targets of links (Mounts.Links), and the reading of the lines of /proc/mounts (Mounts.Read).
-- Generate.Parser and its children model ioriot/src/generate/gparser.c, from a line of the capture
-- to the task that Generate.Gioop takes; a difference of times that no `long` holds, and a link's
-- target on no mount point, are outcomes of their own. Trashing and purging (mounts.c) only move
-- and remove directories, and are not modelled.
--
-- Replay.Lines models the lines that a worker of ioriot/src/replay/rworker.c takes and the tokens
-- that a thread of rthread.c makes of them, Replay.Ioop and Replay.Table the handlers of rioop.c
-- and their table, on the state of Replay.Files: the map of descriptors and the calls made to the
-- system, whose constants and results (Replay.Files.System) are parameters; each runs as a whole
-- there. Replay.Threads models the threads of a worker with at least two: a state holds the tasks
-- of the lines that are left, what each thread has queued and in hand, rthread_map, the buffer of
-- idle threads, and the tasks that were run. The worker takes a line and finds, reuses or creates a
-- thread in one step, and passes the task on in another; a thread takes a task, runs it, or reports
-- itself idle, each in one step, and the steps of all of them follow each other in any order. A
-- queue has room for 511 tasks, the buffer for one thread less than a worker may have. A worker
-- with one thread runs each task at once. Waiting for the time of a call, the statistics and the
-- creation of the worker processes are not modelled.
--
-- Main models the options of ioriot/src/main.c and options.c, and which part of the program they
-- choose; what getopt finds is an argument.
--
-- Meta models ioriot/src/meta/meta.c on the bytes of a file, Generate.Header what generate_run
-- reads and writes with it, Replay.Header and Init.Header the two functions that read the header of
-- a .replay file. Generate.Section models the INIT section that generate.c writes, Init.Lines how
-- ioriot/src/init/init.c reads it, Init.Tasks what ithread.c does for a task. Futils models
-- ioriot/src/utils/futils.c; the calls of the file system are a parameter there
-- (Futils.FileSystem), which counts the bytes that are written but does not name them; Futils.Walks
-- is where a path leads, component by component, apart from that code. Init.Asked is about what
-- reads and writes in the capture do to the INIT section. The threads of the initialiser, which
-- take tasks from ring buffers, are not modelled.
--
-- Loops are structural recursion, but for the tokens of a line, Text.Tokens.all_tokens, whose fuel
-- is one more than the bytes of the line, since each round but the last takes a byte off it, for
-- Stack.move, whose fuel is one more than the size of the stack, since each round takes an element
-- off it, for Futils.mkdir_p, whose depth is two more than the bytes of the path, since each parent
-- is shorter or always there, and for Futils.random_bytes, whose rounds are as many as the bytes.
--
-- Pointers are addresses, 0 for NULL. A `long` is an integer of Prelude.Long, without its bounds.
-- Printing, freeing and the unit tests are not modelled.
pub mod Datas
pub mod Futils
pub mod Generate
pub mod Init
pub mod Main
pub mod Meta
pub mod Mounts
pub mod Prelude
pub mod Replay
pub mod Tests
pub mod Text
